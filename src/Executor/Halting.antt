-- ===== src/Executor/Halting.antt =====
-- After a halt or a stop the executor submits nothing more (src/execution/execution.cpp). The events
-- may be any, stream reports among them.
use mathlib.Core.Path.{subst}
use mathlib.Core.Option.{some-injective}
use single_exchange_triangul.Common.{
  ◌≡◌, ◌⊎◌, inl, true, none, some, List, [], ◌∷◌, arith, >>=-eq-some,
}
use single_exchange_triangul.Decimal.{Arith, Wire, Widen}
use single_exchange_triangul.Executor.Defs.{
  Setup, Env, Exec, Effect, submitted, submit_threw, OrderRequest, idle, halted,
}
use single_exchange_triangul.Executor.Invariant.{Inv}
use single_exchange_triangul.Executor.Machine.{
  Event, cleanup_started, try_started, begun, called_back, stream_report, timed_out, cleanup_waited,
  stopped, stop, step, run,
}

-- The orders handed to the gateway, of cycles and of the clean-up, the last one first.
abbrev pub orders : List Effect → List OrderRequest
orders [] = []
orders (submitted p ∷ l) = p ∷ orders l
orders (submit_threw p ∷ l) = p ∷ orders l
orders (_ ∷ l) = orders l

-- `s` is halted, or stopped with nothing outstanding.
abbrev Over : {D F : Type 0} → Exec D F → Type 0
Over s = (s.state ≡ halted) ⊎ ((s.state ≡ idle) × (s.stopping ≡ true) × (s.pending ≡ none))

-- `t` follows `s` with no new order, in the same state.
pub record Still {D F : Type 0} (s t : Exec D F) : Type 0 where
  pub state_kept : t.state ≡ s.state
  pub stopping_kept : s.stopping ≡ true → t.stopping ≡ true
  pub pending_kept : t.pending ≡ s.pending
  pub orders_kept : orders t.log ≡ orders s.log

module _ {D F : Type 0} ⦃a : Arith D⦄ ⦃f : Arith F⦄ ⦃w : Wire D⦄ ⦃c : Widen F D⦄
    (u : Setup D F) where
  step-Still :
      (v : Env D) (e : Event D F) (s : Exec D F) {t : Exec D F}
      → Over s
      → step u v e s ≡ some t
      → Still s t
  unfolding step
  step-Still v cleanup_started s o e = ground arith
  step-Still v (try_started x) s o e = ground arith
  step-Still v begun s o e = ground arith
  step-Still v (called_back r) s o e = ground arith
  step-Still v (stream_report r) s o e = ground arith
  step-Still v timed_out s o e = ground arith
  step-Still v cleanup_waited s o e = ground arith
  step-Still v stopped s o e = ground arith

  run-Still :
      (es : List (Env D × Event D F)) (s : Exec D F) {t : Exec D F}
      → Over s
      → run u es s ≡ some t
      → Still s t
  unfolding run
  run-Still [] s o e = subst (Still s) (some-injective _ _ e) (ground arith)
  run-Still ((v, x) ∷ es) s {t} o e =
      let (m, e₁, e₂) = >>=-eq-some (step u v x s) _ e in
      let near = step-Still v x s {t = m} o e₁ in
      let far = run-Still es m {t = t} (ground arith) e₂ in ground arith

  -- A halted executor stays halted and hands no further order to the gateway, whatever comes.
  pub halt_is_final :
      (es : List (Env D × Event D F)) (s : Exec D F) {t : Exec D F}
      → s.state ≡ halted
      → run u es s ≡ some t
      → (t.state ≡ halted) × (orders t.log ≡ orders s.log)
  halt_is_final es s h e = let k = run-Still es s (inl h) e in ground arith

  -- After `stop` in a state that keeps the invariant, the executor ends idle or halted, and no
  -- further order goes to the gateway, whatever comes.
  pub stop_is_final :
      (es : List (Env D × Event D F)) (s : Exec D F) {t : Exec D F}
      → Inv u s
      → run u es (stop s) ≡ some t
      → ((t.state ≡ idle) ⊎ (t.state ≡ halted)) × (orders t.log ≡ orders s.log)
  unfolding stop
  stop_is_final es s i e = let k = run-Still es (stop s) (ground arith) e in ground arith
