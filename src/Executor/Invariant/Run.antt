-- ===== src/Executor/Invariant/Run.antt =====
-- The invariant along a history, and what it gives (src/execution/execution.cpp).
use mathlib.Core.Path.{subst}
use mathlib.Core.Option.{some-injective}
use single_exchange_triangul.Common.{
  ◌≤◌, ◌<◌, ◌^◌, ◌≡◌, some, List, [], ◌∷◌, arith, >>=-eq-some, All,
}
use single_exchange_triangul.Decimal.{Arith, Wire, Widen}
use single_exchange_triangul.Executor.Defs.{Setup, Env, Exec}
use single_exchange_triangul.Executor.Machine.{
  Event, cleanup_started, try_started, begun, called_back, stream_report, timed_out, cleanup_waited,
  stopped, timeout_fired, stop, step, run, fresh_exec,
}
use single_exchange_triangul.Executor.Invariant.{Inv}
use single_exchange_triangul.Executor.Invariant.Cycle.{start-Inv, begin-Inv}
use single_exchange_triangul.Executor.Invariant.Cleanup.{
  start_initial_cleanup-Inv, clear_initial_position-Inv,
}
use single_exchange_triangul.Executor.Invariant.Report.{callback-Inv}

-- The events of the program: no stream reports, and every revision counts from 1.
abbrev pub Proper : {D F : Type 0} → Event D F → Type 0
Proper (called_back r) = 1 ≤ r.revision
Proper (stream_report r) = ⊥
Proper _ = Unit {0}

module _ {D F : Type 0} ⦃a : Arith D⦄ ⦃f : Arith F⦄ ⦃w : Wire D⦄ ⦃c : Widen F D⦄
    (u : Setup D F) where
  fresh_exec-Inv : u.options.max_cycles < 2 ^ 64 → Inv u fresh_exec
  unfolding fresh_exec
  fresh_exec-Inv h = ground arith

  timeout_fired-Inv : {s : Exec D F} → Inv u s → Inv u (timeout_fired s)
  unfolding timeout_fired
  timeout_fired-Inv i = ground arith

  stop-Inv : {s : Exec D F} → Inv u s → Inv u (stop s)
  unfolding stop
  stop-Inv i = ground arith

  pub step-Inv :
      (v : Env D) (e : Event D F) {s t : Exec D F}
      → Proper e
      → Inv u s
      → step u v e s ≡ some t
      → Inv u t
  unfolding step
  step-Inv v cleanup_started q i e = start_initial_cleanup-Inv u v i e
  step-Inv v (try_started o) q i e = subst (Inv u) (some-injective _ _ e) (start-Inv v o i)
  step-Inv v begun q i e = begin-Inv v i e
  step-Inv v (called_back r) q i e = callback-Inv u v r q i e
  step-Inv v (stream_report r) q i e = absurd q
  step-Inv v timed_out q i e = subst (Inv u) (some-injective _ _ e) (timeout_fired-Inv i)
  step-Inv v cleanup_waited q i e = clear_initial_position-Inv u v i e
  step-Inv v stopped q i e = subst (Inv u) (some-injective _ _ e) (stop-Inv i)

  abbrev pub AllProper : List (Env D × Event D F) → Type 0
  AllProper = All (λ x. Proper x.1)

  run-Inv :
      (es : List (Env D × Event D F)) {s t : Exec D F}
      → AllProper es
      → Inv u s
      → run u es s ≡ some t
      → Inv u t
  unfolding run
  run-Inv [] q i e = subst (Inv u) (some-injective _ _ e) i
  run-Inv ((v, x) ∷ es) {s} q i e =
      let (m, e₁, e₂) = >>=-eq-some (step u v x s) _ e in
      run-Inv es q.1 (step-Inv v x {s = s} {t = m} q.0 i e₁) e₂

  pub run-fresh_exec-Inv :
      (es : List (Env D × Event D F)) {t : Exec D F}
      → u.options.max_cycles < 2 ^ 64
      → AllProper es
      → run u es fresh_exec ≡ some t
      → Inv u t
  run-fresh_exec-Inv es h q e = run-Inv es q (fresh_exec-Inv h) e
