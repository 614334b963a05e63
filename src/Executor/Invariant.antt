-- ===== src/Executor/Invariant.antt =====
-- What holds of the executor between two events (src/execution/execution.cpp).
pub mod Frame
pub mod Cycle
pub mod Cleanup
pub mod Report
pub mod Run
use single_exchange_triangul.Common.{
  String, ℕ, ◌+◌, ◌^◌, List, [], ◌∷◌, if◌then◌else◌, ◌≤◌, ◌<◌, ◌≡◌, refl, ◌≢◌, ◌⊎◌, inl, inr, Bool,
  true, false, Option, none, some, arith, is_some, Option-cases, Bool-cases, >>=-eq-some, ◌>>=◌,
}
use single_exchange_triangul.Decimal.{Arith, Wire, Widen}
use single_exchange_triangul.Executor.Defs.{
  State, idle, validating, leg_pending, clearing_initial_position, halted, OrderRequest, Setup, Env,
  Exec, Effect, submitted, halt, fail_cycle, give_up, finish, send, submitted_order, submit_failed,
}

-- Which order may be outstanding in which state.
abbrev pub Fits : State → Option OrderRequest → Type 0
Fits idle none = Unit {0}
Fits idle (some p) = ⊥
Fits validating none = Unit {0}
Fits validating (some p) = ⊥
Fits leg_pending none = ⊥
Fits leg_pending (some p) = p.initial_clear ≡ false
Fits clearing_initial_position none = Unit {0}
Fits clearing_initial_position (some p) = p.initial_clear ≡ true
Fits halted p = Unit {0}

-- Only a cycle with an outstanding order waits for the gateway.
abbrev pub Waits : State → Bool → Bool → Type 0
Waits leg_pending waiting busy = waiting ≡ true → busy ≡ true
Waits halted waiting busy = Unit {0}
Waits _ waiting busy = waiting ≡ false

-- The cap on submitted cycles, with room for one more where a cycle is about to submit.
abbrev pub Capped : {D F : Type 0} → Setup D F → ℕ → Type 0
Capped u n = (u.options.max_cycles ≡ 0) ⊎ (n ≤ u.options.max_cycles)

abbrev pub HasRoom : {D F : Type 0} → Setup D F → ℕ → Type 0
HasRoom u n = (u.options.max_cycles ≡ 0) ⊎ (n < u.options.max_cycles)

-- The calls of `gateway.submit` for cycles that returned, in the log.
abbrev pub cycle_orders : List Effect → ℕ
cycle_orders [] = 0
cycle_orders (submitted p ∷ l) = (if p.initial_clear then 0 else 1) + cycle_orders l
cycle_orders (_ ∷ l) = cycle_orders l

-- `submitted_cycles` counts them, as far as the cap.
abbrev pub Tallied : {D F : Type 0} → Setup D F → Exec D F → Type 0
Tallied u s = (u.options.max_cycles ≡ 0) ⊎ (cycle_orders s.log ≤ s.submitted_cycles)

pub record Inv {D F : Type 0} (u : Setup D F) (s : Exec D F) : Type 0 where
  pub fits : Fits s.state s.pending
  pub waits : Waits s.state s.waiting_gateway s.gateway_busy
  pub busy : s.gateway_busy ≡ true → (is_some s.pending ≡ true) × (s.accounted.revision ≡ 0)
  pub capped : Capped u s.submitted_cycles
  pub room : s.state ≡ validating → (s.cycle_submitted ≡ false) × HasRoom u s.submitted_cycles
  pub counted : s.state ≡ leg_pending → s.cycle_submitted ≡ true
  pub first_leg : s.leg_number ≡ 0
  pub none_completed : s.completed ≡ 0
  pub tallied : Tallied u s
  pub word : u.options.max_cycles < 2 ^ 64

-- What `finish` and `send` need of the members that they keep.
pub record Ready {D F : Type 0} (u : Setup D F) (s : Exec D F) : Type 0 where
  pub not_waiting : s.waiting_gateway ≡ false
  pub not_busy : s.gateway_busy ≡ false
  pub capped : Capped u s.submitted_cycles
  pub first_leg : s.leg_number ≡ 0
  pub none_completed : s.completed ≡ 0
  pub tallied : Tallied u s
  pub word : u.options.max_cycles < 2 ^ 64

module _ {D F : Type 0} {u : Setup D F} where
  pub halt-Inv : (why : String) {s : Exec D F} → Inv u s → Inv u (halt why s)
  unfolding halt
  halt-Inv why i = ground arith

  pub fail_cycle-Inv :
      (why : String) {s : Exec D F}
      → Inv u s
      → (s.state ≡ clearing_initial_position → s.gateway_busy ≡ false)
      → Inv u (fail_cycle why s)
  unfolding fail_cycle
  fail_cycle-Inv why i h = ground arith

  pub give_up-Inv :
      (p : OrderRequest) (why : String) {s : Exec D F}
      → Inv u s
      → (p.initial_clear ≡ false → s.state ≡ clearing_initial_position → s.gateway_busy ≡ false)
      → Inv u (give_up p why s)
  unfolding give_up
  give_up-Inv p why {s} i h = ground (arith, halt-Inv why i, fail_cycle-Inv why i)

  pub finish-Inv : {s : Exec D F} → Ready u s → Inv u (finish s)
  unfolding finish
  finish-Inv r = ground arith

  pub send-Inv :
      ⦃a : Arith D⦄ (v : Env D) (o : OrderRequest) {s : Exec D F}
      → Ready u s
      → (o.initial_clear ≡ false → (s.cycle_submitted ≡ false) × HasRoom u s.submitted_cycles)
      → Inv u (send v o s)
  unfolding send
  send-Inv v o r h = ground arith
