-- ===== src/Executor/Invariant/Cycle.antt =====
-- The handlers of an arbitrage cycle keep the invariant (src/execution/execution.cpp).
use single_exchange_triangul.Common.{
  String, ◌≡◌, inl, inr, true, false, some, [], ◌∷◌, arith, Bool-cases, >>=-eq-some,
}
use single_exchange_triangul.Decimal.{Arith, Wire, Widen}
use single_exchange_triangul.Trading.{ArbitrageOpportunity}
use single_exchange_triangul.Executor.Defs.{Setup, Env, Exec}
use single_exchange_triangul.Executor.Cycle.{
  start, begin, start_arbitrage, preflight, next_leg, fail_with, insufficient, limit_reached,
}
use single_exchange_triangul.Executor.Invariant.Frame.{preflight_keeps}
use single_exchange_triangul.Executor.Invariant.{Inv, Ready, HasRoom, finish-Inv}

-- The cycle's first order is still to come, and fits the cap.
abbrev pub MaySubmit : {D F : Type 0} → Setup D F → Exec D F → Type 0
MaySubmit u s = (s.cycle_submitted ≡ false) × HasRoom u s.submitted_cycles

module _ {D F : Type 0} {u : Setup D F} where
  pub fail_with-Inv : (why : String) {s : Exec D F} → Ready u s → Inv u (fail_with why s)
  unfolding fail_with
  fail_with-Inv why {s} r = finish-Inv {s = record s { failed = true; reason = why }} (ground arith)

  insufficient-Inv : {s : Exec D F} → Ready u s → Inv u (insufficient s)
  unfolding insufficient
  insufficient-Inv r = ground arith

  module _ ⦃a : Arith D⦄ ⦃f : Arith F⦄ ⦃c : Widen F D⦄ where
    pub start-Inv :
        (v : Env D) (o : ArbitrageOpportunity F) {s : Exec D F} → Inv u s → Inv u (start u v o s).0
    unfolding start limit_reached
    start-Inv v o {s} i = ground arith

  module _ ⦃a : Arith D⦄ ⦃w : Wire D⦄ ⦃c : Widen F D⦄ where
    pub next_leg-Inv :
        (v : Env D) {s t : Exec D F} → Ready u s → MaySubmit u s → next_leg u v s ≡ some t → Inv u t
    unfolding next_leg
    next_leg-Inv v {s} {t} r m e = ground (arith, finish-Inv {s = s} r)

    pub start_arbitrage-Inv :
        (v : Env D) {s t : Exec D F}
        → Ready u s
        → MaySubmit u s
        → start_arbitrage u v s ≡ some t
        → Inv u t
    unfolding start_arbitrage
    start_arbitrage-Inv v {s} {t} r m e =
        let s' : Exec D F = record s { holdings = ("USDT", s.budget) ∷ [] } in
        let (p, e₁, e₂) = >>=-eq-some (preflight u v s') _ e in
        let (r', m') =
          preflight_keeps (λ q. Ready u q × MaySubmit u q) u v s' (λ i code. (ground arith, m))
            (ground arith, m) e₁ in
        elim (Bool-cases p.1) [
          | inl ok ↦
              next_leg-Inv v {s = record (p.0) { leg_number = 0 }} (ground arith) m' (rw ok at e₂)
          | inr no' ↦ ground (arith, finish-Inv {s = record (p.0) { failed = true }})
        ]

    pub begin-Inv : (v : Env D) {s t : Exec D F} → Inv u s → begin u v s ≡ some t → Inv u t
    unfolding begin
    begin-Inv v {s} {t} i e =
        ground (arith, start_arbitrage-Inv v {s = s} {t = t}, insufficient-Inv {s = s})
