-- ===== src/Executor/Invariant/Report.antt =====
-- The handling of a report keeps the invariant (src/execution/execution.cpp).
use mathlib.Core.Path.{subst}
use mathlib.Core.Option.{some-injective}
use single_exchange_triangul.Common.{
  ◌≤◌, String, ◌≡◌, ◌≢◌, inl, inr, true, false, none, some, arith, Bool-cases, >>=-eq-some,
  get_elem?,
}
use single_exchange_triangul.Decimal.{Arith, Wire, Widen}
use single_exchange_triangul.Trading.{Market}
use single_exchange_triangul.Executor.Defs.{
  Setup, Env, Exec, OrderReport, OrderRequest, halted, give_up, same_id, is_unknown,
  first_leg_event,
}
use single_exchange_triangul.Executor.Report.{
  settle, note_cleared, invalid_fill, account, release, conclude, note_report, ignored,
  with_order_cases, accept_report, report, callback,
}
use single_exchange_triangul.Executor.Invariant.{Inv, Ready}
use single_exchange_triangul.Executor.Invariant.Cycle.{fail_with-Inv}
use single_exchange_triangul.Executor.Invariant.Cleanup.{clear_initial_position-Inv}

-- A callback's report has just cleared `gateway_busy`, and nothing was accounted before it.
pub record Answered {D F : Type 0} (u : Setup D F) (p : OrderRequest) (s : Exec D F) : Type 0 where
  pub free : s.gateway_busy ≡ false
  pub outstanding : s.pending ≡ some p
  pub running : s.state ≢ halted
  pub restored : Inv u (record s { waiting_gateway = false })

module _ {D F : Type 0} ⦃a : Arith D⦄ ⦃w : Wire D⦄ ⦃c : Widen F D⦄ (u : Setup D F) (v : Env D)
    (p : OrderRequest) where
  account-Answered :
      (value : OrderReport D) (m : Market D) {s : Exec D F}
      → Answered u p s
      → Answered u p (account p value m s)
  unfolding account
  account-Answered value m k = let i = k.restored in ground arith

  note_report-Answered :
      (value : OrderReport D) {s : Exec D F} → Answered u p s → Answered u p (note_report v value s)
  unfolding note_report
  note_report-Answered value k = let i = k.restored in ground arith

  event_Answered :
      (name : String) {s : Exec D F}
      → Answered u p s
      → Answered u p (record s { log = first_leg_event name p s s.log })
  unfolding first_leg_event
  event_Answered name k = let i = k.restored in ground arith

  give_up-Answered : (why : String) {s : Exec D F} → Answered u p s → Inv u (give_up p why s)
  unfolding give_up
  give_up-Answered why k = let i = k.restored in ground arith

  release-Answered : {s : Exec D F} → Answered u p s → Inv u (release s)
  unfolding release
  release-Answered k = let i = k.restored in ground arith

  note_cleared-Inv :
      (value : OrderReport D) (m : Market D) {s : Exec D F}
      → Answered u p s
      → s.waiting_gateway ≡ false
      → p.initial_clear ≡ true
      → Inv u (note_cleared p value m s)
  unfolding note_cleared
  note_cleared-Inv value m k h e = let i = k.restored in ground arith

  settle-Inv :
      (value : OrderReport D) (m : Market D) {s t : Exec D F}
      → Answered u p s
      → s.waiting_gateway ≡ false
      → settle u v p value m s ≡ some t
      → Inv u t
  unfolding settle
  settle-Inv value m {s} {t} k h e = elim (Bool-cases p.initial_clear) [
    | inl clear ↦
        clear_initial_position-Inv u v (note_cleared-Inv value m k h clear) (rw clear at e)
    | inr cycle ↦
        let i = k.restored in
        let ready : Ready u (record s { pending = none }) = ground arith in
        ground (arith, fail_with-Inv "Arbitrage leg did not fill completely" ready)
  ]

  conclude-Inv :
      (value : OrderReport D) (m : Market D) {s t : Exec D F}
      → Answered u p s
      → conclude u v p value m s ≡ some t
      → Inv u t
  unfolding conclude
  conclude-Inv value m {s} {t} k e =
      let i = k.restored in
      ground (
        arith,
        release-Answered k,
        give_up-Answered "Incomplete fill accounting" k,
        settle-Inv value m {s = s} {t = t} k,
      )

  accept_report-Inv :
      (value : OrderReport D) {s t : Exec D F}
      → Answered u p s
      → accept_report u v p value s ≡ some t
      → Inv u t
  unfolding accept_report
  accept_report-Inv value {s} {t} k e = elim (Bool-cases (is_unknown value.status)) [
    | inl lost ↦
        subst (Inv u) (some-injective _ _ (rw lost at e))
          (give_up-Answered "Order outcome unknown" (event_Answered "arbitrage_first_leg_report" k))
    | inr known ↦ elim (Bool-cases (invalid_fill (w.of_text p.quantity) value s.accounted)) [
      | inl bad ↦
          subst (Inv u) (some-injective _ _ (rw (known, bad) at e))
            (give_up-Answered "Invalid cumulative fill" k)
      | inr good ↦
          let (m, _, e') =
            >>=-eq-some (get_elem? u.markets p.symbol_index) _ (rw (known, good) at e) in
          conclude-Inv value m (account-Answered value m k) e'
    ]
  ]

module _ {D F : Type 0} ⦃a : Arith D⦄ ⦃w : Wire D⦄ ⦃c : Widen F D⦄ (u : Setup D F) (v : Env D) where
  -- A callback with a revision of at least 1 keeps the invariant.
  pub callback-Inv :
      (value : OrderReport D) {s t : Exec D F}
      → 1 ≤ value.revision
      → Inv u s
      → callback u v value s ≡ some t
      → Inv u t
  unfolding callback report
  callback-Inv value {s} {t} h i e =
      with_order_cases (Inv u) s.pending s _ e (λ _. i)
        λ p out e₁. elim (Bool-cases (same_id value.client_id p.client_id)) [
          | inr other ↦ subst (Inv u) (some-injective _ _ (rw other at e₁)) i
          | inl same ↦
              let s' : Exec D F = record s { gateway_busy = false } in
              with_order_cases (Inv u) s.pending s' _ (rw same at e₁) (λ gone. cc)
                λ q out' e₂. elim (Bool-cases (ignored q value s')) [
                  | inl skipped ↦
                      subst (Inv u) (some-injective _ _ (rw skipped at e₂)) (ground arith)
                  | inr taken ↦
                      accept_report-Inv u v q value
                        (note_report-Answered u v q value {s = s'} (ground arith)) (rw taken at e₂)
                ]
        ]
