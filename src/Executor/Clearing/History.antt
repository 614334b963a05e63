-- ===== src/Executor/Clearing/History.antt =====
-- The clean-up's orders along any history of events (src/execution/execution.cpp).
use mathlib.Core.Path.{subst}
use mathlib.Core.Option.{some-injective}
use single_exchange_triangul.Common.{
  ℕ, ◌+◌, ◌^◌, ◌≤◌, ◌<◌, String, ◌≡◌, refl, inl, inr, true, false, not, ◌||◌, Option, none, some,
  List, [], ◌∷◌, arith, >>=-eq-some, Bool-cases, Option-cases, get_elem?, if◌then◌else◌, ◌==◌,
  length,
}
use single_exchange_triangul.Common.Dict.{find_or}
use single_exchange_triangul.Decimal.{Arith, Wire, Widen}
use single_exchange_triangul.Executor.Sizing.{prepare_fast}
use single_exchange_triangul.Trading.{items, Market, ArbitrageOpportunity}
use single_exchange_triangul.Executor.Defs.{
  Setup, Env, Exec, Effect, OrderRequest, OrderReport, submitted, submit_threw, send, give_up,
  is_idle, is_unknown, same_id,
}
use single_exchange_triangul.Executor.Cycle.{
  spends, touch, start, begin, start_arbitrage, preflight, next_leg, fail_with,
}
use single_exchange_triangul.Executor.Cleanup.{
  protected_asset, skip_asset, clear_order, cleanup_finished, clear_initial_position,
  start_initial_cleanup, open_cleanup, behind,
}
use single_exchange_triangul.Executor.Report.{
  settle, note_cleared, account, conclude, note_report, accept_report, invalid_fill, ignored,
  report, callback, with_order_cases,
}
use single_exchange_triangul.Executor.Machine.{
  Event, cleanup_started, try_started, begun, called_back, stream_report, timed_out, cleanup_waited,
  stopped, step, run, fresh_exec,
}
use single_exchange_triangul.Executor.Filters.{Placed, prepare_fast-Placed}
use single_exchange_triangul.Executor.Clearing.{Exits, Sells, clear_asset-submit}
use single_exchange_triangul.Executor.Invariant.Frame.{preflight_keeps}
use single_exchange_triangul.Executor.Invariant.Cleanup.{LoopRule, clear_from_rule}

-- The order turns an asset other than USDT and BNB into USDT.
abbrev pub IntoUsdt : {D F : Type 0} → Setup D F → OrderRequest → Type 0
IntoUsdt {D} u p =
    (asset : String) × (protected_asset asset ≡ false)
    × ((m : Market D) × (get_elem? u.markets p.symbol_index ≡ some m) × Exits asset m p.buy)

-- Every clean-up order of the log does.
abbrev pub AllIntoUsdt : {D F : Type 0} → Setup D F → List Effect → Type 0
AllIntoUsdt u [] = Unit {0}
AllIntoUsdt u (submitted p ∷ l) = (p.initial_clear ≡ true → IntoUsdt u p) × AllIntoUsdt u l
AllIntoUsdt u (submit_threw p ∷ l) = (p.initial_clear ≡ true → IntoUsdt u p) × AllIntoUsdt u l
AllIntoUsdt u (_ ∷ l) = AllIntoUsdt u l

abbrev pub clear_submissions : List Effect → ℕ
clear_submissions [] = 0
clear_submissions (submitted p ∷ l) = (if p.initial_clear then 1 else 0) + clear_submissions l
clear_submissions (submit_threw p ∷ l) = (if p.initial_clear then 1 else 0) + clear_submissions l
clear_submissions (_ ∷ l) = clear_submissions l

-- Every order of the log fits the filters of its market.
abbrev pub AllPlaced : {D F : Type 0} ⦃a : Arith D⦄ ⦃w : Wire D⦄ → Setup D F → List Effect → Type 0
AllPlaced u [] = Unit {0}
AllPlaced u (submitted p ∷ l) = Placed u p × AllPlaced u l
AllPlaced u (submit_threw p ∷ l) = Placed u p × AllPlaced u l
AllPlaced u (_ ∷ l) = AllPlaced u l

pub record Orderly {D F : Type 0} ⦃a : Arith D⦄ ⦃w : Wire D⦄ (u : Setup D F) (s : Exec D F)
    : Type 0 where
  pub counted : clear_submissions s.log ≤ s.clear_orders
  pub limited : s.clear_orders ≤ u.options.max_initial_clear_orders
  pub sold : AllIntoUsdt u s.log
  pub placed : AllPlaced u s.log
  pub word : u.options.max_initial_clear_orders < 2 ^ 32

module _ {D F : Type 0} {u : Setup D F} ⦃a : Arith D⦄ ⦃w : Wire D⦄ where
  give_up-Orderly :
      (p : OrderRequest) (why : String) {s : Exec D F} → Orderly u s → Orderly u (give_up p why s)
  unfolding give_up
  give_up-Orderly p why i = ground arith

  fail_with-Orderly : (why : String) {s : Exec D F} → Orderly u s → Orderly u (fail_with why s)
  unfolding fail_with
  fail_with-Orderly why i = ground arith

  module _ (v : Env D) where
    clear_order-Orderly :
        (asset : String) (o : OrderRequest) (s : Exec D F)
        → Orderly u s
        → Sells u asset s.clear_orders o
        → Orderly u (clear_order v asset o s)
    unfolding clear_order
    clear_order-Orderly asset o s i k =
        let sale : IntoUsdt u o = (asset, k.unprotected, k.exits) in
        let fits = k.placed in let under = k.under_limit in let ic = k.initial_clear in ground arith

    Orderly-rule : LoopRule u v (Orderly u) (Orderly u)
    unfolding skip_asset cleanup_finished
    Orderly-rule = record {
      skips = λ asset code s i. ground arith;
      dusts = λ asset amount s i. ground arith;
      sends = λ k asset amount o s p _ e.
          clear_order-Orderly asset o s p (clear_asset-submit u v k asset amount s e);
      waits = λ s i. ground arith;
      ends = λ s i. ground arith;
    }

    clear_initial_position-Orderly :
        {s t : Exec D F} → Orderly u s → clear_initial_position u v s ≡ some t → Orderly u t
    unfolding clear_initial_position
    clear_initial_position-Orderly {s} {t} i e =
        ground (arith, clear_from_rule u v Orderly-rule 0 s.holdings false s {t = t} i)

module _ {D F : Type 0} {u : Setup D F} ⦃a : Arith D⦄ ⦃w : Wire D⦄ (v : Env D) where
  open_cleanup-Orderly : {s : Exec D F} → Orderly u s → Orderly u (open_cleanup u v s)
  unfolding open_cleanup
  open_cleanup-Orderly i = ground arith

  start_initial_cleanup-Orderly :
      {s t : Exec D F} → Orderly u s → start_initial_cleanup u v s ≡ some t → Orderly u t
  unfolding start_initial_cleanup
  start_initial_cleanup-Orderly {s} {t} i e =
      elim (Bool-cases (s.cleanup_started || s.stopping || not (is_idle s.state))) [
        | inl out ↦ subst (Orderly u) (some-injective _ _ (rw out at e)) i
        | inr in_order ↦
            clear_initial_position-Orderly (behind v) {s = open_cleanup u v s} {t = t}
              (open_cleanup-Orderly i) (rw in_order at e)
      ]

module _ {D F : Type 0} {u : Setup D F} ⦃a : Arith D⦄ ⦃w : Wire D⦄ ⦃c : Widen F D⦄ (v : Env D) where
  next_leg-Orderly : {s t : Exec D F} → Orderly u s → next_leg u v s ≡ some t → Orderly u t
  unfolding next_leg
  next_leg-Orderly {s} {t} i e =
      elim (Bool-cases (s.leg_number == length (items s.opportunity.path))) [
        | inl over ↦ ground arith
        | inr more ↦
            let (leg, _, e₁) =
              >>=-eq-some (get_elem? (items s.opportunity.path) s.leg_number) _ (rw more at e) in
            let (m, _, e₂) = >>=-eq-some (get_elem? u.markets leg.index) _ e₁ in
            let amount = find_or a.nought (spends m leg.buy) s.holdings in
            let (answer, e₃, e₄) =
              >>=-eq-some (prepare_fast u s.opportunity leg amount s.leg_number) _ e₂ in
            go answer (record s { holdings = touch (spends m leg.buy) s.holdings }) (ground arith)
              (λ o got.
                prepare_fast-Placed u s.opportunity leg amount s.leg_number {o = o} (ground arith))
              e₄
      ]
    where
      go :
          (answer : Option OrderRequest) (s' : Exec D F)
          → Orderly u s'
          → ((o : OrderRequest) → answer ≡ some o → Placed u o × (o.initial_clear ≡ false))
          → elim answer [
            | none ↦ some (fail_with "Cannot size next leg" s')
            | some o ↦ some (send v o s')
          ]
            ≡ some t
          → Orderly u t
      go none s' k fits e' =
          subst (Orderly u) (some-injective _ _ e') (fail_with-Orderly "Cannot size next leg" k)
      go (some o) s' k fits e' = let (placed, plain) = fits o refl in ground arith

  start_arbitrage-Orderly :
      {s t : Exec D F} → Orderly u s → start_arbitrage u v s ≡ some t → Orderly u t
  unfolding start_arbitrage
  start_arbitrage-Orderly {s} {t} i e =
      let s' : Exec D F = record s { holdings = ("USDT", s.budget) ∷ [] } in
      let (p, e₁, e₂) = >>=-eq-some (preflight u v s') _ e in
      let k = preflight_keeps (Orderly u) u v s' (λ n code. ground arith) (ground arith) e₁ in
      elim (Bool-cases p.1) [
        | inl ok ↦
            next_leg-Orderly {s = record (p.0) { leg_number = 0 }} (ground arith) (rw ok at e₂)
        | inr no' ↦ ground arith
      ]

  begin-Orderly : {s t : Exec D F} → Orderly u s → begin u v s ≡ some t → Orderly u t
  unfolding begin
  begin-Orderly {s} {t} i e = ground (arith, start_arbitrage-Orderly {s = s} {t = t} i)

  note_cleared-Orderly :
      (p : OrderRequest) (r : OrderReport D) (m : Market D) {s : Exec D F}
      → Orderly u s
      → Orderly u (note_cleared p r m s)
  unfolding note_cleared
  note_cleared-Orderly p r m i = ground arith

  settle-Orderly :
      (p : OrderRequest) (r : OrderReport D) (m : Market D) {s t : Exec D F}
      → Orderly u s
      → settle u v p r m s ≡ some t
      → Orderly u t
  unfolding settle
  settle-Orderly p r m {s} {t} i e = ground (
    arith,
    clear_initial_position-Orderly v {s = note_cleared p r m s} {t = t}
        (note_cleared-Orderly p r m i),
    next_leg-Orderly {s = record s { pending = none; leg_number = s.leg_number + 1 }} {t = t}
        (ground arith),
  )

  conclude-Orderly :
      (p : OrderRequest) (r : OrderReport D) (m : Market D) {s t : Exec D F}
      → Orderly u s
      → conclude u v p r m s ≡ some t
      → Orderly u t
  unfolding conclude
  conclude-Orderly p r m {s} {t} i e = ground (arith, settle-Orderly p r m {s = s} {t = t} i)

  account-Orderly :
      (p : OrderRequest) (r : OrderReport D) (m : Market D) {s : Exec D F}
      → Orderly u s
      → Orderly u (account p r m s)
  unfolding account
  account-Orderly p r m i = ground arith

  accept_report-Orderly :
      (p : OrderRequest) (r : OrderReport D) {s t : Exec D F}
      → Orderly u s
      → accept_report u v p r s ≡ some t
      → Orderly u t
  unfolding accept_report
  accept_report-Orderly p r {s} {t} i e =
      elim (Bool-cases (is_unknown r.status || invalid_fill (w.of_text p.quantity) r s.accounted)) [
        | inl bad ↦ ground arith
        | inr good ↦ elim (Option-cases (get_elem? u.markets p.symbol_index)) [
          | inl missing ↦ ground arith
          | inr (m, found) ↦ ground (
            arith,
            conclude-Orderly p r m {s = account p r m s} {t = t} (account-Orderly p r m i),
          )
        ]
      ]

  note_report-Orderly :
      (r : OrderReport D) {s : Exec D F} → Orderly u s → Orderly u (note_report v r s)
  unfolding note_report
  note_report-Orderly r i = ground arith

  report-Orderly :
      (r : OrderReport D) {s t : Exec D F} → Orderly u s → report u v r s ≡ some t → Orderly u t
  unfolding report
  report-Orderly r {s} {t} i e =
      with_order_cases (Orderly u) s.pending s _ e (λ _. i)
        λ p out e₁. elim (Bool-cases (ignored p r s)) [
          | inl skipped ↦ subst (Orderly u) (some-injective _ _ (rw skipped at e₁)) i
          | inr taken ↦
              accept_report-Orderly p r {s = note_report v r s} (note_report-Orderly r i)
                (rw taken at e₁)
        ]

  callback-Orderly :
      (r : OrderReport D) {s t : Exec D F} → Orderly u s → callback u v r s ≡ some t → Orderly u t
  unfolding callback
  callback-Orderly r {s} {t} i e =
      with_order_cases (Orderly u) s.pending s _ e (λ _. i)
        λ p out e₁. elim (Bool-cases (same_id r.client_id p.client_id)) [
          | inr other ↦ subst (Orderly u) (some-injective _ _ (rw other at e₁)) i
          | inl same ↦
              report-Orderly r {s = record s { gateway_busy = false }} (ground arith)
                (rw same at e₁)
        ]

module _ {D F : Type 0} ⦃a : Arith D⦄ ⦃f : Arith F⦄ ⦃w : Wire D⦄ ⦃c : Widen F D⦄
    (u : Setup D F) where
  start-Orderly :
      (v : Env D) (o : ArbitrageOpportunity F) {s : Exec D F}
      → Orderly u s
      → Orderly u (start u v o s).0
  unfolding start
  start-Orderly v o i = ground arith

  step-Orderly :
      (v : Env D) (e : Event D F) {s t : Exec D F}
      → Orderly u s
      → step u v e s ≡ some t
      → Orderly u t
  unfolding step
  step-Orderly v cleanup_started i e = start_initial_cleanup-Orderly v i e
  step-Orderly v (try_started o) i e =
      subst (Orderly u) (some-injective _ _ e) (start-Orderly v o i)
  step-Orderly v begun i e = begin-Orderly v i e
  step-Orderly v (called_back r) i e = callback-Orderly v r i e
  step-Orderly v (stream_report r) i e = report-Orderly v r i e
  step-Orderly v timed_out i e = ground arith
  step-Orderly v cleanup_waited i e = clear_initial_position-Orderly v i e
  step-Orderly v stopped i e = ground arith

  run-Orderly :
      (es : List (Env D × Event D F)) {s t : Exec D F}
      → Orderly u s
      → run u es s ≡ some t
      → Orderly u t
  unfolding run
  run-Orderly [] i e = subst (Orderly u) (some-injective _ _ e) i
  run-Orderly ((v, x) ∷ es) {s} i e =
      let (m, e₁, e₂) = >>=-eq-some (step u v x s) _ e in
      run-Orderly es (step-Orderly v x {s = s} {t = m} i e₁) e₂

  -- In any history the clean-up hands at most `max_initial_clear_orders` (an `unsigned`) orders to the
  -- gateway, and each of them turns an asset other than USDT and BNB into USDT.
  pub cleanup_orders_safe :
      (es : List (Env D × Event D F)) {t : Exec D F}
      → u.options.max_initial_clear_orders < 2 ^ 32
      → run u es fresh_exec ≡ some t
      → (clear_submissions t.log ≤ u.options.max_initial_clear_orders) × AllIntoUsdt u t.log
  unfolding fresh_exec
  cleanup_orders_safe es h e =
      let i = run-Orderly es (ground arith) e in (omega (arith, i.counted, i.limited), i.sold)

  -- In any history (with an `unsigned` limit on clean-up orders) every order that is handed to the
  -- gateway carries the text of a price and of a quantity that all filters of its own market admit.
  pub orders_placed :
      (es : List (Env D × Event D F)) {t : Exec D F}
      → u.options.max_initial_clear_orders < 2 ^ 32
      → run u es fresh_exec ≡ some t
      → AllPlaced u t.log
  unfolding fresh_exec
  orders_placed es h e = (run-Orderly es (ground arith) e).placed
