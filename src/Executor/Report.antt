-- ===== src/Executor/Report.antt =====
-- What `ArbitrageExecutor` does with an order report (src/execution/execution.cpp): `report` and
-- `callback`. `none` is an exception of `at`.
use mathlib.Core.Path.{subst}
use mathlib.Core.Option.{some-injective}
use single_exchange_triangul.Common.{
  ◌≡◌, refl, ◌+◌, Bool, false, not, ◌&&◌, ◌||◌, Option, none, some, [], ◌∷◌, leb, ◌==◌,
  if◌then◌else◌, get_elem?, ◌>>=◌, is_some,
}
use single_exchange_triangul.Common.Dict.{Dict, insert, find_or}
use single_exchange_triangul.Decimal.{Arith, Wire, Widen}
use single_exchange_triangul.Trading.{Market}
use single_exchange_triangul.Executor.Defs.{
  OrderRequest, OrderReport, Setup, Env, Exec, idle, is_halted, is_unknown, is_filled, terminal,
  same_id, published, event, canceled_timeout, fail_cycle, give_up, first_leg_event,
}
use single_exchange_triangul.Executor.Cycle.{add_to, take_from, spends, fail_with, next_leg}
use single_exchange_triangul.Executor.Cleanup.{clear_initial_position}

-- Nothing happens unless an order is outstanding.
abbrev pub with_order :
    {D F : Type 0}
    → Option OrderRequest
    → Exec D F
    → (OrderRequest → Option (Exec D F))
    → Option (Exec D F)
with_order none s k = some s
with_order (some p) s k = k p

pub with_order_cases :
    {D F : Type 0} (P : Exec D F → Type 0) (o : Option OrderRequest) (s : Exec D F)
    (k : OrderRequest → Option (Exec D F)) {t : Exec D F}
    → with_order o s k ≡ some t
    → (o ≡ none → P s)
    → ((p : OrderRequest) → o ≡ some p → k p ≡ some t → P t)
    → P t
with_order_cases P none s k e h g = subst P (some-injective _ _ e) (h refl)
with_order_cases P (some p) s k e h g = g p refl e

module _ {D : Type 0} ⦃a : Arith D⦄ where
  -- `for (asset, commission) holdings[asset] -= commission - accounted.commissions[asset]`.
  unfoldable pub charge : Dict D → Dict D → Dict D → Dict D
  unfolding take_from
  charge [] before holdings = holdings
  charge ((asset, commission) ∷ rest) before holdings =
      charge rest before
        (take_from asset (a.minus commission (find_or a.nought asset before)) holdings)

  -- The holdings behind a report: its cumulative amounts less those accounted before.
  unfoldable pub book_fill : Market D → Bool → OrderReport D → OrderReport D → Dict D → Dict D
  unfolding add_to charge
  book_fill m buy value before holdings =
      let filled = a.minus value.filled_qty before.filled_qty in
      let quote = a.minus value.filled_quote before.filled_quote in
      charge value.commissions before.commissions (
        add_to m.quote (if buy then a.negate quote else quote)
          (add_to m.base (if buy then filled else a.negate filled) holdings))

  -- A cumulative amount fell, or more was filled than ordered.
  unfoldable pub invalid_fill : D → OrderReport D → OrderReport D → Bool
  invalid_fill limit value before =
      a.lt value.filled_qty before.filled_qty
      || a.lt limit value.filled_qty
      || a.lt value.filled_quote before.filled_quote

module _ {D F : Type 0} ⦃a : Arith D⦄ ⦃w : Wire D⦄ ⦃c : Widen F D⦄ where
  -- The order is over, and with the clearing of an asset its result is noted.
  unfoldable pub note_cleared : OrderRequest → OrderReport D → Market D → Exec D F → Exec D F
  note_cleared p value m s = record s {
    pending = none;
    cleanup_results =
        insert (spends m p.buy) (if a.lt a.nought value.filled_qty then "filled" else "not_filled")
          s.cleanup_results;
    log = event "startup_cleanup_order_report" ∷ canceled_timeout ∷ s.log;
  }

  -- The end of `report`, at a terminal status with complete accounting.
  unfoldable pub settle :
      Setup D F → Env D → OrderRequest → OrderReport D → Market D → Exec D F → Option (Exec D F)
  unfolding fail_with fail_cycle next_leg note_cleared clear_initial_position
  settle u v p value m s =
      let done = record s { pending = none } in
      let all = is_filled value.status && a.eq value.filled_qty (w.of_text p.quantity) in
      if p.initial_clear
      then clear_initial_position u v (note_cleared p value m s)
      else if not all
      then some (fail_with "Arbitrage leg did not fill completely" done)
      else if s.leg_number == 0
      then some (fail_cycle "First-leg response test stop" done)
      else next_leg u v (record done { leg_number = s.leg_number + 1 })

  -- The holdings, the accounted report and the log behind a report that is accepted.
  unfoldable pub account : OrderRequest → OrderReport D → Market D → Exec D F → Exec D F
  unfolding book_fill first_leg_event
  account p value m s = record s {
    holdings = book_fill m p.buy value s.accounted s.holdings;
    accounted = value;
    log = published ∷ first_leg_event "arbitrage_first_leg_report" p s s.log;
  }

  -- The slot of a timed-out cycle is free again.
  unfoldable pub release : Exec D F → Exec D F
  release s = record s {
    waiting_gateway = false;
    pending = none;
    state = idle;
    log = published ∷ s.log;
  }

  -- Behind the accounting.
  unfoldable pub conclude :
      Setup D F → Env D → OrderRequest → OrderReport D → Market D → Exec D F → Option (Exec D F)
  unfolding release terminal give_up settle
  conclude u v p value m s =
      if s.waiting_gateway
      then some (release s)
      else if not (terminal value.status)
      then some s
      else if not value.accounting_complete
      then some (give_up p "Incomplete fill accounting" s)
      else settle u v p value m s

  -- The members that `report` sets before it looks at the status.
  unfoldable pub note_report : Env D → OrderReport D → Exec D F → Exec D F
  note_report v value s = record s {
    previous_report_ns = v.clock 0;
    order_failure = if is_some value.failure then value.failure else s.order_failure;
    log = if is_some value.failure then event "execution_order_failed" ∷ s.log else s.log;
  }

  -- `report` behind its tests of the client id, the state and the revision.
  unfoldable pub accept_report :
      Setup D F → Env D → OrderRequest → OrderReport D → Exec D F → Option (Exec D F)
  unfolding give_up invalid_fill account conclude first_leg_event
  accept_report u v p value s =
      if is_unknown value.status
      then some (
          give_up p "Order outcome unknown"
            (record s { log = first_leg_event "arbitrage_first_leg_report" p s s.log }))
      else if invalid_fill (w.of_text p.quantity) value s.accounted
      then some (give_up p "Invalid cumulative fill" s)
      else get_elem? u.markets p.symbol_index
        >>= (λ m. conclude u v p value m (account p value m s))

  -- `!pending || value.client_id != pending->client_id || state == Halted`, and the revision's test.
  unfoldable pub ignored : OrderRequest → OrderReport D → Exec D F → Bool
  ignored p value s =
      not (same_id value.client_id p.client_id)
      || is_halted s.state
      || leb value.revision s.accounted.revision

  unfoldable pub report : Setup D F → Env D → OrderReport D → Exec D F → Option (Exec D F)
  unfolding ignored note_report accept_report
  report u v value s =
      with_order s.pending s
        λ p. if ignored p value s then some s else accept_report u v p value (note_report v value s)

  -- The function that `callback` returns.
  unfoldable pub callback : Setup D F → Env D → OrderReport D → Exec D F → Option (Exec D F)
  unfolding report
  callback u v value s = with_order s.pending s λ p.
      if same_id value.client_id p.client_id
      then report u v value (record s { gateway_busy = false })
      else some s
