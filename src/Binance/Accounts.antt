-- ===== src/Binance/Accounts.antt =====
-- The accounts of `BinanceGateway` (src/execution/binance_gateway.cpp).
use single_exchange_triangul.Common.{
  ℕ, Bool, ◌||◌, Option, none, some, List, [], ◌∷◌, if◌then◌else◌, get_elem?, inc64,
}
use single_exchange_triangul.Common.Int.{ℤ}
use single_exchange_triangul.Common.Dict.{Dict, find_or}
use single_exchange_triangul.Decimal.{Arith}
use single_exchange_triangul.Trading.{Market}
use single_exchange_triangul.Executor.Defs.{
  ClientId, OrderRequest, OrderReport, same_id, empty_report,
}
use single_exchange_triangul.Executor.Cycle.{add_to, take_from}
use single_exchange_triangul.Binance.{Action, ok, err, Failure, thrown, Access}

-- The maps by client id.
module _ {V : Type 0} where
  unfoldable pub find_id : ClientId → List (ClientId × V) → Option V
  find_id id [] = none
  find_id id ((k, v) ∷ m) = if same_id k id then some v else find_id id m

  unfoldable pub put_id : ClientId → V → List (ClientId × V) → List (ClientId × V)
  put_id id v [] = (id, v) ∷ []
  put_id id v ((k, w) ∷ m) = if same_id k id then (k, v) ∷ m else (k, w) ∷ put_id id v m

-- `m[id]`, where a missing entry is `d`.
abbrev pub value_or : {V : Type 0} → V → Option V → V
value_or d none = d
value_or d (some v) = v

-- `++revisions[id]`: its value, and the map after it.
unfoldable pub next_revision : ClientId → List (ClientId × ℕ) → ℕ
unfolding find_id
next_revision id m = inc64 (value_or 0 (find_id id m))

unfoldable pub count_revision : ClientId → List (ClientId × ℕ) → List (ClientId × ℕ)
unfolding next_revision put_id
count_revision id m = put_id id (next_revision id m) m

module _ {D : Type 0} where
  abbrev pub take_revision : ClientId → Action Failure D ℕ
  take_revision id s =
      (ok (next_revision id s.revisions), record s { revisions = count_revision id s.revisions })

  abbrev pub note_order_id : ClientId → ℤ → Action Failure D (Unit {0})
  note_order_id id number s = (ok tt, record s { order_ids = put_id id number s.order_ids })

  abbrev pub known_order_id : ClientId → Action Failure D (Option ℤ)
  known_order_id id s = (ok (find_id id s.order_ids), s)

-- The loop over `report.commissions` in `apply_report`.
unfoldable pub charge_commissions : {D : Type 0} ⦃a : Arith D⦄ → Dict D → Dict D → Dict D → Dict D
unfolding take_from
charge_commissions previous [] wallet = wallet
charge_commissions ⦃a⦄ previous ((asset, commission) ∷ rest) wallet =
    charge_commissions previous rest
      (take_from asset (a.minus commission (find_or a.nought asset previous)) wallet)

-- What `apply_report` does to the wallet.
unfoldable pub settle_report :
    {D : Type 0} ⦃a : Arith D⦄ → Market D → Bool → OrderReport D → OrderReport D → Dict D → Dict D
unfolding add_to charge_commissions
settle_report ⦃a⦄ m buy previous report wallet =
    let filled_delta = a.minus report.filled_qty previous.filled_qty in
    let quote_delta = a.minus report.filled_quote previous.filled_quote in
    charge_commissions previous.commissions report.commissions (
      add_to m.quote (if buy then a.negate quote_delta else quote_delta)
        (add_to m.base (if buy then filled_delta else a.negate filled_delta) wallet))

module _ {D : Type 0} ⦃a : Arith D⦄ where
  unfoldable pub apply_report :
      Access D → OrderRequest → OrderReport D → Action Failure D (Unit {0})
  unfolding settle_report
  apply_report x q report s =
      let previous = value_or empty_report (find_id report.client_id s.accounted_reports) in
      let seen = record s {
        accounted_reports = put_id report.client_id previous s.accounted_reports;
      } in
      if a.lt report.filled_qty previous.filled_qty
        || a.lt report.filled_quote previous.filled_quote
      then (ok tt, seen)
      else elim (get_elem? x.markets q.symbol_index) [
        | none ↦ (err thrown, seen)
        | some m ↦ (
          ok tt,
          record s {
            wallet = settle_report m q.buy previous report s.wallet;
            accounted_reports = put_id report.client_id report s.accounted_reports;
          },
        )
      ]
