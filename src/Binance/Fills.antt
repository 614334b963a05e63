-- ===== src/Binance/Fills.antt =====
-- What `BinanceGateway` (src/execution/binance_gateway.cpp) reads of a reply about an order.
use text.Mathlib.Text.{◌==◌ as str_eq}
use single_exchange_triangul.Common.{
  String, ◌||◌, Option, some, List, [], ◌∷◌, if◌then◌else◌, ◌>>=◌,
}
use single_exchange_triangul.Common.Int.{ℤ}
use single_exchange_triangul.Common.Dict.{Dict}
use single_exchange_triangul.Decimal.{Arith}
use single_exchange_triangul.Executor.Defs.{
  OrderStatus, opened, partially_filled, filled, canceled, expired, rejected, unknown,
}
use single_exchange_triangul.Executor.Cycle.{add_to}
use single_exchange_triangul.Json.{Document, Parser, text_at, integer_at, json_decimal}
use single_exchange_triangul.Binance.{same_ℤ}

unfoldable pub order_status : String → OrderStatus
order_status status =
    if str_eq status "NEW" || str_eq status "PENDING_NEW"
    then opened
    else if str_eq status "PARTIALLY_FILLED"
    then partially_filled
    else if str_eq status "FILLED"
    then filled
    else if str_eq status "CANCELED" || str_eq status "PENDING_CANCEL"
    then canceled
    else if str_eq status "EXPIRED" || str_eq status "EXPIRED_IN_MATCH"
    then expired
    else if str_eq status "REJECTED"
    then rejected
    else unknown

module _ {J D : Type 0} ⦃j : Document J⦄ ⦃p : Parser D⦄ ⦃a : Arith D⦄ where
  -- What the fills of an order sum up to: the quantity, and `report.commissions`.
  unfoldable pub add_fill : J → D × Dict D → Option (D × Dict D)
  unfolding json_decimal text_at add_to
  add_fill fill (total, commissions) = do
    qty ← json_decimal fill "qty"
    commission ← json_decimal fill "commission"
    asset ← text_at fill "commissionAsset"
    some (a.plus total qty, add_to asset commission commissions)

  unfoldable pub add_fills : List J → D × Dict D → Option (D × Dict D)
  unfolding add_fill
  add_fills [] sums = some sums
  add_fills (fill ∷ fills) sums = do more ← add_fill fill sums; add_fills fills more

  -- The loop over the account's trades, of which those of the order `own` count.
  unfoldable pub add_trades : Option ℤ → List J → D × Dict D → Option (D × Dict D)
  unfolding add_fill integer_at
  add_trades own [] sums = some sums
  add_trades own (trade ∷ trades) sums = do
    id ← integer_at trade "orderId"
    number ← own
    more ← if same_ℤ id number then add_fill trade sums else some sums
    add_trades own trades more
