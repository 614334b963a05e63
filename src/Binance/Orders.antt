-- ===== src/Binance/Orders.antt =====
-- The operations of `BinanceGateway` (src/execution/binance_gateway.cpp).
use single_exchange_triangul.Common.{
  Bool, true, false, Option, none, some, List, [], ◌∷◌, if◌then◌else◌, get_elem?,
  ◌>>=◌ as option_bind,
}
use single_exchange_triangul.Common.Int.{ℤ}
use single_exchange_triangul.Common.Dict.{Dict, insert}
use single_exchange_triangul.Decimal.{Arith}
use single_exchange_triangul.Trading.{Market}
use single_exchange_triangul.Executor.Defs.{ClientId, OrderRequest, OrderReport}
use single_exchange_triangul.Json.{Document, Parser, text_at, integer_at, json_decimal}
use single_exchange_triangul.Binance.{
  Action, Result, ok, err, Failure, Stage, Value, World, Access, Gateway, ◌>>=◌, return, attempt,
  checked, signed_target, http_get, http_post, http_delete, word, digits, order_name, whole_number,
  parameters, request_sign, in_request, response_decode, balance_update,
}
use single_exchange_triangul.Binance.Accounts.{
  count_revision, take_revision, note_order_id, known_order_id, apply_report,
}
use single_exchange_triangul.Binance.Fills.{order_status, add_fills, add_trades}

-- The parameters that name an order.
abbrev pub named : {D : Type 0} → Market D → OrderRequest → Dict Value
named m q = ("symbol", word m.symbol) ∷ ("origClientOrderId", order_name q.client_id) ∷ []

-- The parameters of a submission.
unfoldable pub order_parameters : {D : Type 0} → Market D → OrderRequest → Dict Value
order_parameters m q =
    ("symbol", word m.symbol)
    ∷ ("side", word (if q.buy then "BUY" else "SELL"))
    ∷ ("type", word "LIMIT")
    ∷ ("timeInForce", word (if q.initial_clear then "IOC" else "FOK"))
    ∷ ("quantity", digits q.quantity)
    ∷ ("price", digits q.price)
    ∷ ("newClientOrderId", order_name q.client_id)
    ∷ ("newOrderRespType", word "FULL")
    ∷ []

abbrev pub at_stage :
    {D A : Type 0} → Stage → Result Failure A × Gateway D → Result (Stage × Failure) A × Gateway D
at_stage stage (ok r, s) = (ok r, s)
at_stage stage (err e, s) = (err (stage, e), s)

-- The exception of a step, with the stage that `submit` had noted before it.
unfoldable pub during : {D A : Type 0} → Stage → Action Failure D A → Action (Stage × Failure) D A
during stage m s = at_stage stage (m s)

module _ {J D : Type 0} ⦃j : Document J⦄ where
  unfoldable pub note_order : ClientId → J → Action Failure D (Unit {0})
  note_order id order = elim (j.field order "orderId") [
    | none ↦ return tt
    | some entry ↦ attempt (j.integer entry) >>= note_order_id id
  ]

  -- The trades of the account in the market, for an order that the exchange calls `id`.
  unfoldable pub fetch_trades : Access D → World J → Market D → ℤ → Action Failure D (List J)
  unfolding signed_target checked
  fetch_trades x w m id = do
    target ←
        signed_target x w "/api/v3/myTrades"
          (("symbol", word m.symbol) ∷ ("orderId", whole_number id) ∷ ("limit", word "1000") ∷ [])
    found ← checked w http_get target false
    return (j.elements found)

module _ {J D : Type 0} ⦃j : Document J⦄ ⦃p : Parser D⦄ ⦃a : Arith D⦄ where
  -- The quantity, the commissions and the flag `accounting_complete` by which `parse_order` ends.
  unfoldable pub sum_fills : Option ℤ → J → Option (List J) → D → Option (Dict D × Bool)
  unfolding add_fills add_trades
  sum_fills own order trades filled_qty = elim trades [
    | some ts ↦
        option_bind (add_trades own ts (a.nought, []))
          (λ sums. some (sums.1, a.eq sums.0 filled_qty))
    | none ↦ elim (j.field order "fills") [
      | some fills ↦
          option_bind (add_fills (j.elements fills) (a.nought, []))
            (λ sums. some (sums.1, a.eq sums.0 filled_qty))
      | none ↦ some ([], a.eq filled_qty a.nought)
    ]
  ]

  unfoldable pub parse_order : OrderRequest → J → Option (List J) → Action Failure D (OrderReport D)
  unfolding count_revision text_at json_decimal order_status note_order sum_fills
  parse_order q order trades = do
    revision ← take_revision q.client_id
    status ← attempt (text_at order "status")
    filled_qty ← attempt (json_decimal order "executedQty")
    filled_quote ← attempt (json_decimal order "cummulativeQuoteQty")
    noted ← note_order q.client_id order
    own ← known_order_id q.client_id
    sums ← attempt (sum_fills own order trades filled_qty)
    return (record {
      client_id = q.client_id;
      revision = revision;
      status = order_status status;
      filled_qty = filled_qty;
      filled_quote = filled_quote;
      commissions = sums.0;
      accounting_complete = sums.1;
      failure = none;
    })

  unfoldable pub query_now : Access D → World J → OrderRequest → Action Failure D (OrderReport D)
  unfolding checked signed_target parse_order apply_report json_decimal integer_at fetch_trades
  query_now x w q = do
    m ← attempt (get_elem? x.markets q.symbol_index)
    target ← signed_target x w "/api/v3/order" (named m q)
    order ← checked w http_get target false
    id ← attempt (integer_at order "orderId")
    noted ← note_order_id q.client_id id
    executed ← attempt (json_decimal order "executedQty")
    trades ← if a.lt a.nought executed then fetch_trades x w m id else return []
    report ← parse_order q order (some trades)
    applied ← apply_report x q report
    return report

  -- The body of the `try` in `submit`.
  unfoldable pub submit_steps :
      Access D → World J → OrderRequest → Action (Stage × Failure) D (OrderReport D)
  unfolding checked signed_target parse_order apply_report order_parameters
  submit_steps x w q = do
    m ← during parameters (attempt (get_elem? x.markets q.symbol_index))
    target ← during request_sign (signed_target x w "/api/v3/order" (order_parameters m q))
    order ← during in_request (checked w http_post target true)
    report ← during response_decode (parse_order q order none)
    applied ← during balance_update (apply_report x q report)
    return report

  -- The body of the `try` in `cancel_order`.
  unfoldable pub cancel_steps : Access D → World J → OrderRequest → Action Failure D (OrderReport D)
  unfolding checked signed_target query_now
  cancel_steps x w q = do
    m ← attempt (get_elem? x.markets q.symbol_index)
    target ← signed_target x w "/api/v3/order" (named m q)
    gone ← checked w http_delete target false
    query_now x w q

  -- `refresh_balances`.
  unfoldable pub free_balances : List J → Dict D → Option (Dict D)
  unfolding text_at json_decimal
  free_balances [] latest = some latest
  free_balances (balance ∷ rest) latest = option_bind (json_decimal balance "free") (λ amount.
      option_bind (text_at balance "asset")
        (λ asset. free_balances rest (insert asset amount latest)))

  unfoldable pub refresh_balances : Access D → World J → Action Failure D (Unit {0})
  unfolding checked signed_target free_balances
  refresh_balances x w = do
    target ← signed_target x w "/api/v3/account" (("omitZeroBalances", word "true") ∷ [])
    account ← checked w http_get target false
    balances ← attempt (j.field account "balances")
    latest ← attempt (free_balances (j.elements balances) [])
    λ s. (ok tt, record s { wallet = latest })
