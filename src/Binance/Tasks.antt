-- ===== src/Binance/Tasks.antt =====
-- The tasks of `BinanceGateway` (src/execution/binance_gateway.cpp): the operations, with what
-- they report when something throws.
use single_exchange_triangul.Common.{String, Bool, true, false, Option, none, some, if◌then◌else◌}
use single_exchange_triangul.Decimal.{Arith}
use single_exchange_triangul.Executor.Defs.{
  OrderStatus, OrderRequest, OrderReport, rejected, unknown, empty_report,
}
use single_exchange_triangul.Json.{Document, Parser}
use single_exchange_triangul.Binance.{
  Result, ok, err, Failure, request_error, thrown, Stage, World, Access, Gateway, tls_setup,
  dns_resolve, tcp_connect, tls_handshake, request_build, http_write, http_read, response_parse,
  exchange_response, parameters, request_sign, in_request, response_decode, balance_update,
}
use single_exchange_triangul.Binance.Accounts.{next_revision, count_revision}
use single_exchange_triangul.Binance.Orders.{submit_steps, query_now, cancel_steps}

-- The text that a diagnostic object has under "stage".
abbrev pub stage_name : Stage → String
stage_name tls_setup = "tls_setup"
stage_name dns_resolve = "dns_resolve"
stage_name tcp_connect = "tcp_connect"
stage_name tls_handshake = "tls_handshake"
stage_name request_build = "request_build"
stage_name http_write = "http_write"
stage_name http_read = "http_read"
stage_name response_parse = "response_parse"
stage_name exchange_response = "exchange_response"
stage_name parameters = "parameters"
stage_name request_sign = "request_sign"
stage_name in_request = "request"
stage_name response_decode = "response_decode"
stage_name balance_update = "balance_update"

-- The test of `submit` on its variable `stage`.
abbrev pub before_request : Stage → Bool
before_request parameters = true
before_request request_sign = true
before_request _ = false

module _ {D : Type 0} ⦃a : Arith D⦄ where
  -- A report of a failure: it counts a revision and has no fill.
  unfoldable pub fail_report :
      OrderRequest → OrderStatus → Option String → Gateway D → OrderReport D × Gateway D
  unfolding next_revision count_revision
  fail_report q status failure s = (
    record empty_report {
      client_id = q.client_id;
      revision = next_revision q.client_id s.revisions;
      status = status;
      failure = failure;
    },
    record s { revisions = count_revision q.client_id s.revisions },
  )

  -- The handlers of `submit`; the first one is `failure_report`.
  unfoldable pub submit_failed :
      OrderRequest → Stage → Failure → Gateway D → OrderReport D × Gateway D
  unfolding fail_report
  submit_failed q stage (request_error at uncertain) s =
      fail_report q (if uncertain then unknown else rejected) (some (stage_name at)) s
  submit_failed q stage thrown s =
      fail_report q (if before_request stage then rejected else unknown) (some (stage_name stage)) s

  -- `catch (...)` of `query_order` and `cancel_order`.
  unfoldable pub or_unknown :
      OrderRequest → Result Failure (OrderReport D) × Gateway D → OrderReport D × Gateway D
  unfolding fail_report
  or_unknown q (ok report, t) = (report, t)
  or_unknown q (err e, t) = fail_report q unknown none t

  unfoldable pub or_failed :
      OrderRequest
      → Result (Stage × Failure) (OrderReport D) × Gateway D
      → OrderReport D × Gateway D
  unfolding submit_failed
  or_failed q (ok report, t) = (report, t)
  or_failed q (err (stage, e), t) = submit_failed q stage e t

module _ {J D : Type 0} ⦃j : Document J⦄ ⦃p : Parser D⦄ ⦃a : Arith D⦄ where
  -- The tasks that the operations put in the queue.
  unfoldable pub submit : Access D → World J → OrderRequest → Gateway D → OrderReport D × Gateway D
  unfolding submit_steps or_failed
  submit x w q s = or_failed q (submit_steps x w q s)

  unfoldable pub query_order :
      Access D → World J → OrderRequest → Gateway D → OrderReport D × Gateway D
  unfolding query_now or_unknown
  query_order x w q s = or_unknown q (query_now x w q s)

  unfoldable pub cancel_order :
      Access D → World J → OrderRequest → Gateway D → OrderReport D × Gateway D
  unfolding cancel_steps or_unknown
  cancel_order x w q s = or_unknown q (cancel_steps x w q s)
