-- ===== src/Binance/Tests.antt =====
-- Runs of the live gateway's model (src/execution/binance_gateway.cpp).
use single_exchange_triangul.Common.{
  ℕ, ◌≡◌, refl, Bool, true, false, some, List, [], ◌∷◌, ◌++◌, arith, if◌then◌else◌, ◌==◌,
}
use single_exchange_triangul.Common.Int.{ℤ, pos, negsuc}
use single_exchange_triangul.Common.Dict.{insert}
use single_exchange_triangul.Samples.{whole as integers, markets, market}
use single_exchange_triangul.Executor.Defs.{OrderRequest, startup, rejected, unknown}
use single_exchange_triangul.Json.Samples.{
  Json, word, whole, array, object, nil, cons, end, entry, json_document, digit_parser,
}
use single_exchange_triangul.Binance.{
  ◌>>=◌, attempt, word as word_value, digits, order_name, whole_number, signed_target, World,
  Access, Gateway, Method, Target, Trial, Stage, http_post, http_read, first_break, stages,
}
use single_exchange_triangul.Binance.Orders.{order_parameters, during}
use single_exchange_triangul.Binance.Tasks.{submit}
use single_exchange_triangul.Binance.Worker.{
  Worker, WorkerEvent, submission, question, called, round, open_worker, run, blank,
}
use single_exchange_triangul.Binance.Reports.{Ascending, reports-Ascending}
use single_exchange_triangul.Binance.Drain.{handled, accepted, tasks_in_order}
use single_exchange_triangul.Binance.Verdict.{before_write}
use single_exchange_triangul.Binance.Outcomes.{Sent, Verdict, submit-rejected}
use single_exchange_triangul.Binance.Lost.{submit-lost}

abbrev access : Access ℤ
access = record { markets = markets; secret_key = "secret" }

abbrev order : ℕ → OrderRequest
order number = record {
  client_id = record { cycle = startup 1; number = number };
  symbol_index = 0;
  buy = true;
  price = b'2' ∷ [];
  quantity = b'3' ∷ [];
  initial_clear = false;
}

abbrev account : Json
account = object (
    entry "balances"
      (array (cons (object (entry "asset" (word "USDT") (entry "free" (word "8") end))) nil)) end)

-- Three BTC for six USDT.
abbrev filled_order : Json
filled_order = object (
    entry "status" (word "FILLED") (
      entry "executedQty" (word "3") (
        entry "cummulativeQuoteQty" (word "6") (
          entry "orderId" (whole (pos 5)) (
            entry "fills"
              (array (
                cons
                  (object (
                    entry "qty" (word "3")
                      (entry "commission" (word "1") (entry "commissionAsset" (word "BTC") end))))
                  nil))
              end)))))

abbrev refusal : Json
refusal = object (entry "code" (whole (negsuc 2009)) end)

abbrev replies : ℕ → Json → Trial Json
replies status body = record {
  breaks = λ stage. false;
  reply = record { status = status; body = some body; keep_alive = true };
}

abbrev at_read : Stage → Bool
at_read http_read = true
at_read _ = false

-- The account; then one order that is filled, one whose reply is lost, and refusals.
abbrev exchange : ℕ → Method → Target → Trial Json
exchange n method target =
    if n == 0
    then replies 200 account
    else if n == 1
    then replies 200 filled_order
    else if n == 2
    then record (replies 200 refusal) { breaks = at_read }
    else replies 400 refusal

abbrev world : World Json
world = record {
  wall_time_us = λ n. 5000;
  hmac_sha256_hex = λ key query. some "f00";
  exchange = exchange;
}

abbrev events : List WorkerEvent
events =
    called (submission (order 1))
    ∷ round
    ∷ called (submission (order 2))
    ∷ called (question (order 1))
    ∷ round
    ∷ []

abbrev start : Worker ℤ
start = record {
  gateway = record (blank {D = ℤ}) {
    connected = true;
    wallet = ("USDT", pos 8) ∷ [];
    signed = 1;
    requests = 1;
  };
  queue = [];
  stopping = false;
  dropped = false;
  returned = false;
  posted = [];
}

opens : open_worker true access world ≡ some start
unfolding open_worker ◌>>=◌ attempt insert
opens = refl

reports-Ascending_example : Ascending (run access world events start).posted
reports-Ascending_example = reports-Ascending true access world events opens (omega arith)

tasks_in_order_example :
    handled (run access world events start).posted ++ (run access world events start).queue
    ≡ accepted events
tasks_in_order_example = tasks_in_order true access world events opens

-- After the three first tasks, a refused one.
abbrev before : Gateway ℤ
before = record (blank {D = ℤ}) { signed = 3; requests = 3 }

is_refused : (submit access world (order 3) before).0.status ≡ rejected
unfolding submit ◌>>=◌ during attempt
is_refused = refl

submit-rejected_example :
    Verdict access world (order 3) before (submit access world (order 3) before).0
submit-rejected_example = submit-rejected access world (order 3) before

abbrev middle : Gateway ℤ
middle = record (blank {D = ℤ}) { signed = 2; requests = 2 }

abbrev target : Target
target = record {
  path = "/api/v3/order";
  query =
      ("symbol", word_value "BTCUSDT")
      ∷ ("side", word_value "BUY")
      ∷ ("type", word_value "LIMIT")
      ∷ ("timeInForce", word_value "FOK")
      ∷ ("quantity", digits (b'3' ∷ []))
      ∷ ("price", digits (b'2' ∷ []))
      ∷ ("newClientOrderId", order_name (order 2).client_id)
      ∷ ("newOrderRespType", word_value "FULL")
      ∷ ("recvWindow", whole_number (pos 3000))
      ∷ ("timestamp", whole_number (pos 5))
      ∷ [];
  signature = "f00";
}

order_is_out : Sent access world (order 2) middle target
unfolding signed_target order_parameters
order_is_out = record { market = market "BTCUSDT" "BTC" "USDT"; found = refl; signs = refl }

breaks_off :
    first_break (world.exchange 2 http_post target).breaks (stages middle.connected)
    ≡ some http_read
unfolding first_break stages
breaks_off = refl

has_begun : before_write http_read ≡ false
has_begun = refl

submit-lost_example : (submit access world (order 2) middle).0.status ≡ unknown
submit-lost_example =
    submit-lost access world (order 2) middle target http_read order_is_out breaks_off has_begun
