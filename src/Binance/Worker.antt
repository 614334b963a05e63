-- ===== src/Binance/Worker.antt =====
-- The queue of `BinanceGateway` (src/execution/binance_gateway.cpp): the public methods put tasks in,
-- and the thread of `run` carries them out. Each critical section is one step, and so is a task.
use single_exchange_triangul.Common.{
  Bool, true, false, not, Option, none, some, List, [], ◌∷◌, ◌++◌, if◌then◌else◌,
}
use single_exchange_triangul.Decimal.{Arith}
use single_exchange_triangul.Executor.Defs.{OrderRequest, OrderReport}
use single_exchange_triangul.Json.{Document, Parser}
use single_exchange_triangul.Binance.{World, Access, Gateway, Result, ok, err, Failure}
use single_exchange_triangul.Binance.Orders.{refresh_balances}
use single_exchange_triangul.Binance.Accounts.{value_or}
use single_exchange_triangul.Binance.Tasks.{submit, query_order, cancel_order}

pub data Task : Type 0 where
  submission question cancellation : OrderRequest → Task

abbrev pub request_of : Task → OrderRequest
request_of (submission q) = q
request_of (question q) = q
request_of (cancellation q) = q

-- `posted` is what `deliver` has posted to the other thread, the last report first; `dropped` tells that
-- the BinanceGateway is gone, so that no method is called any more.
pub record Worker (D : Type 0) : Type 0 where
  pub gateway : Gateway D
  pub queue : List Task
  pub stopping : Bool
  pub dropped : Bool
  pub returned : Bool
  pub posted : List (Task × OrderReport D)

-- A call of a public method, a round of the loop of `run`, and the end of the BinanceGateway.
pub data WorkerEvent : Type 0 where
  called : Task → WorkerEvent
  round : WorkerEvent
  destroyed : WorkerEvent

-- `enqueue`: `none` is its exception.
unfoldable pub enqueue : {D : Type 0} → Task → Worker D → Option (Worker D)
enqueue task k = if k.stopping then none else some (record k { queue = k.queue ++ task ∷ [] })

-- The members before the constructor.
abbrev pub blank : {D : Type 0} → Gateway D
blank = record {
  connected = false;
  wallet = [];
  revisions = [];
  order_ids = [];
  accounted_reports = [];
  signed = 0;
  requests = 0;
}

abbrev pub opened_worker : {D : Type 0} → Result Failure (Unit {0}) × Gateway D → Option (Worker D)
opened_worker (err e, s) = none
opened_worker (ok _, s) = some (record {
  gateway = s;
  queue = [];
  stopping = false;
  dropped = false;
  returned = false;
  posted = [];
})

module _ {J D : Type 0} ⦃j : Document J⦄ ⦃p : Parser D⦄ ⦃a : Arith D⦄ where
  unfoldable pub perform : Access D → World J → Task → Gateway D → OrderReport D × Gateway D
  unfolding submit query_order cancel_order
  perform x w (submission q) s = submit x w q s
  perform x w (question q) s = query_order x w q s
  perform x w (cancellation q) s = cancel_order x w q s

  -- The constructor with its configuration `live`: `none` is its exception. That it reads the two
  -- files of credentials is not modelled.
  unfoldable pub open_worker : Bool → Access D → World J → Option (Worker D)
  unfolding refresh_balances
  open_worker live x w = if not live then none else opened_worker (refresh_balances x w blank)

  -- The thread waits where the queue is empty, until it is stopped.
  unfoldable pub work : Access D → World J → Worker D → Worker D
  unfolding perform
  work x w k = if k.returned then k else elim k.queue [
    | [] ↦ if k.stopping then record k { returned = true } else k
    | task ∷ rest ↦ record k {
      gateway = (perform x w task k.gateway).1;
      queue = rest;
      posted = (task, (perform x w task k.gateway).0) ∷ k.posted;
    }
  ]

  -- Each queued task holds the implementation, whose destructor, which stops the thread, therefore
  -- runs with the BinanceGateway only where no task is queued. Else the thread drops the last task; that
  -- its destructor then joins the thread itself is not modelled.
  unfoldable pub step : Access D → World J → WorkerEvent → Worker D → Worker D
  unfolding enqueue work
  step x w (called task) k = if k.dropped then k else value_or k (enqueue task k)
  step x w round k = work x w k
  step x w destroyed k = elim k.queue [
    | [] ↦ record k { dropped = true; stopping = true }
    | _ ∷ _ ↦ record k { dropped = true }
  ]

  unfoldable pub run : Access D → World J → List WorkerEvent → Worker D → Worker D
  unfolding step
  run x w [] k = k
  run x w (e ∷ es) k = run x w es (step x w e k)
