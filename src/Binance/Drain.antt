-- ===== src/Binance/Drain.antt =====
-- The tasks of `BinanceGateway` (src/execution/binance_gateway.cpp): in which order they are done.
use mathlib.Core.Path.{◌∙◌, ap, subst, sym}
use single_exchange_triangul.Common.{
  some, ◌≡◌, refl, inl, inr, Bool, true, false, List, [], ◌∷◌, ◌++◌, arith, Bool-cases, append_nil,
  append_assoc, if◌then◌else◌,
}
use single_exchange_triangul.Decimal.{Arith}
use single_exchange_triangul.Executor.Defs.{OrderReport}
use single_exchange_triangul.Json.{Document, Parser}
use single_exchange_triangul.Binance.{World, Access}
use single_exchange_triangul.Binance.Worker.{
  Task, Worker, WorkerEvent, called, round, destroyed, run, step, work, enqueue, perform,
  open_worker, blank,
}
use single_exchange_triangul.Binance.Orders.{refresh_balances}
use single_exchange_triangul.Binance.Reports.{opened_worker-Idle}

-- The tasks of the calls while the gateway is there.
abbrev pub accepted : List WorkerEvent → List Task
accepted [] = []
accepted (called task ∷ es) = task ∷ accepted es
accepted (round ∷ es) = accepted es
accepted (destroyed ∷ es) = []

-- The tasks that have been reported, the first one first.
abbrev pub handled : {D : Type 0} → List (Task × OrderReport D) → List Task
handled [] = []
handled ((task, r) ∷ older) = handled older ++ task ∷ []

-- All tasks that the queue has taken.
abbrev taken : {D : Type 0} → Worker D → List Task
taken k = handled k.posted ++ k.queue

-- Only the destructor stops the thread.
abbrev Orderly : {D : Type 0} → Worker D → Type 0
Orderly k = k.stopping ≡ true → k.dropped ≡ true

-- One round.
record Rounds {D : Type 0} (k k' : Worker D) : Type 0 where
  same_tasks : taken k' ≡ taken k
  same_stop : k'.dropped ≡ k.dropped
  orderly : Orderly k → Orderly k'

-- The tasks that a queue has taken after the events `es`.
abbrev later : {D : Type 0} → Worker D → List WorkerEvent → List Task
later k es = taken k ++ (if k.dropped then [] else accepted es)

module _ {J D : Type 0} ⦃j : Document J⦄ ⦃p : Parser D⦄ ⦃a : Arith D⦄ where
  work-does :
      (x : Access D) (w : World J) (k : Worker D) {task : Task} {rest : List Task}
      → k.returned ≡ false
      → k.queue ≡ task ∷ rest
      → work x w k ≡ record k {
        gateway = (perform x w task k.gateway).1;
        queue = rest;
        posted = (task, (perform x w task k.gateway).0) ∷ k.posted;
      }
  unfolding work
  work-does x w k here e = ground arith

  work-Rounds : (x : Access D) (w : World J) (k : Worker D) → Rounds k (work x w k)
  unfolding work
  work-Rounds x w k = go k.queue refl
    where
      stay : work x w k ≡ k → Rounds k (work x w k)
      stay e =
          subst (Rounds k) (sym e)
            (record { same_tasks = refl; same_stop = refl; orderly = λ h. h })

      go_on : (queue : List Task) → k.queue ≡ queue → k.returned ≡ false → Rounds k (work x w k)
      go_on [] e here = elim (Bool-cases k.stopping) [
        | inl ends ↦
            let out : work x w k ≡ record k { returned = true } = ground arith in
            subst (Rounds k) (sym out)
              (record { same_tasks = refl; same_stop = refl; orderly = λ h. h })
        | inr waits ↦ stay (ground arith)
      ]
      go_on (task ∷ rest) e here =
          let after_round = append_assoc (handled k.posted) (task ∷ []) rest in
          subst (Rounds k) (sym (work-does x w k here e)) (record {
            same_tasks = after_round ∙ ap (λ q. handled k.posted ++ q) (sym e);
            same_stop = refl;
            orderly = λ h. h;
          })

      go : (queue : List Task) → k.queue ≡ queue → Rounds k (work x w k)
      go queue e = elim (Bool-cases k.returned) [
        | inl gone ↦ stay (ground arith)
        | inr here ↦ go_on queue e here
      ]

  step-later :
      (x : Access D) (w : World J) (e : WorkerEvent) (es : List WorkerEvent) (k : Worker D)
      → Orderly k
      → (later (step x w e k) es ≡ later k (e ∷ es)) × Orderly (step x w e k)
  unfolding step enqueue
  step-later x w (called task) es k o = elim (Bool-cases k.dropped) [
    | inl stops ↦ ground arith
    | inr runs ↦ (
      ground (
        arith,
        append_assoc (handled k.posted) k.queue (task ∷ []),
        append_assoc (taken k) (task ∷ []) (accepted es),
      ),
      ground arith,
    )
  ]
  step-later x w round es k o =
      let r = work-Rounds x w k in (ground (arith, r.same_tasks, r.same_stop), r.orderly o)
  step-later x w destroyed es k o = (ground arith, ground arith)

  run-later :
      (x : Access D) (w : World J) (es : List WorkerEvent) (k : Worker D)
      → Orderly k
      → (taken (run x w es k) ≡ later k es) × Orderly (run x w es k)
  unfolding run
  run-later x w [] k o = (ground (arith, append_nil (taken k)), o)
  run-later x w (e ∷ es) k o =
      let (same, o') = step-later x w e es k o in
      let (rest, o'') = run-later x w es (step x w e k) o' in (rest ∙ same, o'')

  module _ (live : Bool) (x : Access D) (w : World J) (es : List WorkerEvent) {k : Worker D} where
    opened-later : open_worker live x w ≡ some k → (later k es ≡ accepted es) × Orderly k
    unfolding open_worker
    opened-later h =
        let fresh = opened_worker-Idle (refresh_balances x w blank) k (ground arith) in
        ground (arith, fresh.none_queued, fresh.none_posted, fresh.running)

    -- Over any run of the gateway the tasks of the calls before it is destroyed are reported in the
    -- order of the calls, each once, and the ones not yet reported are in its queue.
    pub tasks_in_order :
        open_worker live x w ≡ some k
        → handled (run x w es k).posted ++ (run x w es k).queue ≡ accepted es
    tasks_in_order h = let (fresh, o) = opened-later h in (run-later x w es k o).0 ∙ fresh
