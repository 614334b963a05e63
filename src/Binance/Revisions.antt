-- ===== src/Binance/Revisions.antt =====
-- The revisions of the reports of `BinanceGateway` (src/execution/binance_gateway.cpp).
use mathlib.Core.Path.{ap}
use single_exchange_triangul.Common.{ℕ, String, ◌≡◌, refl, ◌⊎◌, inl, inr, Option, none, List}
use single_exchange_triangul.Decimal.{Arith}
use single_exchange_triangul.Executor.Defs.{
  unknown, OrderStatus, ClientId, OrderRequest, OrderReport,
}
use single_exchange_triangul.Json.{Document, Parser}
use single_exchange_triangul.Binance.{
  Result, request_error, thrown, World, Access, Gateway, Failure, Stage, ok, err,
}
use single_exchange_triangul.Binance.Accounts.{next_revision, count_revision}
use single_exchange_triangul.Binance.Counted.{
  Counted, query_now-Counted, submit_steps-Counted, cancel_steps-Counted,
}
use single_exchange_triangul.Binance.Tasks.{
  submit, query_order, cancel_order, fail_report, or_unknown, or_failed,
}
use single_exchange_triangul.Binance.Orders.{cancel_steps, submit_steps, query_now}
use single_exchange_triangul.Binance.Worker.{
  Task, submission, question, cancellation, request_of, perform,
}
use single_exchange_triangul.Binance.Post.{Post, returns, throws}

module _ {D : Type 0} where
  -- The revisions after a task on the order `id`, which counts one or two.
  pub data Numbered (id : ClientId) (m : List (ClientId × ℕ))
      : OrderReport D × Gateway D → Type 0 where
    once :
        {r : OrderReport D} {t : Gateway D}
        → r.client_id ≡ id
        → r.revision ≡ next_revision id m
        → t.revisions ≡ count_revision id m
        → Numbered id m (r, t)
    twice :
        {r : OrderReport D} {t : Gateway D}
        → r.client_id ≡ id
        → r.revision ≡ next_revision id (count_revision id m)
        → t.revisions ≡ count_revision id (count_revision id m)
        → Numbered id m (r, t)

  module _ ⦃a : Arith D⦄ where
    fail_report-Numbered :
        (q : OrderRequest) (status : OrderStatus) (why : Option String) (m : List (ClientId × ℕ))
        (t : Gateway D)
        → (t.revisions ≡ m) ⊎ (t.revisions ≡ count_revision q.client_id m)
        → Numbered q.client_id m (fail_report q status why t)
    unfolding fail_report
    fail_report-Numbered q status why m t (inl e) =
        once refl (ap (next_revision q.client_id) e) (ap (count_revision q.client_id) e)
    fail_report-Numbered q status why m t (inr e) =
        twice refl (ap (next_revision q.client_id) e) (ap (count_revision q.client_id) e)

    or_unknown-Numbered :
        (q : OrderRequest) (m : List (ClientId × ℕ))
        (r : Result Failure (OrderReport D) × Gateway D)
        → Post
            (Counted q.client_id m)
            (λ e t. (t.revisions ≡ m) ⊎ (t.revisions ≡ count_revision q.client_id m))
            r
        → Numbered q.client_id m (or_unknown q r)
    unfolding or_unknown
    or_unknown-Numbered q m (ok r, t) (returns (e, first, id_kept)) = once id_kept first e
    or_unknown-Numbered q m (err f, t) (throws e) = fail_report-Numbered q unknown none m t e

    or_failed-Numbered :
        (q : OrderRequest) (m : List (ClientId × ℕ))
        (r : Result (Stage × Failure) (OrderReport D) × Gateway D)
        → Post
            (Counted q.client_id m)
            (λ e t. (t.revisions ≡ m) ⊎ (t.revisions ≡ count_revision q.client_id m))
            r
        → Numbered q.client_id m (or_failed q r)
    unfolding or_failed
    or_failed-Numbered q m (ok r, t) (returns (e, first, id_kept)) = once id_kept first e
    or_failed-Numbered q m (err (stage, request_error at u), t) (throws e) =
        fail_report-Numbered q _ _ m t e
    or_failed-Numbered q m (err (stage, thrown), t) (throws e) = fail_report-Numbered q _ _ m t e

module _ {J D : Type 0} ⦃j : Document J⦄ ⦃p : Parser D⦄ ⦃a : Arith D⦄ where
  pub perform-Numbered :
      (x : Access D) (w : World J) (task : Task) (s : Gateway D)
      → Numbered (request_of task).client_id s.revisions (perform x w task s)
  unfolding perform submit query_order cancel_order
  perform-Numbered x w (submission q) s =
      or_failed-Numbered q s.revisions (submit_steps x w q s)
        (submit_steps-Counted x w q s.revisions s refl)
  perform-Numbered x w (question q) s =
      or_unknown-Numbered q s.revisions (query_now x w q s)
        (query_now-Counted x w q s.revisions s refl)
  perform-Numbered x w (cancellation q) s =
      or_unknown-Numbered q s.revisions (cancel_steps x w q s)
        (cancel_steps-Counted x w q s.revisions s refl)
