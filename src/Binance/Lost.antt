-- ===== src/Binance/Lost.antt =====
-- A submission that is lost on its way (src/execution/binance_gateway.cpp).
use mathlib.Core.Path.{subst, sym}
use single_exchange_triangul.Common.{false, ◌+◌, ℕ, ◌≡◌, refl, inl, inr, Bool, true, some, arith}
use single_exchange_triangul.Decimal.{Arith}
use single_exchange_triangul.Trading.{Market}
use single_exchange_triangul.Executor.Defs.{OrderRequest, OrderReport, unknown}
use single_exchange_triangul.Json.{Document, Parser}
use single_exchange_triangul.Binance.{
  World, Access, Gateway, Target, Stage, Failure, Result, http_post, ok, err, thrown, request_error,
  stages, first_break, checked, signed_target,
}
use single_exchange_triangul.Binance.Orders.{submit_steps, order_parameters}
use single_exchange_triangul.Binance.Tasks.{submit, or_failed, submit_failed, fail_report}
use single_exchange_triangul.Binance.Verdict.{
  before_write, first_break-write_started, checked-outcome,
}
use single_exchange_triangul.Binance.Post.{
  Post, returns, throws, >>=-Post, weaken, attempt-Post, both-Post, during-Post,
}
use single_exchange_triangul.Binance.Outcomes.{Sent, status_of}

module _ {J D : Type 0} where
  signed_target-keeps :
      (x : Access D) (w : World J) (q : OrderRequest) (m : Market D) (s : Gateway D)
      → (signed_target x w "/api/v3/order" (order_parameters m q) s).1
        ≡ record s { signed = s.signed + 1 }
  unfolding signed_target
  signed_target-keeps x w q m s = ground arith

  -- The steps before the request, where they reach it with `target`.
  signed_target-again :
      (x : Access D) (w : World J) (q : OrderRequest) {s : Gateway D} {target : Target}
      (sent : Sent x w q s target) {m : Market D} {t : Gateway D}
      → m ≡ sent.market
      → t ≡ s
      → Post
          (λ target' u.
            (target' ≡ target) × (u.requests ≡ s.requests) × (u.connected ≡ s.connected))
          (λ _ _. ⊥)
          (signed_target x w "/api/v3/order" (order_parameters m q) t)
  signed_target-again x w q {s} {target} sent {m} {t} market at_start =
      let answer = λ (n : Market D) (v : Gateway D).
        signed_target x w "/api/v3/order" (order_parameters n q) v in
      let first : (answer m s).0 ≡ ok target =
        subst (λ n. (answer n s).0 ≡ ok target) (sym market) sent.signs in
      let same : (answer m t).0 ≡ ok target =
        subst (λ v. (answer m v).0 ≡ ok target) (sym at_start) first in
      let kept = signed_target-keeps x w q m t in
      both-Post _ (λ target' e. (ground arith, ground arith, ground arith)) (λ f e. ground arith)

module _ {J D : Type 0} ⦃j : Document J⦄ where
  -- The request, where it breaks off once its writing had begun.
  checked-lost :
      (w : World J) {target target' : Target} {stage : Stage} {n : ℕ} {linked : Bool}
      (s : Gateway D)
      → target' ≡ target
      → s.requests ≡ n
      → s.connected ≡ linked
      → first_break (w.exchange n http_post target).breaks (stages linked) ≡ some stage
      → before_write stage ≡ false
      → (checked w http_post target' true s).0 ≡ err (request_error stage true)
  checked-lost w {target} {stage} {n} {linked} s same counted joined stops begun =
      subst (λ y. (checked w http_post y true s).0 ≡ err (request_error stage true)) (sym same)
        (elim (checked-outcome w target s counted joined) [
          | inl (stage', stops', out) ↦
              ground (
                arith,
                first_break-write_started (w.exchange n http_post target).breaks linked stops,
              )
          | inr (whole, out) ↦ ground arith
        ])

module _ {J D : Type 0} ⦃j : Document J⦄ ⦃p : Parser D⦄ ⦃a : Arith D⦄ where
  submit_steps-lost :
      (x : Access D) (w : World J) (q : OrderRequest) (s : Gateway D) (target : Target)
      (stage : Stage)
      → Sent x w q s target
      → first_break (w.exchange s.requests http_post target).breaks (stages s.connected)
        ≡ some stage
      → before_write stage ≡ false
      → Post (λ r _. r.status ≡ unknown) (λ e _. status_of e ≡ unknown) (submit_steps x w q s)
  unfolding submit_steps
  submit_steps-lost x w q s target stage sent stops begun =
      >>=-Post {Q = λ m t. (m ≡ sent.market) × (t ≡ s)} _ _ _
        (during-Post _ _ _ (
          attempt-Post _ s (λ m e. (ground (arith, sent.found), refl))
            (λ e. ground (arith, sent.found))))
        (λ m t (market, at_start).
          >>=-Post _ _ _
            (during-Post _ _ _ (
              weaken _ (signed_target-again x w q sent market at_start) (λ y u i. i)
                (λ f u never. absurd never)))
            (λ target' u (same, counted, linked).
              let lost = checked-lost w u same counted linked stops begun in
              >>=-Post {Q = λ _ _. ⊥} _ _ _
                (during-Post _ _ _ (both-Post _ (λ order e. ground arith) (λ f e. ground arith)))
                (λ _ _ never. absurd never)))

  -- An order whose request broke off once its writing had begun is reported Unknown.
  pub submit-lost :
      (x : Access D) (w : World J) (q : OrderRequest) (s : Gateway D) (target : Target)
      (stage : Stage)
      → Sent x w q s target
      → first_break (w.exchange s.requests http_post target).breaks (stages s.connected)
        ≡ some stage
      → before_write stage ≡ false
      → (submit x w q s).0.status ≡ unknown
  unfolding submit or_failed submit_failed fail_report
  submit-lost x w q s target stage sent stops begun =
      go (submit_steps x w q s) (submit_steps-lost x w q s target stage sent stops begun)
    where
      go :
          (r : Result (Stage × Failure) (OrderReport D) × Gateway D)
          → Post (λ r _. r.status ≡ unknown) (λ e _. status_of e ≡ unknown) r
          → (or_failed q r).0.status ≡ unknown
      go (ok r, t) (returns h) = h
      go (err (at_stage, request_error at uncertain), t) (throws h) = h
      go (err (at_stage, thrown), t) (throws h) = h
