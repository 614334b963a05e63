-- ===== src/Binance/Outcomes.antt =====
-- What a report of `submit` says about the exchange (src/execution/binance_gateway.cpp).
use mathlib.Core.Path.{subst, sym, ap, ◌∙◌}
use single_exchange_triangul.Common.{
  ◌≡◌, ◌≢◌, ◌⊎◌, refl, inl, inr, true, false, Bool-cases, none, some, arith, get_elem?,
  if◌then◌else◌,
}
use single_exchange_triangul.Decimal.{Arith}
use single_exchange_triangul.Trading.{Market}
use single_exchange_triangul.Executor.Defs.{
  OrderRequest, OrderReport, OrderStatus, rejected, unknown,
}
use single_exchange_triangul.Json.{Document, Parser, text_at}
use single_exchange_triangul.Binance.{
  World, Access, Gateway, Target, Stage, Failure, Result, http_post, ok, err, thrown, request_error,
  stages, first_break, checked, signed_target, request_sign, in_request,
}
use single_exchange_triangul.Binance.Orders.{submit_steps, order_parameters}
use single_exchange_triangul.Binance.Tasks.{
  before_request, submit, or_failed, submit_failed, fail_report,
}
use single_exchange_triangul.Binance.Verdict.{
  before_write, first_break-write_started, Declined, verdict-Declined, verdict-ok, checked-outcome,
  parse_order-status, order_status-rejected, apply_report-throws,
}
use single_exchange_triangul.Binance.Post.{
  Post, returns, throws, >>=-Post, weaken, attempt-Post, both-Post, during-Post,
}

module _ {J D : Type 0} where
  -- The target by which `submit` asks for the order.
  pub record Sent (x : Access D) (w : World J) (q : OrderRequest) (s : Gateway D) (target : Target)
      : Type 0 where
    pub market : Market D
    pub found : get_elem? x.markets q.symbol_index ≡ some market
    pub signs : (signed_target x w "/api/v3/order" (order_parameters market q) s).0 ≡ ok target

  -- The ways in which no order comes into the market.
  pub data NotPlaced ⦃j : Document J⦄ (x : Access D) (w : World J) (q : OrderRequest)
      (s : Gateway D) : Type 0 where
    no_market : get_elem? x.markets q.symbol_index ≡ none → NotPlaced x w q s
    unsigned :
        (market : Market D)
        → (signed_target x w "/api/v3/order" (order_parameters market q) s).0 ≡ err thrown
        → NotPlaced x w q s
    unwritten :
        (target : Target) (stage : Stage)
        → Sent x w q s target
        → first_break (w.exchange s.requests http_post target).breaks (stages s.connected)
          ≡ some stage
        → before_write stage ≡ true
        → NotPlaced x w q s
    declined :
        (target : Target)
        → Sent x w q s target
        → first_break (w.exchange s.requests http_post target).breaks (stages s.connected) ≡ none
        → Declined (w.exchange s.requests http_post target).reply
        → NotPlaced x w q s

rejected-cases : (status : OrderStatus) → (status ≡ rejected) ⊎ (status ≢ rejected)
rejected-cases rejected = inl refl
rejected-cases _ = inr (λ e. cc)

-- The status by which the handlers of `submit` report an exception.
abbrev pub status_of : Stage × Failure → OrderStatus
status_of (stage, request_error at uncertain) = if uncertain then unknown else rejected
status_of (stage, thrown) = if before_request stage then rejected else unknown

module _ {J D : Type 0} ⦃j : Document J⦄ ⦃p : Parser D⦄ ⦃a : Arith D⦄ where
  -- `R` of `submit_steps`: an exception that its handler reports as Rejected.
  abbrev Blameless :
      Access D → World J → OrderRequest → Gateway D → Stage × Failure → Gateway D → Type 0
  Blameless x w q s e _ = status_of e ≡ rejected → NotPlaced x w q s

  signed_target-Sent :
      (x : Access D) (w : World J) (q : OrderRequest) (m : Market D) (s t : Gateway D)
      → get_elem? x.markets q.symbol_index ≡ some m
      → t ≡ s
      → Post
          (λ target u.
            Sent x w q s target × (u.requests ≡ s.requests) × (u.connected ≡ s.connected))
          (λ e. Blameless x w q s (request_sign, e))
          (signed_target x w "/api/v3/order" (order_parameters m q) t)
  unfolding signed_target
  signed_target-Sent x w q m s t found at_start =
      both-Post _
        (λ target e. (
          record {
            market = m;
            found = found;
            signs =
                subst
                  (λ g. (signed_target x w "/api/v3/order" (order_parameters m q) g).0 ≡ ok target)
                  at_start e;
          },
          ground arith,
          ground arith,
        ))
        (λ f e at. unsigned m (ground arith))

  checked-NotPlaced :
      (x : Access D) (w : World J) (q : OrderRequest) (target : Target) (s u : Gateway D)
      → Sent x w q s target
      → u.requests ≡ s.requests
      → u.connected ≡ s.connected
      → Post
          (λ order _. text_at order "status" ≡ some "REJECTED" → NotPlaced x w q s)
          (λ e. Blameless x w q s (in_request, e))
          (checked w http_post target true u)
  checked-NotPlaced x w q target s u sent counted linked =
      let trial = w.exchange s.requests http_post target in
      both-Post _
        (λ order e said. elim (checked-outcome w target u counted linked) [
          | inl (stage, stops, out) ↦ ground arith
          | inr (whole, out) ↦
              declined target sent whole (verdict-ok trial.reply order (sym out ∙ e) said)
        ])
        (λ f e at. elim (checked-outcome w target u counted linked) [
          | inl (stage, stops, out) ↦
              unwritten target stage sent stops
                (ground (arith, first_break-write_started trial.breaks s.connected stops))
          | inr (whole, out) ↦
              declined target sent whole
                (verdict-Declined trial.reply f (sym out ∙ e) (ground arith))
        ])

  submit_steps-Blameless :
      (x : Access D) (w : World J) (q : OrderRequest) (s : Gateway D)
      → Post
          (λ r _. r.status ≡ rejected → NotPlaced x w q s)
          (Blameless x w q s)
          (submit_steps x w q s)
  unfolding submit_steps
  submit_steps-Blameless x w q s =
      >>=-Post {Q = λ m t. (get_elem? x.markets q.symbol_index ≡ some m) × (t ≡ s)} _ _ _
        (during-Post _ _ _ (attempt-Post _ s (λ m e. (e, refl)) (λ e at. no_market e)))
        (λ m t (found, at_start).
          >>=-Post
            {Q = λ target u.
              Sent x w q s target × (u.requests ≡ s.requests) × (u.connected ≡ s.connected)}
            _ _ _ (during-Post _ _ _ (signed_target-Sent x w q m s t found at_start))
            (λ target u (sent, counted, linked).
              >>=-Post {Q = λ order _. text_at order "status" ≡ some "REJECTED" → NotPlaced x w q s}
                _ _ _ (during-Post _ _ _ (checked-NotPlaced x w q target s u sent counted linked))
                (λ order v ready.
                  >>=-Post {Q = λ r _. r.status ≡ rejected → NotPlaced x w q s} _ _ _
                    (during-Post _ _ _ (
                      weaken _ (parse_order-status q order none v)
                        (λ r z (status, at, said) e.
                          ready (at ∙ ap some (order_status-rejected status (sym said ∙ e))))
                        (λ f z e at. ground arith)))
                    (λ r z ready'.
                      >>=-Post {Q = λ _ _. Unit {0}} _ _ _
                        (during-Post _ _ _ (
                          both-Post _ (λ a e. tt)
                            (λ f e at. ground (arith, apply_report-throws x q r z f e))))
                        (λ _ _ _. returns ready')))))

  -- What becomes of an order: it is reported Rejected and has not come into the market; or it is not
  -- reported Rejected, and where something has failed it is reported Unknown.
  abbrev pub Verdict : Access D → World J → OrderRequest → Gateway D → OrderReport D → Type 0
  Verdict x w q s report =
      ((report.status ≡ rejected) × NotPlaced x w q s)
      ⊎ ((report.status ≢ rejected)
          × ((report.status ≡ unknown)
              ⊎ ((t : Gateway D) × (submit_steps x w q s ≡ (ok report, t)))))

  -- `submit` reports Rejected only where no order can have come into the market: nothing was sent,
  -- the request broke off before its writing began, or the exchange's reply refuses the order. Every
  -- other report is Unknown, or that of steps none of which failed.
  pub submit-rejected :
      (x : Access D) (w : World J) (q : OrderRequest) (s : Gateway D)
      → Verdict x w q s (submit x w q s).0
  unfolding submit or_failed submit_failed fail_report
  submit-rejected x w q s = go (submit_steps x w q s) refl (submit_steps-Blameless x w q s)
    where
      go :
          (r : Result (Stage × Failure) (OrderReport D) × Gateway D)
          → submit_steps x w q s ≡ r
          → Post (λ r _. r.status ≡ rejected → NotPlaced x w q s) (Blameless x w q s) r
          → Verdict x w q s (or_failed q r).0
      go (ok r, t) same (returns h) = elim (rejected-cases r.status) [
        | inl refused ↦ inl (refused, h refused)
        | inr other ↦ inr (other, inr (t, same))
      ]
      go (err (stage, request_error at true), t) same (throws h) = inr (λ e. cc, inl refl)
      go (err (stage, request_error at false), t) same (throws h) = inl (refl, h refl)
      go (err (stage, thrown), t) same (throws h) = elim (Bool-cases (before_request stage)) [
        | inl early ↦ inl (ground arith, h (ground arith))
        | inr sent ↦ inr (λ e. ground arith, inl (ground arith))
      ]
