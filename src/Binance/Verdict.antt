-- ===== src/Binance/Verdict.antt =====
-- What `checked` and `parse_order` make of the reply to a submission (src/execution/binance_gateway.cpp).
use mathlib.Core.Path.{subst, sym}
use text.Mathlib.TextEquality.{eq_iff}
use single_exchange_triangul.Common.{
  ℕ, ◌≡◌, refl, ◌⊎◌, inl, inr, Bool, true, false, String, Option, none, some, List, arith, leb, ltb,
  Option-cases, ◌&&◌, ◌||◌, not,
}
use single_exchange_triangul.Common.Int.{pos, negsuc, ltb_ℤ}
use single_exchange_triangul.Decimal.{Arith}
use single_exchange_triangul.Executor.Defs.{ClientId, OrderRequest, OrderReport, rejected}
use single_exchange_triangul.Json.{Document, Parser, text_at}
use single_exchange_triangul.Binance.{
  World, Access, Gateway, Target, Stage, Failure, Reply, http_post, ok, err, thrown, request_error,
  tls_setup, dns_resolve, tcp_connect, tls_handshake, request_build, attempt, ◌>>=◌, stages,
  first_break, write_started, reply_code, same_ℤ, request, verdict, checked,
}
use single_exchange_triangul.Binance.Fills.{order_status}
use single_exchange_triangul.Binance.Accounts.{apply_report, note_order_id}
use single_exchange_triangul.Binance.Orders.{parse_order, note_order}
use single_exchange_triangul.Binance.Post.{Post, returns, >>=-Post, attempt_then}

-- A reply by which the exchange refuses an order for certain: not a server's error, neither of the
-- codes for an unknown outcome, and an HTTP error, an error code or the status REJECTED.
pub record Declined {J : Type 0} ⦃j : Document J⦄ (reply : Reply J) : Type 0 where
  pub no_server_error : leb 500 reply.status ≡ false
  pub known_outcome :
      (same_ℤ (reply_code reply) (negsuc 1005) || same_ℤ (reply_code reply) (negsuc 1006)) ≡ false
  pub refused :
      ((leb 200 reply.status && ltb reply.status 300) ≡ false)
      ⊎ (ltb_ℤ (reply_code reply) (pos 0) ≡ true)
      ⊎ ((body : J) × (reply.body ≡ some body) × (text_at body "status" ≡ some "REJECTED"))

pub order_status-rejected : (status : String) → order_status status ≡ rejected → status ≡ "REJECTED"
unfolding order_status
order_status-rejected status h = ground (arith, eq_iff status "REJECTED")

-- The stages of a request before anything of it is written.
abbrev pub before_write : Stage → Bool
before_write tls_setup = true
before_write dns_resolve = true
before_write tcp_connect = true
before_write tls_handshake = true
before_write request_build = true
before_write _ = false

-- The flag of `request` says where the request broke off.
pub first_break-write_started :
    (breaks : Stage → Bool) (linked : Bool) {stage : Stage}
    → first_break breaks (stages linked) ≡ some stage
    → write_started stage ≡ not (before_write stage)
unfolding first_break stages write_started
first_break-write_started breaks true h = ground arith
first_break-write_started breaks false h = ground arith

-- A refusal that is not marked as uncertain.
abbrev pub certain : Failure → Bool
certain (request_error stage uncertain) = not uncertain
certain thrown = false

pub apply_report-throws :
    {D : Type 0} ⦃a : Arith D⦄ (x : Access D) (q : OrderRequest) (r : OrderReport D) (s : Gateway D)
    (e : Failure)
    → (apply_report x q r s).0 ≡ err e
    → e ≡ thrown
unfolding apply_report
apply_report-throws x q r s e h = ground arith

module _ {J : Type 0} ⦃j : Document J⦄ where
  pub verdict-Declined :
      (reply : Reply J) (e : Failure)
      → verdict true reply ≡ err e
      → certain e ≡ true
      → Declined reply
  unfolding verdict reply_code
  verdict-Declined reply e h sure = elim (Option-cases reply.body) [
    | inl garbage ↦ record {
      no_server_error = ground arith;
      known_outcome = ground arith;
      refused = inl (ground arith);
    }
    | inr (body, json) ↦
        let bad : (not (leb 200 reply.status && ltb reply.status 300)
              || ltb_ℤ (reply_code reply) (pos 0))
            ≡ true =
          ground arith in
        record {
          no_server_error = ground arith;
          known_outcome = ground arith;
          refused = ground arith;
        }
  ]

  pub verdict-ok :
      (reply : Reply J) (order : J)
      → verdict true reply ≡ ok order
      → text_at order "status" ≡ some "REJECTED"
      → Declined reply
  unfolding verdict
  verdict-ok reply order h rejection = elim (Option-cases reply.body) [
    | inl garbage ↦ ground arith
    | inr (body, json) ↦ record {
      no_server_error = ground arith;
      known_outcome = ground arith;
      refused = inr (inr (order, ground arith, rejection));
    }
  ]

module _ {J D : Type 0} ⦃j : Document J⦄ where
  -- `checked` at a target of a submission, with `n` requests behind it.
  pub checked-outcome :
      (w : World J) (target : Target) {n : ℕ} {linked : Bool} (s : Gateway D)
      → s.requests ≡ n
      → s.connected ≡ linked
      → let trial = w.exchange n http_post target in
        let stopped = first_break trial.breaks (stages linked) in
        ((stage : Stage) × (stopped ≡ some stage)
          × ((checked w http_post target true s).0
              ≡ err (request_error stage (write_started stage))))
        ⊎ ((stopped ≡ none) × ((checked w http_post target true s).0 ≡ verdict true trial.reply))
  unfolding checked request ◌>>=◌
  checked-outcome w target {n} {linked} s e₁ e₂ =
      let trial = w.exchange n http_post target in
      elim (Option-cases (first_break trial.breaks (stages linked))) [
        | inl whole ↦ inr (whole, ground arith)
        | inr (stage, stops) ↦ inl (stage, stops, ground arith)
      ]

module _ {J D : Type 0} ⦃j : Document J⦄ ⦃p : Parser D⦄ ⦃a : Arith D⦄ where
  note_order-throws :
      (id : ClientId) (order : J) (s : Gateway D)
      → Post (λ _ _. Unit {0}) (λ e _. e ≡ thrown) (note_order id order s)
  unfolding note_order
  note_order-throws id order s = elim (Option-cases (j.field order "orderId")) [
    | inl missing ↦
        let out : note_order id order s ≡ (ok tt, s) = ground arith in
        subst (Post (λ _ _. Unit {0}) (λ e _. e ≡ thrown)) (sym out) (returns tt)
    | inr (entry, found) ↦
        let out : note_order id order s ≡ (attempt (j.integer entry) >>= note_order_id id) s =
          ground arith in
        subst (Post (λ _ _. Unit {0}) (λ e _. e ≡ thrown)) (sym out)
          (attempt_then _ _ _ (λ n e. returns tt) refl)
  ]

  pub parse_order-status :
      (q : OrderRequest) (order : J) (trades : Option (List J)) (s : Gateway D)
      → Post
          (λ r _.
            (status : String) × (text_at order "status" ≡ some status)
            × (r.status ≡ order_status status))
          (λ e _. e ≡ thrown)
          (parse_order q order trades s)
  unfolding parse_order
  parse_order-status q order trades s = >>=-Post {Q = λ _ _. Unit {0}} _ _ _ (returns tt) (λ r u _.
      attempt_then _ _ _
        (λ status e₁.
          attempt_then _ _ _
            (λ qty e₂.
              attempt_then _ _ _
                (λ quote e₃. >>=-Post _ _ _ (note_order-throws q.client_id order u) (λ noted t i.
                  >>=-Post {Q = λ _ _. Unit {0}} _ _ _ (returns tt)
                    (λ own v i. attempt_then _ _ _ (λ sums e₄. returns (status, e₁, refl)) refl)))
                refl)
            refl)
        refl)
