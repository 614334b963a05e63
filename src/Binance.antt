-- ===== src/Binance.antt =====
-- `BinanceGateway` (src/execution/binance_gateway.cpp): what one call of the exchange does, from the
-- connection to the verdict on the reply. The network, the JSON parser and the HMAC are parameters.
pub mod Fills
pub mod Accounts
pub mod Orders
pub mod Tasks
pub mod Worker
pub mod Post
pub mod Counted
pub mod Revisions
pub mod Reports
pub mod Drain
pub mod Verdict
pub mod Outcomes
pub mod Lost
mod Tests
use single_exchange_triangul.Common.{
  ℕ, ◌+◌, ◌/◌, String, Bool, true, false, not, ◌&&◌, ◌||◌, Option, none, some, List, [], ◌∷◌, ◌++◌,
  if◌then◌else◌, ltb, leb, is_some, ◌>>=◌ as option_bind,
}
use single_exchange_triangul.Common.Int.{ℤ, pos, negsuc, ltb_ℤ, leb_ℤ}
use single_exchange_triangul.Common.Dict.{Dict}
use single_exchange_triangul.Decimal.{Text}
use single_exchange_triangul.Trading.{Market}
use single_exchange_triangul.Executor.Defs.{ClientId, OrderReport}
use single_exchange_triangul.Json.{Document, integer_at}

pub data Method : Type 0 where
  http_get http_post http_delete : Method

-- The values of the variables `stage`.
pub data Stage : Type 0 where
  tls_setup dns_resolve tcp_connect tls_handshake request_build http_write http_read : Stage
  response_parse exchange_response : Stage
  parameters request_sign in_request response_decode balance_update : Stage

-- The texts between `=` and `&` in a target.
pub data Value : Type 0 where
  word : String → Value
  digits : Text → Value
  order_name : ClientId → Value
  whole_number : ℤ → Value

-- `path?name=value&...&signature=...`.
pub record Target : Type 0 where
  pub path : String
  pub query : Dict Value
  pub signature : String

-- `body` is `none` where the text is not JSON (`is_discarded`).
pub record Reply (J : Type 0) : Type 0 where
  pub status : ℕ
  pub body : Option J
  pub keep_alive : Bool

-- How one request would go: the stages that throw, and the reply if none does.
pub record Trial (J : Type 0) : Type 0 where
  pub breaks : Stage → Bool
  pub reply : Reply J

-- What the gateway meets: the clock at its calls of `signed_target`, the HMAC of OpenSSL (`none` is
-- its exception), and the exchange at its calls of `request`, both by the number of the call.
pub record World (J : Type 0) : Type 0 where
  pub wall_time_us : ℕ → ℕ
  pub hmac_sha256_hex : String → Dict Value → Option String
  pub exchange : ℕ → Method → Target → Trial J

-- The members that the constructor sets.
pub record Access (D : Type 0) : Type 0 where
  pub markets : List (Market D)
  pub secret_key : String

-- The members that change, and the numbers of calls.
pub record Gateway (D : Type 0) : Type 0 where
  pub connected : Bool
  pub wallet : Dict D
  pub revisions : List (ClientId × ℕ)
  pub order_ids : List (ClientId × ℤ)
  pub accounted_reports : List (ClientId × OrderReport D)
  pub signed : ℕ
  pub requests : ℕ

-- `thrown` is any exception that is not a `RequestError`.
pub data Failure : Type 0 where
  request_error : (stage : Stage) (uncertain : Bool) → Failure
  thrown : Failure

pub data Result (E A : Type 0) : Type 0 where
  ok : A → Result E A
  err : E → Result E A

-- Code that may throw; what it did to the members before it threw stays.
abbrev pub Action : Type 0 → Type 0 → Type 0 → Type 0
Action E D A = Gateway D → Result E A × Gateway D

abbrev pub return : {E D A : Type 0} → A → Action E D A
return a s = (ok a, s)

abbrev pub after :
    {E D A B : Type 0} → Result E A × Gateway D → (A → Action E D B) → Result E B × Gateway D
after (ok a, s) f = f a s
after (err e, s) f = (err e, s)

infixl 5 ◌>>=◌
unfoldable pub ◌>>=◌ : {E D A B : Type 0} → Action E D A → (A → Action E D B) → Action E D B
(m >>= f) s = after (m s) f

-- The member `at` of a container, and the like.
unfoldable pub attempt : {D A : Type 0} → Option A → Action Failure D A
attempt none s = (err thrown, s)
attempt (some a) s = (ok a, s)

-- The stages that `request` passes, on a connection that is there and on none.
unfoldable pub stages : Bool → List Stage
stages true = tls_setup ∷ request_build ∷ http_write ∷ http_read ∷ []
stages false =
    tls_setup ∷ dns_resolve ∷ tcp_connect ∷ tls_handshake ∷ request_build ∷ http_write ∷ http_read
    ∷ []

unfoldable pub first_break : (Stage → Bool) → List Stage → Option Stage
first_break breaks [] = none
first_break breaks (stage ∷ rest) = if breaks stage then some stage else first_break breaks rest

-- The flag `write_started` at a stage of `request`.
unfoldable pub write_started : Stage → Bool
write_started http_write = true
write_started http_read = true
write_started _ = false

abbrev pub is_post : Method → Bool
is_post http_post = true
is_post _ = false

abbrev pub same_ℤ : ℤ → ℤ → Bool
same_ℤ a b = leb_ℤ a b && leb_ℤ b a

module _ {J D : Type 0} where
  unfoldable pub request : World J → Method → Target → Action Failure D (Reply J)
  unfolding stages first_break write_started
  request w method target s =
      let trial = w.exchange s.requests method target in
      let t = record s { requests = s.requests + 1 } in
      elim (first_break trial.breaks (stages s.connected)) [
        | some stage ↦ (
          err (request_error stage (is_post method && write_started stage)),
          record t { connected = false },
        )
        | none ↦ (ok trial.reply, record t { connected = trial.reply.keep_alive })
      ]

  unfoldable pub signed_target : Access D → World J → String → Dict Value → Action Failure D Target
  signed_target x w path query s =
      let t = record s { signed = s.signed + 1 } in
      let all =
        query
        ++ ("recvWindow", whole_number (pos 3000))
          ∷ ("timestamp", whole_number (pos (w.wall_time_us s.signed / 1000)))
          ∷ [] in
      elim (w.hmac_sha256_hex x.secret_key all) [
        | none ↦ (err thrown, t)
        | some signature ↦ (ok (record { path = path; query = all; signature = signature }), t)
      ]

module _ {J : Type 0} ⦃j : Document J⦄ where
  -- `code`, zero where the body has none.
  unfoldable pub reply_code : Reply J → ℤ
  unfolding integer_at
  reply_code reply = elim (option_bind reply.body (λ body. integer_at body "code")) [
    | none ↦ pos 0
    | some code ↦ code
  ]

  -- What `checked` makes of a reply.
  unfoldable pub verdict : Bool → Reply J → Result Failure J
  unfolding reply_code
  verdict submission reply =
      let code = reply_code reply in
      let success = leb 200 reply.status && ltb reply.status 300 in
      elim reply.body [
        | none ↦
            err (request_error response_parse (submission && (leb 500 reply.status || success)))
        | some body ↦
            if not success || ltb_ℤ code (pos 0)
            then err (
                request_error exchange_response (
                  submission
                  && (leb 500 reply.status
                      || same_ℤ code (negsuc 1005)
                      || same_ℤ code (negsuc 1006))))
            else ok body
      ]

  unfoldable pub checked : {D : Type 0} → World J → Method → Target → Bool → Action Failure D J
  unfolding request verdict
  checked w method target submission =
      request w method target >>= λ reply s. (verdict submission reply, s)
