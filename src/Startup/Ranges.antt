-- ===== src/Startup/Ranges.antt =====
-- The ranges and the symbols that `load_config` leaves (src/orderbook.cpp).
use mathlib.Core.Path.{subst}
use mathlib.Core.Option.{some-injective}
use single_exchange_triangul.Common.{
  ℕ, ◌≡◌, String, Bool, true, false, not, ◌&&◌, leb, ◌==◌, none, some, arith, ◌>>=◌, >>=-eq-some,
  if◌then◌else◌,
}
use single_exchange_triangul.Decimal.{Arith, Text}
use single_exchange_triangul.Depth.{Message}
use single_exchange_triangul.Triangles.{load_groups}
use single_exchange_triangul.Triangles.Indices.{Consistent, load_groups-Consistent}
use single_exchange_triangul.Settings.{
  Fields, Settings, Execution, Amounts, Endpoints, amount_ok, commission_ok, threshold_ok, field_or,
  mode_of, path_field, max_cycles_of, read_execution, read_amounts, read_endpoints, load_config,
  disabled_text,
}

pub if_some :
    {A : Type 0} (b : Bool) {x y : A} → (if b then some x else none) ≡ some y → (b ≡ true) × (x ≡ y)
if_some b e = (ground arith, ground arith)

timeout_tested :
    (keys : Bool) (n : ℕ) → (keys && not (n == 0) && leb n 60000) ≡ true → (n == 0) ≡ false
timeout_tested keys n h = ground arith

-- The tests that the amounts have passed.
pub record InRange {F : Type 0} ⦃f : Arith F⦄ (s : Amounts F) : Type 0 where
  pub amount : amount_ok s.max_arbitrage_usdt ≡ true
  pub commission : commission_ok s.commission_taker ≡ true
  pub threshold : threshold_ok s.edge_threshold ≡ true

-- What is known of a configuration that `load_config` takes.
pub record Loaded {F : Type 0} ⦃f : Arith F⦄ (s : Settings F) : Type 0 where
  pub amounts : InRange s.amounts
  pub timeout : (s.execution.timeout_ms == 0) ≡ false
  pub names : Consistent s.names

module _ {J F : Type 0} ⦃j : Message J⦄ ⦃l : Fields J F⦄ where
  read_amounts-InRange :
      ⦃f : Arith F⦄ (d : Amounts F) (v : J) {s : Amounts F} → read_amounts d v ≡ some s → InRange s
  unfolding read_amounts
  read_amounts-InRange d v {s} h =
      let (amount, _, h₁) =
        >>=-eq-some (field_or l.float v "max_arbitrage_usdt" d.max_arbitrage_usdt) _ h in
      let (commission, _, h₂) =
        >>=-eq-some (field_or l.float v "commission_taker" d.commission_taker) _ h₁ in
      let (threshold, _, h₃) =
        >>=-eq-some (field_or l.float v "edge_threshold" d.edge_threshold) _ h₂ in
      let (passed, same) = if_some _ h₃ in
      subst InRange same (record {
        amount = ground (arith, passed);
        commission = ground (arith, passed);
        threshold = ground (arith, passed);
      })

module _ {J : Type 0} ⦃j : Message J⦄ where
  read_execution-timeout :
      (F : Type 0) ⦃l : Fields J F⦄ (file : Text → Text) (v : J) {s : Execution}
      → read_execution F file v ≡ some s
      → (s.timeout_ms == 0) ≡ false
  unfolding read_execution
  read_execution-timeout F ⦃l⦄ file v {s} h =
      let (mode, _, h₁) =
        >>=-eq-some (field_or j.characters v "execution_mode" disabled_text >>= mode_of) _ h in
      let (latency, _, h₂) = >>=-eq-some (field_or l.flag v "latency_timestamps" false) _ h₁ in
      let (keylog, _, h₃) = >>=-eq-some (path_field file true v "tls_keylog_file") _ h₂ in
      let (live_test, _, h₄) = >>=-eq-some (field_or l.flag v "live_test_mode" false) _ h₃ in
      let (cycles, _, h₅) = >>=-eq-some (max_cycles_of v live_test) _ h₄ in
      let (api_key, _, h₆) = >>=-eq-some (path_field file false v "hmac_api_key_file") _ h₅ in
      let (secret, _, h₇) = >>=-eq-some (path_field file false v "hmac_secret_key_file") _ h₆ in
      let (timeout, _, h₈) = >>=-eq-some (field_or l.unsigned v "execution_timeout_ms" 1000) _ h₇ in
      let (passed, same) = if_some _ h₈ in
      subst (λ x. (x.timeout_ms == 0) ≡ false) same (timeout_tested _ timeout passed)

module _ (J : Type 0) {F : Type 0} ⦃j : Message J⦄ ⦃l : Fields J F⦄ ⦃f : Arith F⦄
    (file : Text → Text) (string_of : Text → String) (d : Amounts F) (e : Endpoints) where
  pub load_config-Loaded :
      (v : J) {s : Settings F} → load_config J file string_of d e v ≡ some s → Loaded s
  unfolding load_config
  load_config-Loaded v {s} h =
      let (object, _, h₀) = >>=-eq-some (if l.is_object v then some v else none) _ h in
      let (execution, e₁, h₁) = >>=-eq-some (read_execution F file object) _ h₀ in
      let (amounts, e₂, h₂) = >>=-eq-some (read_amounts d object) _ h₁ in
      let (triangles, _, h₃) = >>=-eq-some (j.field object "triangles") _ h₂ in
      let (groups, e₃, h₄) = >>=-eq-some (load_groups string_of triangles) _ h₃ in
      let (ends, _, h₅) = >>=-eq-some (read_endpoints file e object) _ h₄ in
      subst Loaded (some-injective _ _ h₅) (record {
        amounts = read_amounts-InRange d object e₂;
        timeout = read_execution-timeout F file object e₁;
        names =
            (load_groups-Consistent string_of triangles {c = groups.0} {triangles = groups.1} e₃).0;
      })
