-- ===== src/Settings.antt =====
-- `load_config` (src/orderbook.cpp): the configuration of the program from its JSON. The groups are
-- read by Triangles.
use single_exchange_triangul.Common.{
  ℕ, ◌+◌, ◌*◌, ◌-◌, String, Bool, true, false, not, ◌&&◌, ◌||◌, ◌==◌, leb, Option, none, some, List,
  [], ◌∷◌, length, if◌then◌else◌, ◌>>=◌,
}
use single_exchange_triangul.Common.Int.{pos, negsuc}
use single_exchange_triangul.Decimal.{Arith, Text}
use single_exchange_triangul.Trading.{Triple}
use single_exchange_triangul.Prices.{is_empty}
use single_exchange_triangul.Streams.{same_text}
use single_exchange_triangul.Depth.{Message}
use single_exchange_triangul.Triangles.{Symbols, load_groups}

-- What `load_config` asks of nlohmann::json beside `Message`: the conversions of `value(key, default)`,
-- which throw on another type, for `bool`, `double`, `std::uint64_t` and `std::string`.
pub record Fields (J F : Type 0) : Type 0 where
  pub is_object : J → Bool
  pub flag : J → Option Bool
  pub float : J → Option F
  pub unsigned : J → Option ℕ

pub data Mode : Type 0 where
  disabled paper live : Mode

-- The members of `Config` in three parts, but for `trading_groups`, which `main` adds. A path is its text.
pub record Execution : Type 0 where
  pub mode : Mode
  pub latency_timestamps : Bool
  pub tls_keylog_file : Text
  pub live_test_mode : Bool
  pub max_cycles : ℕ
  pub hmac_api_key_file : Text
  pub hmac_secret_key_file : Text
  pub timeout_ms : ℕ

pub record Amounts (F : Type 0) : Type 0 where
  pub max_arbitrage_usdt : F
  pub commission_taker : F
  pub edge_threshold : F

pub record Endpoints : Type 0 where
  pub host : Text
  pub port : Text
  pub rest_host : Text
  pub rest_port : Text
  pub ca_file : Text

pub record Settings (F : Type 0) : Type 0 where
  pub execution : Execution
  pub amounts : Amounts F
  pub names : Symbols
  pub triangle_indices : List (Triple ℕ)
  pub endpoints : Endpoints

abbrev pub disabled_text : Text
disabled_text = b'd' ∷ b'i' ∷ b's' ∷ b'a' ∷ b'b' ∷ b'l' ∷ b'e' ∷ b'd' ∷ []

abbrev pub paper_text : Text
paper_text = b'p' ∷ b'a' ∷ b'p' ∷ b'e' ∷ b'r' ∷ []

abbrev pub live_text : Text
live_text = b'l' ∷ b'i' ∷ b'v' ∷ b'e' ∷ []

unfoldable pub mode_of : Text → Option Mode
mode_of t =
    if same_text t disabled_text
    then some disabled
    else if same_text t paper_text
    then some paper
    else if same_text t live_text
    then some live
    else none

-- The letters, digits, dots and dashes of a host.
unfoldable pub host_char : ℕ → Bool
host_char c =
    (leb b'a' c && leb c b'z')
    || (leb b'A' c && leb c b'Z')
    || (leb b'0' c && leb c b'9')
    || c == b'.'
    || c == b'-'

unfoldable pub all_chars : (ℕ → Bool) → Text → Bool
all_chars ok [] = true
all_chars ok (c ∷ cs) = ok c && all_chars ok cs

unfoldable pub host_ok : Text → Bool
unfolding host_char all_chars
host_ok t = not (is_empty t) && all_chars host_char t

-- `std::stoul` on digits.
unfoldable pub number_of : ℕ → Text → ℕ
number_of n [] = n
number_of n (c ∷ cs) = number_of (n * 10 + (c - b'0')) cs

unfoldable pub port_ok : Text → Bool
unfolding all_chars number_of
port_ok t =
    not (is_empty t)
    && leb (length t) 5
    && all_chars (λ c. leb b'0' c && leb c b'9') t
    && not (number_of 0 t == 0)
    && leb (number_of 0 t) 65535

module _ {F : Type 0} ⦃f : Arith F⦄ where
  -- The ranges of the three amounts, as the negation of the tests that throw.
  unfoldable pub amount_ok : F → Bool
  amount_ok x = f.finite x && not (f.le x f.nought)

  unfoldable pub commission_ok : F → Bool
  commission_ok x = f.finite x && not (f.lt x f.nought) && not (f.le f.one x)

  unfoldable pub threshold_ok : F → Bool
  threshold_ok x = f.finite x && not (f.lt x f.nought)

-- `resolve`, with `std::filesystem::path::is_absolute`, and the path beside the configuration file.
unfoldable pub resolve_path : (Text → Bool) → (Text → Text) → Text → Text
resolve_path is_absolute beside value = if is_absolute value then value else beside value

module _ {J : Type 0} ⦃j : Message J⦄ where
  -- `value(key, default)` of an object.
  unfoldable pub field_or : {A : Type 0} → (J → Option A) → J → String → A → Option A
  field_or as_type v key default = elim (j.field v key) [ none ↦ some default | some x ↦ as_type x ]

  -- `max_cycles`, by the limit of the test mode where it is left out.
  unfoldable pub max_cycles_of : J → Bool → Option ℕ
  max_cycles_of v live_test = elim (j.field v "max_cycles") [
    | none ↦ some (if live_test then 2 else 0)
    | some limit ↦ j.whole limit >>= λ z. elim z [ pos n ↦ some n | negsuc n ↦ none ]
  ]

  -- A path that may be left out, or, for the key log, be empty.
  unfoldable pub path_field : (Text → Text) → Bool → J → String → Option Text
  path_field resolve keeps_empty v key = elim (j.field v key) [
    | none ↦ some []
    | some x ↦ j.characters x >>= λ t. some (if keeps_empty && is_empty t then [] else resolve t)
  ]

  -- The part on the execution, with its tests.
  unfoldable pub read_execution :
      (F : Type 0) → ⦃l : Fields J F⦄ → (Text → Text) → J → Option Execution
  unfolding field_or mode_of max_cycles_of path_field
  read_execution F ⦃l⦄ file v = do
    mode ← field_or j.characters v "execution_mode" disabled_text >>= mode_of
    latency ← field_or l.flag v "latency_timestamps" false
    keylog ← path_field file true v "tls_keylog_file"
    live_test ← field_or l.flag v "live_test_mode" false
    max_cycles ← max_cycles_of v live_test
    api_key ← path_field file false v "hmac_api_key_file"
    secret_key ← path_field file false v "hmac_secret_key_file"
    timeout ← field_or l.unsigned v "execution_timeout_ms" 1000
    let keys_ok : Bool = elim mode [
      | live ↦ not (is_empty api_key) && not (is_empty secret_key)
      | _ ↦ true
    ]
    if keys_ok && not (timeout == 0) && leb timeout 60000
        then some (record {
          mode = mode;
          latency_timestamps = latency;
          tls_keylog_file = keylog;
          live_test_mode = live_test;
          max_cycles = max_cycles;
          hmac_api_key_file = api_key;
          hmac_secret_key_file = secret_key;
          timeout_ms = timeout;
        })
        else none

  unfoldable pub read_amounts :
      {F : Type 0} → ⦃l : Fields J F⦄ → ⦃f : Arith F⦄ → Amounts F → J → Option (Amounts F)
  unfolding field_or amount_ok commission_ok threshold_ok
  read_amounts ⦃l⦄ d v = do
    amount ← field_or l.float v "max_arbitrage_usdt" d.max_arbitrage_usdt
    commission ← field_or l.float v "commission_taker" d.commission_taker
    threshold ← field_or l.float v "edge_threshold" d.edge_threshold
    if amount_ok amount && commission_ok commission && threshold_ok threshold
        then some (record {
          max_arbitrage_usdt = amount;
          commission_taker = commission;
          edge_threshold = threshold;
        })
        else none

  -- The hosts and the ports, which `d` has the defaults of.
  unfoldable pub read_endpoints : (Text → Text) → Endpoints → J → Option Endpoints
  unfolding field_or path_field host_ok port_ok
  read_endpoints file d v = do
    host ← field_or j.characters v "host" d.host
    port ← field_or j.characters v "port" d.port
    rest_host ← field_or j.characters v "rest_host" d.rest_host
    rest_port ← field_or j.characters v "rest_port" d.rest_port
    ca ← path_field file false v "ca_file"
    if host_ok host && host_ok rest_host && port_ok port && port_ok rest_port
        then some (record {
          host = host;
          port = port;
          rest_host = rest_host;
          rest_port = rest_port;
          ca_file = ca;
        })
        else none

-- `file` is `resolve_path` at the path of the configuration file; `string_of` is the `std::string` of
-- characters.
module _ (J : Type 0) {F : Type 0} ⦃j : Message J⦄ ⦃l : Fields J F⦄ ⦃f : Arith F⦄
    (file : Text → Text) (string_of : Text → String) (d : Amounts F) (e : Endpoints) where
  unfoldable pub load_config : J → Option (Settings F)
  unfolding read_execution read_amounts read_endpoints
  load_config v = do
    object ← if l.is_object v then some v else none
    execution ← read_execution F file object
    amounts ← read_amounts d object
    triangles ← j.field object "triangles"
    (names, indices) ← load_groups string_of triangles
    endpoints ← read_endpoints file e object
    some (record {
      execution = execution;
      amounts = amounts;
      names = names;
      triangle_indices = indices;
      endpoints = endpoints;
    })
