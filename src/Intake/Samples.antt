-- ===== src/Intake/Samples.antt =====
-- A configuration, three messages, and an answer to a subscription, to run the models with
-- (src/receiver.cpp, src/orderbook.cpp).
use text.Mathlib.Text.{◌==◌ as str_eq}
use single_exchange_triangul.Common.{
  ℕ, zero, suc, ◌-◌, String, Bool, true, false, Option, none, some, List, [], ◌∷◌, ◌++◌, ◌==◌,
  length, if◌then◌else◌, replicate,
}
use single_exchange_triangul.Common.Int.{ℤ, pos}
use single_exchange_triangul.Decimal.{Text}
use single_exchange_triangul.Samples.{whole, config}
use single_exchange_triangul.Streams.{depth_suffix}
use single_exchange_triangul.Depth.{Message}
use single_exchange_triangul.Receiver.{RawMessage, blank_message}
use single_exchange_triangul.Books.{Books}
use single_exchange_triangul.Intake.{Parsing, Moment}
use single_exchange_triangul.Settings.{Fields, paper_text}

-- The values of a configuration, of the messages of three symbols, by their indices, and of an answer.
pub data Part : Type 0 where
  settings mode_name triangles triangle port_number : Part
  message body stream_name side level price : ℕ → Part
  last_update quantity answer nothing : Part

abbrev pub part_of : Part → String → Option Part
part_of (message k) key =
    if str_eq key "stream"
    then some (stream_name k)
    else if str_eq key "data"
    then some (body k)
    else none
part_of (body k) key =
    if str_eq key "lastUpdateId"
    then some last_update
    else if str_eq key "bids"
    then some (side k)
    else if str_eq key "asks"
    then some (side k)
    else none
part_of settings key =
    if str_eq key "execution_mode"
    then some mode_name
    else if str_eq key "triangles"
    then some triangles
    else if str_eq key "port"
    then some port_number
    else none
part_of answer key =
    if str_eq key "result" then some nothing else if str_eq key "id" then some last_update else none
part_of _ key = none

abbrev pub name : ℕ → Text
name zero = b'b' ∷ b't' ∷ b'c' ∷ b'u' ∷ b's' ∷ b'd' ∷ b't' ∷ []
name (suc zero) = b'e' ∷ b't' ∷ b'h' ∷ b'b' ∷ b't' ∷ b'c' ∷ []
name (suc (suc k)) = b'e' ∷ b't' ∷ b'h' ∷ b'u' ∷ b's' ∷ b'd' ∷ b't' ∷ []

abbrev pub letters : Part → Option Text
letters (stream_name k) = some (name k ++ depth_suffix)
letters (price k) = some (if k == 2 then b'3' ∷ [] else b'1' ∷ [])
letters mode_name = some paper_text
letters port_number = some (b'9' ∷ b'4' ∷ b'4' ∷ b'3' ∷ [])
letters (body k) = some (name k)
letters quantity = some (b'9' ∷ [])
letters _ = none

abbrev pub integer_of : Part → Option ℤ
integer_of last_update = some (pos 7)
integer_of _ = none

abbrev pub parts_of : Part → Option (List Part)
parts_of triangles = some (triangle ∷ [])
parts_of triangle = some (body 0 ∷ body 1 ∷ body 2 ∷ [])
parts_of (side k) = some (level k ∷ [])
parts_of (level k) = some (price k ∷ quantity ∷ [])
parts_of _ = none

instance abbrev pub part_message : Message Part
part_message = record {
  field = part_of;
  characters = letters;
  whole = integer_of;
  items = parts_of;
}

-- The texts are "0", "1", "2" for the three messages, and any other for the answer.
abbrev pub value_of : Text → Part
value_of [] = nothing
value_of (c ∷ cs) = if c == b'9' then answer else message (c - b'0')

abbrev pub is_nothing : Part → Bool
is_nothing nothing = true
is_nothing _ = false

instance abbrev pub part_parsing : Parsing Part
part_parsing = record { parse = value_of; null_value = nothing; is_null = is_nothing }

abbrev pub string_of : Text → String
string_of [] = ""
string_of (c ∷ cs) = if c == b'B' then "BTCUSDT" else if length cs == 5 then "ETHBTC" else "ETHUSDT"

abbrev pub raw : ℕ → ℕ → Moment × RawMessage
raw c n = (
  record { now = 1; takes_row = true },
  record blank_message { payload = c ∷ []; received_ns = 5; sequence = n; received_us = 1 },
)

abbrev pub raws : List (Moment × RawMessage)
raws = raw b'9' 1 ∷ raw b'0' 2 ∷ raw b'1' 3 ∷ raw b'2' 4 ∷ []

abbrev pub empty_books : Books ℤ
empty_books = record {
  indices = config.symbol_indices;
  orderbooks = replicate 3 none;
  groups = config.trading_groups;
  max_arbitrage_usdt = pos 8;
  fee_multiplier = pos 1;
  edge_threshold = pos 0;
  populated = 0;
  received = 0;
}

abbrev pub is_settings : Part → Bool
is_settings settings = true
is_settings _ = false

instance abbrev pub part_fields : Fields Part ℤ
part_fields = record {
  is_object = is_settings;
  flag = λ v. none;
  float = λ v. none;
  unsigned = λ v. none;
}
