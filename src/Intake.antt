-- ===== src/Intake.antt =====
-- What `process` of `Receiver` (src/receiver.cpp) does with each message of its queue, and `ingest`:
-- from the text of a message to the book that is kept and the opportunity that is handed on.
pub mod Reads
pub mod Rounds
pub mod Edges
pub mod Run
pub mod Samples
mod Tests
use single_exchange_triangul.Common.{
  ℕ, ◌+◌, ◌-◌, String, Bool, true, false, ◌&&◌, ◌||◌, ◌==◌, leb, Option, none, some, is_some, List,
  [], ◌∷◌, ◌++◌, map, length, replicate, get_elem?, set, if◌then◌else◌, ◌>>=◌, inc64,
}
use single_exchange_triangul.Common.Int.{ℤ, pos, sub_ℕ}
use single_exchange_triangul.Common.Dict.{Dict, lookup}
use single_exchange_triangul.Decimal.{Arith, Text}
use single_exchange_triangul.Trading.{
  TradePath, Triple, OrderBook, ArbitrageOpportunity, Config, Level, items,
}
use single_exchange_triangul.Prices.{Parsed}
use single_exchange_triangul.Streams.{same_text}
use single_exchange_triangul.Depth.{Message, DepthLevel, Depth, decode_partial_depth}
use single_exchange_triangul.Books.{Books, update, scan_edge}
use single_exchange_triangul.Receiver.{RawMessage}

-- What `process` asks of nlohmann::json beside `Message`. `parse` is total: a text that is not JSON
-- gives the value "discarded".
pub record Parsing (J : Type 0) : Type 0 where
  pub parse : Text → J
  pub null_value : J
  pub is_null : J → Bool

-- What the round of a message reads of its surroundings: the clock of the warnings, and whether the
-- logger takes the row of the book.
pub record Moment : Type 0 where
  pub now : ℕ
  pub takes_row : Bool

-- `last_invalid_warning` is `none` for the epoch. The times spent are not modelled.
pub record Intake (F : Type 0) : Type 0 where
  pub books : Books F
  pub counts : List ℕ
  pub received : ℕ
  pub invalid : ℕ
  pub log_rejected : ℕ
  pub last_invalid_warning : Option ℕ

-- What a round does to the world: rows for the logger, the call of `on_opportunity`, and the call of
-- `fail` that is posted to the session of the message.
pub data Effect (F : Type 0) : Type 0 where
  invalid_json : ℕ → Effect F
  first_orderbook : String → Effect F
  arbitrage_edge : List String → ArbitrageOpportunity F → Effect F
  handed_on : ArbitrageOpportunity F → Effect F
  receiver_orderbook : ℕ → ℕ → Effect F
  posted_fail : Bool → Effect F

abbrev pub server_shutdown : Text
server_shutdown =
    b's' ∷ b'e' ∷ b'r' ∷ b'v' ∷ b'e' ∷ b'r' ∷ b'S' ∷ b'h' ∷ b'u' ∷ b't' ∷ b'd' ∷ b'o' ∷ b'w' ∷ b'n'
    ∷ []

-- What a message is: a notice that the stream ends, an error of the stream, the answer to a
-- subscription, or a book.
pub data Sort : Type 0 where
  shutdown control_error confirmation depth : Sort

unfoldable pub level_at : DepthLevel → Level
level_at l = record {
  price = pos l.price.mantissa;
  qty = pos l.quantity.mantissa;
  price_exponent = sub_ℕ 0 l.price.scale;
  qty_exponent = sub_ℕ 0 l.quantity.scale;
}

-- The book of a decoded message, with the members that `ingest` sets.
unfoldable pub book_of : (Text → String) → RawMessage → Depth → OrderBook
unfolding level_at
book_of string_of raw d = record {
  symbol = string_of d.symbol;
  received_time_us = raw.received_us;
  received_steady_ns = raw.received_ns;
  receive_sequence = raw.sequence;
  book_update_id = d.book_update_id;
  price_exponent = sub_ℕ 0 d.price.scale;
  qty_exponent = sub_ℕ 0 d.quantity.scale;
  bid_price = pos d.price.bid_value;
  bid_qty = pos d.quantity.bid_value;
  ask_price = pos d.price.ask_value;
  ask_qty = pos d.quantity.ask_value;
  bids = map level_at d.bids;
  asks = map level_at d.asks;
}

-- The names in the row of an edge; `none` is the exception of `symbols.at`.
unfoldable pub leg_names : List String → TradePath → Option (List String)
leg_names symbols path = do
  first ← get_elem? symbols path.first.index
  second ← get_elem? symbols path.second.index
  third ← get_elem? symbols path.third.index
  some (first ∷ second ∷ third ∷ [])

module _ {F : Type 0} where
  -- The handler of an exception in `ingest`: one warning in a second.
  unfoldable pub reject : Moment → Intake F → Intake F × List (Effect F)
  reject w s =
      let total = inc64 s.invalid in
      let due : Bool = elim s.last_invalid_warning [
        | none ↦ true
        | some last ↦ leb (last + 1_000_000_000) w.now
      ] in
      (
        record s {
          invalid = total;
          last_invalid_warning = if due then some w.now else s.last_invalid_warning;
        },
        if due then invalid_json total ∷ [] else [],
      )

  -- The effects of an edge.
  unfoldable pub edge_effects :
      List String → Option (ArbitrageOpportunity F) → Option (List (Effect F))
  unfolding leg_names
  edge_effects symbols none = some []
  edge_effects symbols (some x) = do
    names ← leg_names symbols x.path
    some (arbitrage_edge names x ∷ handed_on x ∷ [])

  -- The rest of `ingest`. A read beyond `counts` would be undefined; it counts as an exception here.
  unfoldable pub accept :
      ⦃f : Arith F⦄
      → List String
      → Moment
      → ℕ
      → OrderBook
      → Intake F
      → Option (Intake F × List (Effect F))
  unfolding edge_effects
  accept symbols w index book s = do
    count ← get_elem? s.counts index
    books ← update index book s.books
    answer ← scan_edge books index
    edge ← edge_effects symbols answer
    some (
      record s {
        books = books;
        counts = set s.counts index (inc64 count);
        received = inc64 s.received;
        log_rejected = if w.takes_row then s.log_rejected else inc64 s.log_rejected;
      },
      (if inc64 count == 1 then first_orderbook book.symbol ∷ [] else [])
          ++ (edge ++ (receiver_orderbook index book.receive_sequence ∷ [])),
    )

module _ {J : Type 0} ⦃j : Message J⦄ ⦃p : Parsing J⦄ where
  -- The tests of `process` on a message, in their order.
  unfoldable pub sort_of : J → Sort
  sort_of message =
      let control : J = elim (j.field message "data") [ some d ↦ d | none ↦ message ] in
      let is_shutdown : Bool = elim (j.field control "e" >>= j.characters) [
        | some event ↦ same_text event server_shutdown
        | none ↦ false
      ] in
      let is_confirmed : Bool = elim (j.field message "result") [
        | some r ↦ p.is_null r && is_some (j.field message "id")
        | none ↦ false
      ] in
      if is_shutdown
      then shutdown
      else if is_some (j.field message "code")
      then control_error
      else if is_confirmed
      then confirmation
      else depth

  unfoldable pub message_of : RawMessage → J
  message_of raw = if raw.text then p.parse raw.payload else p.null_value

  module _ (string_of : Text → String) where
    -- The part of `ingest` under `try`.
    unfoldable pub read_book : Dict ℕ → RawMessage → J → Option (ℕ × OrderBook)
    unfolding book_of
    read_book indices raw message = do
      decoded ← decode_partial_depth message (pos raw.received_us)
      index ← lookup (string_of decoded.symbol) indices
      some (index, book_of string_of raw decoded)

    module _ {F : Type 0} ⦃f : Arith F⦄ (symbols : List String) where
      unfoldable pub ingest :
          Moment → RawMessage → J → Intake F → Option (Intake F × List (Effect F))
      unfolding read_book reject accept
      ingest w raw message s = elim (read_book s.books.indices raw message) [
        | none ↦ some (reject w s)
        | some (index, book) ↦ accept symbols w index book s
      ]

module _ (J : Type 0) ⦃j : Message J⦄ ⦃p : Parsing J⦄ (string_of : Text → String) {F : Type 0}
    ⦃f : Arith F⦄ (symbols : List String) where
  -- A round of `process` on the message of its slot.
  unfoldable pub handle : Moment → RawMessage → Intake F → Option (Intake F × List (Effect F))
  unfolding message_of sort_of ingest
  handle w raw s =
      let message : J = message_of raw in
      elim (sort_of message) [
        | shutdown ↦ some (s, posted_fail true ∷ [])
        | control_error ↦ some (s, posted_fail false ∷ [])
        | confirmation ↦ some (s, [])
        | depth ↦ ingest string_of symbols w raw message s
      ]

  -- The rounds of `process` on the messages that the queue gives it, in their order.
  unfoldable pub process :
      List (Moment × RawMessage) → Intake F → Option (Intake F × List (Effect F))
  unfolding handle
  process [] s = some (s, [])
  process ((w, raw) ∷ more) s = do
    (t, now) ← handle w raw s
    (u, later) ← process more t
    some (u, now ++ later)

-- The members as the constructor sets them.
unfoldable pub new_intake : {F : Type 0} → Config F → Books F → Intake F
new_intake c books = record {
  books = books;
  counts = replicate (length c.symbols) 0;
  received = 0;
  invalid = 0;
  log_rejected = 0;
  last_invalid_warning = none;
}
