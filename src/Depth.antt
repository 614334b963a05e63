-- ===== src/Depth.antt =====
-- `decode_partial_depth` (src/orderbook.cpp): from a message of a depth stream to the book that the
-- order book manager keeps.
pub mod Tops
mod Tests
use single_exchange_triangul.Common.{
  ℕ, String, Bool, ◌||◌, ltb, ◌==◌, Option, none, some, List, [], ◌∷◌, length, if◌then◌else◌, ◌>>=◌,
}
use single_exchange_triangul.Common.Int.{ℤ, pos, negsuc}
use single_exchange_triangul.Decimal.{Text}
use single_exchange_triangul.Prices.{max_int64, Parsed, Pair, decimal, decimal_pair}
use single_exchange_triangul.Streams.{symbol_of_stream}

-- What the function reads of nlohmann::json, which is not part of the repository; `none` is the
-- exception, or the answer `false` of the test.
pub record Message (J : Type 0) : Type 0 where
  -- `is_object`, `contains(key)` and `at(key)`.
  pub field : J → String → Option J
  -- `is_string` and `get_ref`, by characters.
  pub characters : J → Option Text
  -- `is_number_integer`, with the integer that it holds.
  pub whole : J → Option ℤ
  -- `is_array`, with its elements.
  pub items : J → Option (List J)

-- Mantissas with their scales; the source's exponents are the scales negated.
pub record DepthLevel : Type 0 where
  pub price : Parsed
  pub quantity : Parsed

-- `price` has the members `bid_price`, `ask_price` and `price_exponent`, and `quantity` those of the
-- quantities.
pub record Depth : Type 0 where
  pub symbol : Text
  pub book_update_id : ℕ
  pub received_time_us : ℤ
  pub bids : List DepthLevel
  pub asks : List DepthLevel
  pub price : Pair
  pub quantity : Pair

-- The tests on `lastUpdateId`.
unfoldable pub update_id : ℤ → Option ℕ
update_id (pos n) = if ltb max_int64 n then none else some n
update_id (negsuc n) = none

module _ {J : Type 0} ⦃j : Message J⦄ where
  -- `decimal` on a value of the message.
  unfoldable pub number : J → Option Parsed
  number value = j.characters value >>= decimal

  -- One round of the loop of `read_side`.
  unfoldable pub level_of : List J → Option DepthLevel
  unfolding number
  level_of (p ∷ q ∷ []) = do
    price ← number p
    quantity ← number q
    some (record { price = price; quantity = quantity })
  level_of _ = none

  unfoldable pub read_levels : List J → Option (List DepthLevel)
  unfolding level_of
  read_levels [] = some []
  read_levels (side ∷ sides) = do
    parts ← j.items side
    level ← level_of parts
    levels ← read_levels sides
    some (level ∷ levels)

  -- The lambda `read_side`.
  unfoldable pub read_side : J → Option (List DepthLevel)
  unfolding read_levels
  read_side side = do
    levels ← j.items side
    if length levels == 0 || ltb 20 (length levels) then none else read_levels levels

  unfoldable pub head_of : List J → Option J
  head_of [] = none
  head_of (x ∷ xs) = some x

  unfoldable pub second_of : List J → Option J
  second_of (x ∷ y ∷ ys) = some y
  second_of _ = none

  -- `side[0][0]` and `side[0][1]`.
  unfoldable pub first_price : J → Option J
  unfolding head_of
  first_price side = do
    levels ← j.items side
    level ← head_of levels
    parts ← j.items level
    head_of parts

  unfoldable pub first_quantity : J → Option J
  unfolding head_of second_of
  first_quantity side = do
    levels ← j.items side
    level ← head_of levels
    parts ← j.items level
    second_of parts

  -- `decimal_pair` on two values.
  unfoldable pub pair_of : Option J → Option J → Option Pair
  pair_of bid ask = do b ← bid >>= j.characters; a ← ask >>= j.characters; decimal_pair b a

  -- Behind the name of the stream.
  unfoldable pub decode_data : Text → J → ℤ → Option Depth
  unfolding update_id read_side first_price first_quantity pair_of
  decode_data symbol data_value received = do
    update ← j.field data_value "lastUpdateId" >>= j.whole
    book_update_id ← update_id update
    bid_side ← j.field data_value "bids"
    bids ← read_side bid_side
    ask_side ← j.field data_value "asks"
    asks ← read_side ask_side
    price ← pair_of (first_price bid_side) (first_price ask_side)
    quantity ← pair_of (first_quantity bid_side) (first_quantity ask_side)
    some (record {
      symbol = symbol;
      book_update_id = book_update_id;
      received_time_us = received;
      bids = bids;
      asks = asks;
      price = price;
      quantity = quantity;
    })

  unfoldable pub decode_partial_depth : J → ℤ → Option Depth
  unfolding symbol_of_stream decode_data
  decode_partial_depth message received = do
    stream ← j.field message "stream" >>= j.characters
    symbol ← symbol_of_stream stream
    data_value ← j.field message "data"
    decode_data symbol data_value received
