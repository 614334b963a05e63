-- ===== src/Depth/Tests.antt =====
-- A message of a depth stream (src/orderbook.cpp).
use single_exchange_triangul.Common.{
  ◌≡◌, refl, String, Option, none, some, List, [], ◌∷◌, ◌>>=◌, if◌then◌else◌,
}
use single_exchange_triangul.Common.Int.{ℤ, pos}
use text.Mathlib.Text.{◌==◌ as str_eq}
use single_exchange_triangul.Decimal.{Text}
use single_exchange_triangul.Prices.{decimal, decimal_from, add_digit, decimal_pair, rescale}
use single_exchange_triangul.Streams.{symbol_of_stream, depth_suffix}
use single_exchange_triangul.Depth.{Message, DepthLevel, Depth, decode_partial_depth}
use single_exchange_triangul.Depth.Tops.{Decoded, decode_partial_depth-Decoded}

-- The values of one message.
data Part : Type 0 where
  whole_message whole_data stream_name last_update : Part
  bid_side ask_side bid_level ask_level one_two three five : Part

abbrev part_of : Part → String → Option Part
part_of whole_message key =
    if str_eq key "stream"
    then some stream_name
    else if str_eq key "data"
    then some whole_data
    else none
part_of whole_data key =
    if str_eq key "lastUpdateId"
    then some last_update
    else if str_eq key "bids"
    then some bid_side
    else if str_eq key "asks"
    then some ask_side
    else none
part_of _ key = none

abbrev letters : Part → Option Text
letters stream_name = some (b'e' ∷ b't' ∷ b'h' ∷ depth_suffix)
letters one_two = some (b'1' ∷ b'.' ∷ b'2' ∷ [])
letters three = some (b'3' ∷ [])
letters five = some (b'5' ∷ [])
letters _ = none

abbrev integer_of : Part → Option ℤ
integer_of last_update = some (pos 7)
integer_of _ = none

abbrev parts_of : Part → Option (List Part)
parts_of bid_side = some (bid_level ∷ bid_level ∷ [])
parts_of ask_side = some (ask_level ∷ [])
parts_of bid_level = some (one_two ∷ five ∷ [])
parts_of ask_level = some (three ∷ one_two ∷ [])
parts_of _ = none

instance abbrev part_message : Message Part
part_message = record {
  field = part_of;
  characters = letters;
  whole = integer_of;
  items = parts_of;
}

abbrev bid : DepthLevel
bid = record {
  price = record { mantissa = 12; scale = 1 };
  quantity = record { mantissa = 5; scale = 0 };
}

abbrev ask : DepthLevel
ask = record {
  price = record { mantissa = 3; scale = 0 };
  quantity = record { mantissa = 12; scale = 1 };
}

abbrev depth : Depth
depth = record {
  symbol = b'E' ∷ b'T' ∷ b'H' ∷ [];
  book_update_id = 7;
  received_time_us = pos 1000;
  bids = bid ∷ bid ∷ [];
  asks = ask ∷ [];
  price = record { bid_value = 12; ask_value = 30; scale = 1 };
  quantity = record { bid_value = 50; ask_value = 12; scale = 1 };
}

decodes : decode_partial_depth whole_message (pos 1000) ≡ some depth
unfolding decode_partial_depth decimal decimal_from add_digit decimal_pair rescale
decodes = refl

decode_partial_depth-Decoded_example :
    Decoded depth
    × (depth.received_time_us ≡ pos 1000)
    × ((stream : Text) × ((part_message.field whole_message "stream" >>= part_message.characters)
          ≡ some stream)
        × (symbol_of_stream stream ≡ some depth.symbol))
decode_partial_depth-Decoded_example = decode_partial_depth-Decoded whole_message (pos 1000) decodes
