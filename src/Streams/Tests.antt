-- ===== src/Streams/Tests.antt =====
-- The streams of two symbols (src/orderbook.cpp).
use single_exchange_triangul.Common.{◌≡◌, some, [], ◌∷◌, ◌++◌, map, arith, All}
use single_exchange_triangul.Decimal.{Text}
use single_exchange_triangul.Streams.{stream_target, symbol_of_stream, target_prefix, upper}
use single_exchange_triangul.Streams.Names.{Plain, split_slashes, streams_lead_back}

abbrev btc : Text
btc = b'B' ∷ b'T' ∷ b'C' ∷ []

abbrev inch : Text
inch = b'1' ∷ b'I' ∷ b'N' ∷ b'C' ∷ b'H' ∷ []

btc-Plain : Plain btc
unfolding upper
btc-Plain = ground arith

others-Plain : All Plain (inch ∷ [])
unfolding upper
others-Plain = ground arith

streams_lead_back_example :
    (rest : Text) × (stream_target (btc ∷ inch ∷ []) ≡ target_prefix ++ rest)
    × (map symbol_of_stream (split_slashes rest) ≡ map some (btc ∷ inch ∷ []))
streams_lead_back_example = streams_lead_back btc (inch ∷ []) btc-Plain others-Plain
