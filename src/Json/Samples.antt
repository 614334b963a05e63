-- ===== src/Json/Samples.antt =====
-- A small type of JSON values to run the models with that read JSON
-- (src/execution/binance_gateway.cpp, src/execution/execution.cpp, src/orderbook.cpp).
use text.Mathlib.Text.{◌==◌ as str_eq}
use single_exchange_triangul.Common.{
  String, Bool, true, Option, none, some, List, [], ◌∷◌, if◌then◌else◌,
}
use single_exchange_triangul.Common.Int.{ℤ, pos}
use single_exchange_triangul.Json.{Document, Parser}

mutual
  pub data Json : Type 0 where
    word : String → Json
    whole : ℤ → Json
    truth : Bool → Json
    array : Items → Json
    object : Fields → Json

  pub data Items : Type 0 where
    nil : Items
    cons : Json → Items → Items

  pub data Fields : Type 0 where
    end : Fields
    entry : String → Json → Fields → Fields

abbrev find : String → Fields → Option Json
find key end = none
find key (entry k v rest) = if str_eq k key then some v else find key rest

abbrev listed : Items → List Json
listed nil = []
listed (cons x xs) = x ∷ listed xs

abbrev field_of : Json → String → Option Json
field_of (object fields) key = find key fields
field_of _ key = none

abbrev elements_of : Json → List Json
elements_of (array items) = listed items
elements_of _ = []

abbrev text_of : Json → Option String
text_of (word s) = some s
text_of _ = none

abbrev integer_of : Json → Option ℤ
integer_of (whole z) = some z
integer_of _ = none

abbrev flag_of : Json → Option Bool
flag_of (truth b) = some b
flag_of _ = none

instance abbrev pub json_document : Document Json
json_document = record {
  field = field_of;
  elements = elements_of;
  text = text_of;
  number = λ v. none;
  integer = integer_of;
  flag = flag_of;
}

-- The texts of small numbers.
abbrev digit_of : String → Option ℤ
digit_of s =
    if str_eq s "0"
    then some (pos 0)
    else if str_eq s "1"
    then some (pos 1)
    else if str_eq s "3"
    then some (pos 3)
    else if str_eq s "6"
    then some (pos 6)
    else if str_eq s "8"
    then some (pos 8)
    else none

instance abbrev pub digit_parser : Parser ℤ
digit_parser = record { parse = digit_of }

-- An exchange with three markets.
abbrev price_rule : Json
price_rule = object (
    entry "filterType" (word "PRICE_FILTER")
      (entry "tickSize" (word "1") (entry "minPrice" (word "0") (entry "maxPrice" (word "0") end))))

abbrev lot_rule : Json
lot_rule = object (
    entry "filterType" (word "LOT_SIZE")
      (entry "stepSize" (word "1") (entry "minQty" (word "1") (entry "maxQty" (word "0") end))))

abbrev notional_rule : Json
notional_rule =
    object (entry "filterType" (word "MIN_NOTIONAL") (entry "minNotional" (word "1") end))

abbrev listing : String → String → String → Json
listing symbol base quote = object (
    entry "symbol" (word symbol) (
      entry "status" (word "TRADING") (
        entry "isSpotTradingAllowed" (truth true) (
          entry "baseAsset" (word base) (
            entry "quoteAsset" (word quote) (
              entry "filters" (array (cons price_rule (cons lot_rule (cons notional_rule nil))))
                end))))))

abbrev listings : Items
listings =
    cons (listing "ETHUSDT" "ETH" "USDT")
      (cons (listing "BTCUSDT" "BTC" "USDT") (cons (listing "ETHBTC" "ETH" "BTC") nil))

abbrev pub info : Json
info = object (entry "symbols" (array listings) end)
