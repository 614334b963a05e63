-- ===== src/Markets.antt =====
-- `load_markets` (src/execution/execution.cpp): the executor's markets, by the indices of the
-- configured symbols, from the exchange's description of them.
pub mod Slots
pub mod Loaded
mod Tests
use text.Mathlib.Text.{◌==◌ as str_eq}
use single_exchange_triangul.Common.{
  ℕ, String, Bool, true, false, not, ◌&&◌, ◌||◌, Option, none, some, List, [], ◌∷◌, ◌>>=◌, leb, set,
  replicate, length, if◌then◌else◌,
}
use single_exchange_triangul.Common.Dict.{lookup}
use single_exchange_triangul.Decimal.{Arith}
use single_exchange_triangul.Trading.{Market, Config}
use single_exchange_triangul.Json.{Document, Parser, text_at}

-- `Market{}`.
abbrev pub empty_market : {D : Type 0} ⦃a : Arith D⦄ → Market D
empty_market ⦃a⦄ = record {
  symbol = "";
  base = "";
  quote = "";
  tick = a.nought;
  step = a.nought;
  min_qty = a.nought;
  max_qty = a.nought;
  min_price = a.nought;
  max_price = a.nought;
  min_notional = a.nought;
  max_notional = a.nought;
}

unfoldable pub all_named : {D : Type 0} → List (Market D) → Bool
all_named [] = true
all_named (m ∷ ms) = not (str_eq m.symbol "") && all_named ms

module _ {J D : Type 0} ⦃j : Document J⦄ ⦃p : Parser D⦄ ⦃a : Arith D⦄ where
  -- `positive_decimal`, which takes texts that are finite and not negative.
  unfoldable pub positive_decimal : J → String → Option D
  unfolding text_at
  positive_decimal filter key = do
    text ← text_at filter key
    value ← p.parse text
    if a.finite value && not (a.lt value a.nought) then some value else none

  -- The branches of the loop over the filters.
  unfoldable pub price_filter : J → Market D → Option (Market D)
  unfolding positive_decimal
  price_filter filter m = do
    tick ← positive_decimal filter "tickSize"
    min_price ← positive_decimal filter "minPrice"
    max_price ← positive_decimal filter "maxPrice"
    some (record m { tick = tick; min_price = min_price; max_price = max_price })

  unfoldable pub lot_size : J → Market D → Option (Market D)
  unfolding positive_decimal
  lot_size filter m = do
    step ← positive_decimal filter "stepSize"
    min_qty ← positive_decimal filter "minQty"
    max_qty ← positive_decimal filter "maxQty"
    some (record m { step = step; min_qty = min_qty; max_qty = max_qty })

  unfoldable pub least_notional : J → Market D → Option (Market D)
  unfolding positive_decimal
  least_notional filter m = do
    least ← positive_decimal filter "minNotional"
    some (record m { min_notional = if a.lt m.min_notional least then least else m.min_notional })

  unfoldable pub notional : J → Market D → Option (Market D)
  unfolding least_notional positive_decimal
  notional filter m = do
    bounded ← least_notional filter m
    most ← positive_decimal filter "maxNotional"
    some (record bounded { max_notional = most })

  -- One round of the loop.
  unfoldable pub add_filter : J → Market D → Option (Market D)
  unfolding text_at price_filter lot_size least_notional notional
  add_filter filter m = text_at filter "filterType" >>= λ type_name.
      if str_eq type_name "PRICE_FILTER"
      then price_filter filter m
      else if str_eq type_name "LOT_SIZE"
      then lot_size filter m
      else if str_eq type_name "MIN_NOTIONAL"
      then least_notional filter m
      else if str_eq type_name "NOTIONAL"
      then notional filter m
      else some m

  unfoldable pub add_filters : List J → Market D → Option (Market D)
  unfolding add_filter
  add_filters [] m = some m
  add_filters (filter ∷ filters) m = do more ← add_filter filter m; add_filters filters more

  -- The market of a configured symbol, without the store into its slot.
  unfoldable pub read_market : J → String → Option (Market D)
  unfolding text_at add_filters
  read_market item symbol = do
    base ← text_at item "baseAsset"
    quote ← text_at item "quoteAsset"
    status ← text_at item "status"
    allowed ← j.field item "isSpotTradingAllowed" >>= j.flag
    filters ← j.field item "filters"
    let named : Market D = record empty_market { symbol = symbol; base = base; quote = quote }
    m ← add_filters (j.elements filters) named
    if not (str_eq status "TRADING") || not allowed || a.le m.tick a.nought || a.le m.step a.nought
        then none
        else some m

  module _ {F : Type 0} where
    -- One round of the loop over the exchange's markets.
    unfoldable pub load_market : Config F → J → List (Market D) → Option (List (Market D))
    unfolding text_at lookup read_market
    load_market c item result = do
      symbol ← text_at item "symbol"
      elim (lookup symbol c.symbol_indices) [
        | none ↦ some result
        | some index ↦ read_market item symbol >>= λ m.
            if leb (length result) index then none else some (set result index m)
      ]

    unfoldable pub load_each : Config F → List J → List (Market D) → Option (List (Market D))
    unfolding load_market
    load_each c [] result = some result
    load_each c (item ∷ items) result = do more ← load_market c item result; load_each c items more

    unfoldable pub load_markets : Config F → J → Option (List (Market D))
    unfolding load_each all_named
    load_markets c info = do
      symbols ← j.field info "symbols"
      result ← load_each c (j.elements symbols) (replicate (length c.symbols) empty_market)
      if all_named result then some result else none
