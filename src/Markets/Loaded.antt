-- ===== src/Markets/Loaded.antt =====
-- The markets that the executor gets (src/execution/execution.cpp).
use mathlib.Core.Path.{subst, sym, ap, ◌∙◌}
use mathlib.Core.Option.{some-injective}
use text.Mathlib.TextEquality.{eq_iff}
use single_exchange_triangul.Common.{
  ℕ, String, true, false, some, List, [], ◌∷◌, ◌>>=◌, >>=-eq-some, replicate, length, get_elem?,
  ◌≡◌, All, All-map, refl, inl, inr, arith, Option-cases, length-replicate,
}
use single_exchange_triangul.Common.Dict.{lookup}
use single_exchange_triangul.Decimal.{Arith}
use single_exchange_triangul.Trading.{Market, Config}
use single_exchange_triangul.Json.{Document, Parser, text_at}
use single_exchange_triangul.Markets.{
  price_filter, lot_size, least_notional, notional, add_filter, add_filters, empty_market,
  read_market, load_market, load_each, all_named, load_markets,
}
use single_exchange_triangul.Markets.Slots.{
  all_named-at, store, Slots, replicate-Slots, store-Slots,
}
use single_exchange_triangul.Arbitrage.Markets.{Any}

-- The names of the market stay while its filters are read.
abbrev Names : {D : Type 0} → Market D → Market D → Type 0
Names m m' = (m'.symbol ≡ m.symbol) × (m'.base ≡ m.base) × (m'.quote ≡ m.quote)

covers-Any :
    {A B : Type 0} (Q : B → A → Type 0) (items : List A)
    → All (λ item. (m : B) → Q m item → Any (Q m) items) items
covers-Any Q [] = tt
covers-Any Q (item ∷ items) =
    (λ m d. inl d, All-map (λ x covers m d. inr (covers m d)) items (covers-Any Q items))

module _ {J D : Type 0} ⦃j : Document J⦄ ⦃p : Parser D⦄ ⦃a : Arith D⦄ where
  price_filter-Names :
      (filter : J) (m : Market D) {m' : Market D} → price_filter filter m ≡ some m' → Names m m'
  unfolding price_filter
  price_filter-Names filter m h = ground arith

  lot_size-Names :
      (filter : J) (m : Market D) {m' : Market D} → lot_size filter m ≡ some m' → Names m m'
  unfolding lot_size
  lot_size-Names filter m h = ground arith

  least_notional-Names :
      (filter : J) (m : Market D) {m' : Market D} → least_notional filter m ≡ some m' → Names m m'
  unfolding least_notional
  least_notional-Names filter m h = ground arith

  notional-Names :
      (filter : J) (m : Market D) {m' : Market D} → notional filter m ≡ some m' → Names m m'
  unfolding notional
  notional-Names filter m h =
      let (bounded, e₁, e₂) = >>=-eq-some (least_notional filter m) _ h in
      ground (arith, least_notional-Names filter m e₁)

  add_filter-Names :
      (filter : J) (m : Market D) {m' : Market D} → add_filter filter m ≡ some m' → Names m m'
  unfolding add_filter
  add_filter-Names filter m h = ground (
    arith,
    price_filter-Names filter m,
    lot_size-Names filter m,
    least_notional-Names filter m,
    notional-Names filter m,
  )

  add_filters-Names :
      (filters : List J) (m : Market D) {m' : Market D}
      → add_filters filters m ≡ some m'
      → Names m m'
  unfolding add_filters
  add_filters-Names [] m h = ground arith
  add_filters-Names (filter ∷ filters) m h =
      let (more, e₁, e₂) = >>=-eq-some (add_filter filter m) _ h in
      ground (arith, add_filter-Names filter m e₁, add_filters-Names filters more e₂)

  -- The exchange describes the market, and offers it for trading.
  pub record Describes (m : Market D) (item : J) : Type 0 where
    pub symbol : text_at item "symbol" ≡ some m.symbol
    pub base : text_at item "baseAsset" ≡ some m.base
    pub quote : text_at item "quoteAsset" ≡ some m.quote
    pub trading : text_at item "status" ≡ some "TRADING"
    pub spot : (j.field item "isSpotTradingAllowed" >>= j.flag) ≡ some true
    pub tick : a.le m.tick a.nought ≡ false
    pub step : a.le m.step a.nought ≡ false

  read_market-Describes :
      (item : J) (symbol : String) {m : Market D}
      → text_at item "symbol" ≡ some symbol
      → read_market item symbol ≡ some m
      → Describes m item × (m.symbol ≡ symbol)
  unfolding read_market
  read_market-Describes item symbol {m} named h =
      let (base, e₁, h₁) = >>=-eq-some (text_at item "baseAsset") _ h in
      let (quote, e₂, h₂) = >>=-eq-some (text_at item "quoteAsset") _ h₁ in
      let (status, e₃, h₃) = >>=-eq-some (text_at item "status") _ h₂ in
      let (allowed, e₄, h₄) = >>=-eq-some (j.field item "isSpotTradingAllowed" >>= j.flag) _ h₃ in
      let (filters, e₅, h₅) = >>=-eq-some (j.field item "filters") _ h₄ in
      let start : Market D = record empty_market { symbol = symbol; base = base; quote = quote } in
      let (m', e₆, h₆) = >>=-eq-some (add_filters (j.elements filters) start) _ h₅ in
      let (same_symbol, same_base, same_quote) = add_filters-Names (j.elements filters) start e₆ in
      (
        record {
          symbol = ground arith;
          base = ground arith;
          quote = ground arith;
          trading = ground (arith, eq_iff status "TRADING");
          spot = ground arith;
          tick = ground arith;
          step = ground arith;
        },
        ground arith,
      )

  module _ {F : Type 0} (c : Config F) (P : Market D → Type 0) where
    load_market-Slots :
        (item : J) (ms : List (Market D)) {ms' : List (Market D)}
        → ((m : Market D) → Describes m item → P m)
        → load_market c item ms ≡ some ms'
        → Slots c P ms
        → Slots c P ms' × (length ms' ≡ length ms)
    unfolding load_market
    load_market-Slots item ms {ms'} covers h slots =
        let (symbol, e, h₁) = >>=-eq-some (text_at item "symbol") _ h in
        elim (Option-cases (lookup symbol c.symbol_indices)) [
          | inl foreign ↦
              let same : ms ≡ ms' = ground arith in
              subst (λ r. Slots c P r × (length r ≡ length ms)) same (slots, refl)
          | inr (index, at) ↦
              let (m, e₂, h₂) =
                >>=-eq-some (read_market item symbol) (store ms index) (ground arith) in
              let (described, named) = read_market-Describes item symbol e e₂ in
              store-Slots c P ms index m h₂ (ground arith) (covers m described) slots
        ]

    abbrev Covers : List J → Type 0
    Covers items = All (λ item. (m : Market D) → Describes m item → P m) items

    load_each-Slots :
        (items : List J) (ms : List (Market D)) {ms' : List (Market D)}
        → Covers items
        → load_each c items ms ≡ some ms'
        → Slots c P ms
        → Slots c P ms' × (length ms' ≡ length ms)
    unfolding load_each
    load_each-Slots [] ms covers h slots =
        subst (λ r. Slots c P r × (length r ≡ length ms)) (some-injective _ _ h) (slots, refl)
    load_each-Slots (item ∷ items) ms (first, covers) h slots =
        let (more, e₁, e₂) = >>=-eq-some (load_market c item ms) _ h in
        let (slots₁, size₁) = load_market-Slots item ms first e₁ slots in
        let (slots₂, size₂) = load_each-Slots items more covers e₂ slots₁ in (slots₂, size₂ ∙ size₁)

  -- Where `load_markets` returns, it gives one market for each configured symbol, each in the place
  -- that the configuration has for its symbol, with the names that the exchange gives for this symbol,
  -- offered for trading, and with a positive tick and step.
  pub loaded_markets :
      {F : Type 0} (c : Config F) (info : J) {ms : List (Market D)}
      → load_markets c info ≡ some ms
      → (symbols : J) × (j.field info "symbols" ≡ some symbols)
        × (length ms ≡ length c.symbols)
        × ((i : ℕ) (m : Market D)
            → get_elem? ms i ≡ some m
            → (lookup m.symbol c.symbol_indices ≡ some i) × Any (Describes m) (j.elements symbols))
  unfolding load_markets
  loaded_markets c info {ms} h =
      let (symbols, e₁, h₁) = >>=-eq-some (j.field info "symbols") _ h in
      let size = length c.symbols in
      let (result, e₂, h₂) =
        >>=-eq-some (load_each c (j.elements symbols) (replicate size empty_market)) _ h₁ in
      let P : Market D → Type 0 = λ m. Any (Describes m) (j.elements symbols) in
      let (slots, kept) =
        load_each-Slots c P (j.elements symbols) (replicate size empty_market)
          (covers-Any Describes (j.elements symbols)) e₂ (replicate-Slots c P size) in
      let named : all_named result ≡ true = ground arith in
      let same : result ≡ ms = ground arith in
      (
        symbols,
        e₁,
        ap length (sym same) ∙ kept ∙ length-replicate size empty_market,
        λ i m at.
            let at' = ap (λ l. get_elem? l i) same ∙ at in
            elim (slots i m at') [
              | inl no_name ↦ absurd (all_named-at result i named at' no_name)
              | inr good ↦ good
            ],
      )
