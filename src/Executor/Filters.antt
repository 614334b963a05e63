-- ===== src/Executor/Filters.antt =====
-- The exchange's filters on the orders that the executor prepares (src/execution/execution.cpp).
use mathlib.Core.Option.{some-injective}
use single_exchange_triangul.Common.{
  ℕ, refl, ◌≡◌, ◌⊎◌, inl, inr, Bool, true, false, Option, none, some, arith, Option-cases,
  Bool-cases, get_elem?, ◌>>=◌, >>=-eq-some, if◌then◌else◌,
}
use single_exchange_triangul.Decimal.{Arith, Wire, Widen, Text, decimal_text}
use single_exchange_triangul.Trading.{
  TradeLeg, OrderBook, Market, Snapshot, ArbitrageOpportunity, items,
}
use single_exchange_triangul.Executor.Defs.{Setup, OrderRequest}
use single_exchange_triangul.Executor.Sizing.{
  prepared, refused, fresh, invalid_code, down, book_price, book_quantity, accepted_price,
  prepare_at, prepare_from_book, size_fast, prepare_fast,
}

-- The bounds of PRICE_FILTER, LOT_SIZE and the notional filters, where one of zero counts as absent.
pub record Bounded {D : Type 0} ⦃a : Arith D⦄ (m : Market D) (price quantity : D) : Type 0 where
  pub price_positive : a.le price a.nought ≡ false
  pub quantity_positive : a.le quantity a.nought ≡ false
  pub price_min : (a.eq m.min_price a.nought ≡ true) ⊎ (a.lt price m.min_price ≡ false)
  pub price_max : (a.eq m.max_price a.nought ≡ true) ⊎ (a.lt m.max_price price ≡ false)
  pub quantity_min : a.lt quantity m.min_qty ≡ false
  pub quantity_max : (a.eq m.max_qty a.nought ≡ true) ⊎ (a.lt m.max_qty quantity ≡ false)
  pub notional_min : a.lt (a.times price quantity) m.min_notional ≡ false
  pub notional_max :
      (a.eq m.max_notional a.nought ≡ true) ⊎ (a.lt m.max_notional (a.times price quantity) ≡ false)

-- A whole number of steps: a number that `floor` or `ceil` gives, times the step.
abbrev pub Aligned : {D : Type 0} ⦃a : Arith D⦄ → D → D → Type 0
Aligned {D} ⦃a⦄ step value =
    (x : D) × ((value ≡ a.times (a.floor x) step) ⊎ (value ≡ a.times (a.ceil x) step))

-- The filters, with the tick of the price and the step of the quantity.
pub record Admitted {D : Type 0} ⦃a : Arith D⦄ (m : Market D) (price quantity : D) : Type 0 where
  pub bounds : Bounded m price quantity
  pub tick : Aligned m.tick price
  pub step : Aligned m.step quantity

invalid_code-Bounded :
    {D : Type 0} ⦃a : Arith D⦄ (m : Market D) (price quantity : D)
    → invalid_code m price quantity ≡ none
    → Bounded m price quantity
unfolding invalid_code
invalid_code-Bounded m price quantity e = ground arith

module _ {D : Type 0} ⦃a : Arith D⦄ ⦃w : Wire D⦄ (m : Market D) where
  book_price-Aligned : (book : OrderBook) (buy : Bool) → Aligned m.tick (book_price m book buy)
  unfolding book_price down
  book_price-Aligned book true = (_, inr refl)
  book_price-Aligned book false = (_, inl refl)

  book_quantity-Aligned :
      (book : OrderBook) (buy : Bool) (price amount : D) (clear : Bool)
      → Aligned m.step (book_quantity m book buy price amount clear)
  unfolding book_quantity down
  book_quantity-Aligned book buy price amount true = (_, inl refl)
  book_quantity-Aligned book buy price amount false = (_, inl refl)

  accepted_price-Aligned : (scanned : D) → Aligned m.tick (accepted_price m scanned)
  unfolding accepted_price
  accepted_price-Aligned scanned = (_, inl refl)

  down-Aligned : (value : D) → Aligned m.step (down value m.step)
  unfolding down
  down-Aligned value = (_, inl refl)

module _ {D F : Type 0} ⦃a : Arith D⦄ ⦃w : Wire D⦄ (u : Setup D F) where
  -- The texts are those of a price and a quantity that the market at the index admits.
  pub Fit : ℕ → Text → Text → Type 0
  Fit index price quantity =
      (m : Market D) × (p : D) × (q : D) × (get_elem? u.markets index ≡ some m)
      × (price ≡ decimal_text p)
      × (quantity ≡ decimal_text q)
      × Admitted m p q

  abbrev pub Placed : OrderRequest → Type 0
  Placed o = Fit o.symbol_index o.price o.quantity

  prepare_at-Placed :
      (m : Market D) (book : OrderBook) (leg : TradeLeg) (amount : D) (clear : Bool)
      {o : OrderRequest}
      → get_elem? u.markets leg.index ≡ some m
      → prepare_at m book leg amount clear ≡ prepared o
      → Placed o
  unfolding prepare_at Fit
  prepare_at-Placed m book leg amount clear {o} at e =
      let price = book_price m book leg.buy in
      let quantity = book_quantity m book leg.buy price amount clear in
      elim (Option-cases (invalid_code m price quantity)) [
        | inr (code, bad) ↦ ground arith
        | inl ok ↦ (
          m,
          price,
          quantity,
          ground arith,
          ground arith,
          ground arith,
          record {
            bounds = invalid_code-Bounded m price quantity ok;
            tick = book_price-Aligned m book leg.buy;
            step = book_quantity-Aligned m book leg.buy price amount clear;
          },
        )
      ]

  -- What `prepare_from_book` prepares from a snapshot fits the market's filters.
  pub prepare_from_book-Placed :
      (now : ℕ) (leg : TradeLeg) (amount : D) (clear : Bool) (snapshot : Snapshot)
      {o : OrderRequest}
      → prepare_from_book u now leg amount clear snapshot ≡ some (prepared o)
      → Placed o
  unfolding prepare_from_book
  prepare_from_book-Placed now leg amount clear snapshot {o} e =
      let (slot, _, rest) = >>=-eq-some (get_elem? snapshot leg.index) _ e in go slot rest
    where
      go :
          (slot : Option OrderBook)
          → elim slot [
            | none ↦ some (refused "missing_orderbook")
            | some book ↦
                if fresh u.options now book
                then get_elem? u.markets leg.index
                  >>= (λ m. some (prepare_at m book leg amount clear))
                else some (refused "stale_orderbook")
          ]
            ≡ some (prepared o)
          → Placed o
      go none e' = cc
      go (some book) e' = elim (Bool-cases (fresh u.options now book)) [
        | inr stale ↦ ground arith
        | inl recent ↦ elim (Option-cases (get_elem? u.markets leg.index)) [
          | inl missing ↦ ground arith
          | inr (m, at) ↦ prepare_at-Placed m book leg amount clear {o = o} at (ground arith)
        ]
      ]

  size_fast-Placed :
      (m : Market D) (scanned : D) (leg : TradeLeg) (amount : D) {o : OrderRequest}
      → get_elem? u.markets leg.index ≡ some m
      → size_fast m scanned leg amount ≡ some o
      → Placed o × (o.initial_clear ≡ false)
  unfolding size_fast Fit
  size_fast-Placed m scanned leg amount {o} at e =
      let price = accepted_price m scanned in
      let quantity = down (if leg.buy then a.over amount price else amount) m.step in
      elim (Option-cases (invalid_code m price quantity)) [
        | inr (code, bad) ↦ absurd (ground arith)
        | inl ok ↦ (
          (
            m,
            price,
            quantity,
            ground arith,
            ground arith,
            ground arith,
            record {
              bounds = invalid_code-Bounded m price quantity ok;
              tick = accepted_price-Aligned m scanned;
              step = down-Aligned m (if leg.buy then a.over amount price else amount);
            },
          ),
          ground arith,
        )
      ]

  -- So does what `prepare_fast` prepares from the accepted prices.
  pub prepare_fast-Placed :
      ⦃c : Widen F D⦄ (x : ArbitrageOpportunity F) (leg : TradeLeg) (amount : D) (i : ℕ)
      {o : OrderRequest}
      → prepare_fast u x leg amount i ≡ some (some o)
      → Placed o × (o.initial_clear ≡ false)
  unfolding prepare_fast
  prepare_fast-Placed ⦃c⦄ x leg amount i {o} e =
      let (m, at, e₁) = >>=-eq-some (get_elem? u.markets leg.index) _ e in
      let (f, _, e₂) = >>=-eq-some (get_elem? (items x.prices) i) _ e₁ in
      size_fast-Placed m (c.of_float f) leg amount at (some-injective _ _ e₂)
