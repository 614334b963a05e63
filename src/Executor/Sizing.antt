-- ===== src/Executor/Sizing.antt =====
-- How `ArbitrageExecutor` prices and sizes an order (src/execution/execution.cpp): `fresh`, `valid`,
-- `prepare_from_book` and `prepare_fast`.
use single_exchange_triangul.Common.{
  ℕ, ◌-◌, ◌*◌, String, Bool, false, not, ◌&&◌, Option, none, some, [], ◌∷◌, ltb, leb, if◌then◌else◌,
  get_elem?, ◌>>=◌, is_some,
}
use single_exchange_triangul.Decimal.{Arith, Wire, Widen, decimal_text}
use single_exchange_triangul.Trading.{
  TradeLeg, OrderBook, ArbitrageOpportunity, Market, Snapshot, items,
}
use single_exchange_triangul.Executor.Defs.{OrderRequest, Options, Setup, blank}

-- `fresh`, at a reading of the clock. Steady times are counted from the start of the machine, so
-- they are not negative.
unfoldable pub fresh : Options → ℕ → OrderBook → Bool
fresh o now book =
    ltb 0 book.received_steady_ns
    && leb book.received_steady_ns now
    && leb (now - book.received_steady_ns) (o.max_book_age * 1_000_000)

-- What `prepare_from_book` answers: an order, or the code in `detail`.
pub data Prepared : Type 0 where
  refused : String → Prepared
  prepared : OrderRequest → Prepared

module _ {D : Type 0} ⦃a : Arith D⦄ where
  open a use {nought, of_int, pow10, times, over, floor, ceil, lt, le, eq, plus}

  unfoldable pub price_of : OrderBook → Bool → D
  price_of book buy =
      times (of_int (if buy then book.ask_price else book.bid_price)) (pow10 book.price_exponent)

  unfoldable pub quantity_of : OrderBook → Bool → D
  quantity_of book buy =
      times (of_int (if buy then book.ask_qty else book.bid_qty)) (pow10 book.qty_exponent)

  -- `down`.
  unfoldable pub down : D → D → D
  down value step = times (floor (over value step)) step

  -- `std::min`.
  abbrev pub min_of : D → D → D
  min_of x y = if lt y x then y else x

  -- The `code` of `valid`; `none` is a null pointer, where `valid` answers true.
  unfoldable pub invalid_code : Market D → D → D → Option String
  invalid_code m price quantity =
      if le price nought
      then some "nonpositive_price"
      else if le quantity nought
      then some "nonpositive_quantity"
      else if not (eq m.min_price nought) && lt price m.min_price
      then some "price_below_min"
      else if not (eq m.max_price nought) && lt m.max_price price
      then some "price_above_max"
      else if lt quantity m.min_qty
      then some "quantity_below_min"
      else if not (eq m.max_qty nought) && lt m.max_qty quantity
      then some "quantity_above_max"
      else if lt (times price quantity) m.min_notional
      then some "notional_below_min"
      else if not (eq m.max_notional nought) && lt m.max_notional (times price quantity)
      then some "notional_above_max"
      else none

  module _ ⦃w : Wire D⦄ where
    abbrev pub request : TradeLeg → D → D → Bool → OrderRequest
    request leg price quantity initial_clear = record {
      client_id = record { cycle = blank; number = 0 };
      symbol_index = leg.index;
      buy = leg.buy;
      price = decimal_text price;
      quantity = decimal_text quantity;
      initial_clear = initial_clear;
    }

    -- The price and quantity of `prepare_from_book`.
    unfoldable pub book_price : Market D → OrderBook → Bool → D
    unfolding price_of down
    book_price m book buy =
        let raw = price_of book buy in
        if buy then times (ceil (over raw m.tick)) m.tick else down raw m.tick

    unfoldable pub book_quantity : Market D → OrderBook → Bool → D → D → Bool → D
    unfolding quantity_of down
    book_quantity m book buy price amount initial_clear =
        let quantity = down (if buy then over amount price else amount) m.step in
        if initial_clear then down (min_of quantity (quantity_of book buy)) m.step else quantity

    -- The part of `prepare_from_book` behind the market and the fresh book.
    unfoldable pub prepare_at : Market D → OrderBook → TradeLeg → D → Bool → Prepared
    unfolding book_price book_quantity quantity_of invalid_code
    prepare_at m book leg amount initial_clear =
        let price = book_price m book leg.buy in
        let quantity = book_quantity m book leg.buy price amount initial_clear in
        elim (invalid_code m price quantity) [
          | some code ↦ refused code
          | none ↦
              if lt (quantity_of book leg.buy) quantity
              then refused "insufficient_top_level_liquidity"
              else prepared (request leg price quantity initial_clear)
        ]

    -- `prepare_from_book`; `none` where `at` throws.
    unfoldable pub prepare_from_book :
        {F : Type 0} → Setup D F → ℕ → TradeLeg → D → Bool → Snapshot → Option Prepared
    unfolding fresh prepare_at
    prepare_from_book u now leg amount initial_clear snapshot = do
      slot ← get_elem? snapshot leg.index
      elim slot [
        | none ↦ some (refused "missing_orderbook")
        | some book ↦
            if fresh u.options now book
            then get_elem? u.markets leg.index
              >>= (λ m. some (prepare_at m book leg amount initial_clear))
            else some (refused "stale_orderbook")
      ]

    -- `floor(scanned / tick + Decimal("0.5")) * tick`.
    unfoldable pub accepted_price : Market D → D → D
    accepted_price m scanned =
        times (floor (plus (over scanned m.tick) (w.of_text (b'0' ∷ b'.' ∷ b'5' ∷ [])))) m.tick

    -- The part of `prepare_fast` behind the market and the scanned price.
    unfoldable pub size_fast : Market D → D → TradeLeg → D → Option OrderRequest
    unfolding accepted_price down invalid_code
    size_fast m scanned leg amount =
        let price = accepted_price m scanned in
        let quantity = down (if leg.buy then over amount price else amount) m.step in
        if is_some (invalid_code m price quantity)
        then none
        else some (request leg price quantity false)

    -- `prepare_fast`: the outer `none` is the exception of `at`, the inner one an order refused.
    unfoldable pub prepare_fast :
        {F : Type 0} ⦃c : Widen F D⦄
        → Setup D F
        → ArbitrageOpportunity F
        → TradeLeg
        → D
        → ℕ
        → Option (Option OrderRequest)
    unfolding size_fast
    prepare_fast ⦃c⦄ u o leg amount path_leg = do
      m ← get_elem? u.markets leg.index
      scanned ← get_elem? (items o.prices) path_leg
      some (size_fast m (c.of_float scanned) leg amount)
