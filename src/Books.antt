-- ===== src/Books.antt =====
-- `OrderBookManager` (src/orderbook.cpp): the latest book of each symbol, and the scan for an edge.
-- Each method holds the lock throughout, so it is one step.
pub mod Slots
pub mod Scan
mod Tests
use single_exchange_triangul.Common.{
  ℕ, String, Bool, true, false, not, ◌&&◌, ◌||◌, ◌==◌, leb, Option, none, some, List, [], ◌∷◌,
  if◌then◌else◌, get_elem?, set, replicate, length, ◌>>=◌, inc64, ◌+◌,
}
use single_exchange_triangul.Common.Int.{ℤ, pos, leb_ℤ}
use single_exchange_triangul.Common.Dict.{Dict, lookup}
use single_exchange_triangul.Decimal.{Arith}
use single_exchange_triangul.Trading.{
  TradeLeg, Triple, TradePath, TradeGroup, OrderBook, ArbitrageOpportunity, Config, Snapshot, items,
}

pub record Books (F : Type 0) : Type 0 where
  pub indices : Dict ℕ
  pub orderbooks : Snapshot
  pub groups : List TradeGroup
  pub max_arbitrage_usdt : F
  pub fee_multiplier : F
  pub edge_threshold : F
  pub populated : ℕ
  pub received : ℕ

-- `std::find` on the indices of a group.
unfoldable pub has_index : ℕ → List ℕ → Bool
has_index i [] = false
has_index i (j ∷ js) = j == i || has_index i js

-- The tests of the constructor on a group.
unfoldable pub in_range : ℕ → List ℕ → Bool
in_range n [] = true
in_range n (i ∷ is) = not (leb n i) && in_range n is

unfoldable pub legs_listed : List ℕ → List TradeLeg → Bool
unfolding has_index
legs_listed is [] = true
legs_listed is (leg ∷ legs) = has_index leg.index is && legs_listed is legs

unfoldable pub group_ok : ℕ → TradeGroup → Bool
unfolding in_range legs_listed
group_ok n g =
    in_range n (items g.symbol_indices)
    && legs_listed (items g.symbol_indices) (items (g.paths.0))
    && legs_listed (items g.symbol_indices) (items (g.paths.1))

unfoldable pub groups_ok : ℕ → List TradeGroup → Bool
groups_ok n [] = true
groups_ok n (g ∷ gs) = group_ok n g && groups_ok n gs

-- What one leg of a path adds to a candidate.
pub record Quote (F : Type 0) : Type 0 where
  pub book : OrderBook
  pub rate : F
  pub base_qty : F
  pub output : F
  pub limit : F

module _ {F : Type 0} ⦃f : Arith F⦄ where
  -- The constructor; `none` is an exception.
  unfoldable pub new_books : Config F → Option (Books F)
  new_books c =
      let fee = f.minus f.one c.commission_taker in
      if not (f.finite c.max_arbitrage_usdt)
        || f.le c.max_arbitrage_usdt f.nought
        || not (f.finite fee)
        || f.le fee f.nought
        || f.lt f.one fee
        || not (f.finite c.edge_threshold)
        || f.lt c.edge_threshold f.nought
        || not (groups_ok (length c.symbols) c.trading_groups)
      then none
      else some (record {
        indices = c.symbol_indices;
        orderbooks = replicate (length c.symbols) none;
        groups = c.trading_groups;
        max_arbitrage_usdt = c.max_arbitrage_usdt;
        fee_multiplier = fee;
        edge_threshold = c.edge_threshold;
        populated = 0;
        received = 0;
      })

  -- The rounds of the loop over the legs: `none` where the path is not available.
  unfoldable pub positive : F → Bool
  positive x = f.finite x && not (f.le x f.nought)

  unfoldable pub quote_leg : F → OrderBook → TradeLeg → F → F → Option (Quote F)
  unfolding positive
  quote_leg fee book leg output limit =
      let price = if leg.buy then book.ask_price else book.bid_price in
      let qty = if leg.buy then book.ask_qty else book.bid_qty in
      let rate = f.times (f.of_int price) (f.pow10 book.price_exponent) in
      let liquidity = f.times (f.of_int qty) (f.pow10 book.qty_exponent) in
      let base_qty = if leg.buy then f.over output rate else output in
      let capacity = f.over liquidity base_qty in
      if leb_ℤ price (pos 0) || leb_ℤ qty (pos 0)
      then none
      else if positive rate && positive liquidity && positive base_qty
      then some (record {
        book = book;
        rate = rate;
        base_qty = base_qty;
        output = f.times (if leg.buy then base_qty else f.times base_qty rate) fee;
        limit = if f.lt capacity limit then capacity else limit;
      })
      else none

  -- The slot of a leg: the tests of the constructor keep it in range.
  unfoldable pub scan_leg : Books F → TradeLeg → F → F → Option (Quote F)
  scan_leg b leg output limit = do
    slot ← get_elem? b.orderbooks leg.index
    book ← slot
    quote_leg b.fee_multiplier book leg output limit

  -- The candidate of a path, before the tests on its return.
  unfoldable pub candidate_of : ℕ → TradePath → Quote F → Quote F → Quote F → ArbitrageOpportunity F
  candidate_of group_index path x y z =
      let output = f.times z.limit z.output in
      record {
        group_index = group_index;
        path = path;
        prices = record { first = x.rate; second = y.rate; third = z.rate };
        quantities = record {
          first = f.times x.base_qty z.limit;
          second = f.times y.base_qty z.limit;
          third = f.times z.base_qty z.limit;
        };
        book_update_ids = record {
          first = x.book.book_update_id;
          second = y.book.book_update_id;
          third = z.book.book_update_id;
        };
        received_steady_ns = record {
          first = x.book.received_steady_ns;
          second = y.book.received_steady_ns;
          third = z.book.received_steady_ns;
        };
        receive_sequences = record {
          first = x.book.receive_sequence;
          second = y.book.receive_sequence;
          third = z.book.receive_sequence;
        };
        input_usdt = z.limit;
        output_usdt = output;
        profit_usdt = f.minus output z.limit;
        net_return = f.minus z.output f.one;
      }

  -- The tests on a candidate.
  unfoldable pub worthwhile : Books F → F → ArbitrageOpportunity F → Bool
  unfolding positive
  worthwhile b output x =
      f.finite output
      && not (f.le x.net_return b.edge_threshold)
      && positive x.input_usdt
      && f.finite x.output_usdt
      && positive x.quantities.first
      && positive x.quantities.second
      && positive x.quantities.third

  unfoldable pub scan_path : Books F → ℕ → TradePath → Option (ArbitrageOpportunity F)
  scan_path b group_index path = do
    x ← scan_leg b path.first f.one b.max_arbitrage_usdt
    y ← scan_leg b path.second x.output x.limit
    z ← scan_leg b path.third y.output y.limit
    let candidate = candidate_of group_index path x y z
    if worthwhile b z.output candidate then some candidate else none

  unfoldable pub scan_group : Books F → ℕ → TradeGroup → Option (ArbitrageOpportunity F)
  scan_group b group_index group = elim (scan_path b group_index (group.paths.0)) [
    | some x ↦ some x
    | none ↦ scan_path b group_index (group.paths.1)
  ]

  -- The loop over the groups, from `group_index` on.
  unfoldable pub scan_groups : Books F → ℕ → ℕ → List TradeGroup → Option (ArbitrageOpportunity F)
  scan_groups b index group_index [] = none
  scan_groups b index group_index (group ∷ groups) =
      let rest = scan_groups b index (group_index + 1) groups in
      if has_index index (items group.symbol_indices)
      then elim (scan_group b group_index group) [ some x ↦ some x | none ↦ rest ]
      else rest

  -- `scan_edge`: the outer `none` is `std::out_of_range`, the inner one the answer `false`.
  unfoldable pub scan_edge : Books F → ℕ → Option (Option (ArbitrageOpportunity F))
  scan_edge b index =
      if leb (length b.orderbooks) index then none else some (scan_groups b index 0 b.groups)

module _ {F : Type 0} where
  unfoldable pub index_of : Books F → String → Option ℕ
  index_of b symbol = lookup symbol b.indices

  unfoldable pub update : ℕ → OrderBook → Books F → Option (Books F)
  update index orderbook b = do
    slot ← get_elem? b.orderbooks index
    some (record b {
      orderbooks = set b.orderbooks index (some orderbook);
      populated = elim slot [ none ↦ b.populated + 1 | some old ↦ b.populated ];
      received = inc64 b.received;
    })

  unfoldable pub get : Books F → ℕ → Option (Option OrderBook)
  get b index = get_elem? b.orderbooks index

  -- `stats`: symbols, populated, received.
  unfoldable pub stats : Books F → Triple ℕ
  stats b = record { first = length b.orderbooks; second = b.populated; third = b.received }

  -- The updates of a run.
  unfoldable pub update_all : List (ℕ × OrderBook) → Books F → Option (Books F)
  update_all [] b = some b
  update_all ((i, x) ∷ us) b = update i x b >>= update_all us
