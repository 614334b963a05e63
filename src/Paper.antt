-- ===== src/Paper.antt =====
-- `PaperGateway` (src/execution/paper_gateway.cpp): orders filled against the public books and a
-- simulated wallet. The tasks that it posts run one after the other, so each is one step.
pub mod Wallet
pub mod Orders
mod Tests
use text.Mathlib.Text.{◌==◌ as str_eq}
use single_exchange_triangul.Common.{
  ℕ, String, Bool, true, false, not, ◌&&◌, ◌||◌, ◌==◌, Option, none, some, List, [], ◌∷◌,
  if◌then◌else◌, get_elem?,
}
use single_exchange_triangul.Common.Int.{ℤ, pos, negsuc}
use single_exchange_triangul.Common.Dict.{Dict, find_or}
use single_exchange_triangul.Decimal.{Arith, Wire}
use single_exchange_triangul.Trading.{OrderBook, Market, Snapshot}
use single_exchange_triangul.Executor.Defs.{
  OrderRequest, OrderReport, OrderStatus, ClientId, expired, filled, rejected, same_id,
  empty_report,
}
use single_exchange_triangul.Executor.Sizing.{price_of, quantity_of, down, min_of}
use single_exchange_triangul.Executor.Cycle.{add_to, take_from, touch, spends}

-- The members that the constructor sets and no task changes.
pub record Exchange (D : Type 0) : Type 0 where
  pub markets : List (Market D)
  pub fee : D

-- What was taken from one side of one book; `update_id` is -1 at first.
pub record Liquidity (D : Type 0) : Type 0 where
  pub update_id : ℤ
  pub used : D

pub record Usage (D : Type 0) : Type 0 where
  pub index : ℕ
  pub side : Bool
  pub liquidity : Liquidity D

pub record Paper (D : Type 0) : Type 0 where
  pub wallet : Dict D
  pub orders : List (OrderReport D)
  pub consumed : List (Usage D)

-- `orders`, by the client id of each report.
unfoldable pub find_order : {D : Type 0} → ClientId → List (OrderReport D) → Option (OrderReport D)
find_order id [] = none
find_order id (r ∷ rs) = if same_id r.client_id id then some r else find_order id rs

abbrev pub same_side : Bool → Bool → Bool
same_side true b = b
same_side false b = not b

-- `consumed[{index, side}]`, where a missing entry is fresh.
unfoldable pub find_usage : {D : Type 0} ⦃a : Arith D⦄ → ℕ → Bool → List (Usage D) → Liquidity D
find_usage ⦃a⦄ index side [] = record { update_id = negsuc 0; used = a.nought }
find_usage index side (x ∷ xs) =
    if x.index == index && same_side x.side side then x.liquidity else find_usage index side xs

unfoldable pub put_usage : {D : Type 0} → ℕ → Bool → Liquidity D → List (Usage D) → List (Usage D)
put_usage index side l [] = record { index = index; side = side; liquidity = l } ∷ []
put_usage index side l (x ∷ xs) =
    if x.index == index && same_side x.side side
    then record x { liquidity = l } ∷ xs
    else x ∷ put_usage index side l xs

abbrev pub is_update : ℤ → ℕ → Bool
is_update (pos n) id = n == id
is_update (negsuc n) id = false

module _ {D : Type 0} ⦃a : Arith D⦄ where
  -- A balance that the constructor takes.
  unfoldable pub balances_ok : Dict D → Bool
  balances_ok [] = true
  balances_ok ((asset, amount) ∷ rest) =
      not (str_eq asset "") && a.finite amount && not (a.lt amount a.nought) && balances_ok rest

  -- The tests of the constructor, which throws where they fail.
  unfoldable pub paper_ok : Exchange D → Dict D → Bool
  unfolding balances_ok
  paper_ok x wallet =
      a.finite x.fee && not (a.lt x.fee a.nought) && not (a.le a.one x.fee) && balances_ok wallet

  -- The exchange's filters.
  unfoldable pub order_invalid : Market D → D → D → Bool
  unfolding down
  order_invalid m quantity limit =
      a.le quantity a.nought
      || a.le limit a.nought
      || not (a.finite quantity)
      || not (a.finite limit)
      || not (a.eq (down quantity m.step) quantity)
      || not (a.eq (down limit m.tick) limit)
      || a.lt quantity m.min_qty
      || (a.lt a.nought m.max_qty && a.lt m.max_qty quantity)
      || (a.lt a.nought m.min_price && a.lt limit m.min_price)
      || (a.lt a.nought m.max_price && a.lt m.max_price limit)
      || a.lt (a.times quantity limit) m.min_notional
      || (a.lt a.nought m.max_notional && a.lt m.max_notional (a.times quantity limit))

  -- A report with no fill.
  unfoldable pub unfilled : OrderRequest → OrderStatus → OrderReport D
  unfilled q status = record empty_report { client_id = q.client_id; revision = 1; status = status }

  abbrev pub receives : Market D → Bool → String
  receives m buy = if buy then m.base else m.quote

  -- The part behind the test of the price and the liquidity.
  unfoldable pub trade :
      Exchange D
      → OrderRequest
      → Market D
      → D
      → D
      → D
      → Liquidity D
      → Paper D
      → Paper D × OrderReport D
  unfolding down unfilled touch add_to take_from put_usage
  trade x q m quantity price available usage s =
      let base = down (min_of quantity available) m.step in
      let quote = a.times base price in
      let spend = spends m q.buy in
      let cost = if q.buy then quote else base in
      let proceeds = if q.buy then base else quote in
      if a.le base a.nought
      then (s, unfilled q rejected)
      else if a.lt (find_or a.nought spend s.wallet) cost
      then (record s { wallet = touch spend s.wallet }, unfilled q rejected)
      else (
        record s {
          wallet =
              add_to (receives m q.buy) (a.times proceeds (a.minus a.one x.fee))
                (take_from spend cost s.wallet);
          consumed =
              put_usage q.symbol_index q.buy (record usage { used = a.plus usage.used base })
                s.consumed;
        },
        record (unfilled q (if a.eq base quantity then filled else expired)) {
          filled_qty = base;
          filled_quote = quote;
          commissions = (receives m q.buy, a.times proceeds x.fee) ∷ [];
        },
      )

  -- The usage of a side: a new book is untouched.
  unfoldable pub usage_of : OrderBook → Liquidity D → Liquidity D
  usage_of book l =
      if is_update l.update_id book.book_update_id
      then l
      else record { update_id = pos book.book_update_id; used = a.nought }

  -- The part behind the choice of the book.
  unfoldable pub match_order :
      Exchange D → OrderRequest → Market D → D → D → OrderBook → Paper D → Paper D × OrderReport D
  unfolding usage_of find_usage put_usage price_of quantity_of unfilled trade
  match_order x q m quantity limit book s =
      let price = price_of book q.buy in
      let usage = usage_of book (find_usage q.symbol_index q.buy s.consumed) in
      let available = a.minus (quantity_of book q.buy) usage.used in
      let seen = record s { consumed = put_usage q.symbol_index q.buy usage s.consumed } in
      if a.le price a.nought
        || a.le available a.nought
        || (if q.buy then a.lt limit price else a.lt price limit)
        || (not q.initial_clear && a.lt available quantity)
      then (seen, unfilled q expired)
      else trade x q m quantity price available usage seen

  module _ ⦃w : Wire D⦄ where
    -- The body of the `try`. An exception of `at` leaves a report of `Rejected`.
    unfoldable pub place : Exchange D → Snapshot → OrderRequest → Paper D → Paper D × OrderReport D
    unfolding order_invalid match_order unfilled
    place x snapshot q s =
        let quantity = w.of_text q.quantity in
        let limit = w.of_text q.price in
        elim (get_elem? x.markets q.symbol_index) [
          | none ↦ (s, unfilled q rejected)
          | some m ↦
              if order_invalid m quantity limit
              then (s, unfilled q rejected)
              else elim (get_elem? snapshot q.symbol_index) [
                | none ↦ (s, unfilled q rejected)
                | some slot ↦ elim slot [
                  | none ↦ (s, unfilled q rejected)
                  | some book ↦ match_order x q m quantity limit book s
                ]
              ]
        ]

    -- `fill`.
    unfoldable pub fill : Exchange D → Snapshot → OrderRequest → Paper D → Paper D × OrderReport D
    fill x snapshot q s = elim (find_order q.client_id s.orders) [
      | some r ↦ (s, r)
      | none ↦ let (t, r) = place x snapshot q s in (record t { orders = r ∷ t.orders }, r)
    ]

  -- `query`, and `cancel`, which is the same.
  unfoldable pub query : OrderRequest → Paper D → OrderReport D
  unfolding find_order
  query q s = elim (find_order q.client_id s.orders) [
    | some r ↦ r
    | none ↦ record empty_report { client_id = q.client_id }
  ]

  -- The `submit` tasks of a run, each with the books that it sees.
  unfoldable pub fill_all :
      ⦃w : Wire D⦄ → Exchange D → List (Snapshot × OrderRequest) → Paper D → Paper D
  unfolding fill
  fill_all x [] s = s
  fill_all x ((snapshot, q) ∷ qs) s = fill_all x qs (fill x snapshot q s).0
