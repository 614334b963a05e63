-- ===== src/Trading.antt =====
-- The data of include/triangular/orderbook.hpp and include/triangular/execution/execution.hpp that
-- the parts of the program hand to one another.
use single_exchange_triangul.Common.{ℕ, Bool, String, List, [], ◌∷◌, Option}
use single_exchange_triangul.Common.Int.{ℤ}
use single_exchange_triangul.Common.Dict.{Dict}

pub record TradeLeg : Type 0 where
  pub index : ℕ
  pub buy : Bool

-- `std::array<A, 3>`.
pub record Triple (A : Type 0) : Type 0 where
  pub first : A
  pub second : A
  pub third : A

abbrev pub items : {A : Type 0} → Triple A → List A
items t = t.first ∷ t.second ∷ t.third ∷ []

abbrev pub thrice : {A : Type 0} → A → Triple A
thrice a = record { first = a; second = a; third = a }

abbrev pub TradePath : Type 0
TradePath = Triple TradeLeg

pub record TradeGroup : Type 0 where
  pub symbol_indices : Triple ℕ
  pub paths : TradePath × TradePath

pub record Level : Type 0 where
  pub price : ℤ
  pub qty : ℤ
  pub price_exponent : ℤ
  pub qty_exponent : ℤ

-- `book_update_id` is never negative: the decoder refuses such a message.
pub record OrderBook : Type 0 where
  pub symbol : String
  pub received_time_us : ℕ
  pub received_steady_ns : ℕ
  pub receive_sequence : ℕ
  pub book_update_id : ℕ
  pub price_exponent : ℤ
  pub qty_exponent : ℤ
  pub bid_price : ℤ
  pub bid_qty : ℤ
  pub ask_price : ℤ
  pub ask_qty : ℤ
  pub bids : List Level
  pub asks : List Level

-- Over the type `F` of `long double`.
pub record ArbitrageOpportunity (F : Type 0) : Type 0 where
  pub group_index : ℕ
  pub path : TradePath
  pub prices : Triple F
  pub quantities : Triple F
  pub book_update_ids : Triple ℕ
  pub received_steady_ns : Triple ℕ
  pub receive_sequences : Triple ℕ
  pub input_usdt : F
  pub output_usdt : F
  pub profit_usdt : F
  pub net_return : F

-- What the modelled parts read of `Config`.
pub record Config (F : Type 0) : Type 0 where
  pub max_arbitrage_usdt : F
  pub commission_taker : F
  pub edge_threshold : F
  pub trading_groups : List TradeGroup
  pub symbols : List String
  pub symbol_indices : Dict ℕ
  pub triangle_indices : List (Triple ℕ)

pub record Market (D : Type 0) : Type 0 where
  pub symbol : String
  pub base : String
  pub quote : String
  pub tick : D
  pub step : D
  pub min_qty : D
  pub max_qty : D
  pub min_price : D
  pub max_price : D
  pub min_notional : D
  pub max_notional : D

abbrev pub Snapshot : Type 0
Snapshot = List (Option OrderBook)
