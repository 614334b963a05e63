-- ===== src/Samples.antt =====
-- A small world to run the models in: integers for `Decimal` and for `long double`, and three markets.
use single_exchange_triangul.Common.{
  ℕ, ◌+◌, ◌-◌, ◌*◌, ◌/◌, ◌^◌, String, Bool, true, false, Option, some, List, [], ◌∷◌,
}
use single_exchange_triangul.Common.Int.{ℤ, pos, negsuc, pos_part, neg_part, sub_ℕ, ltb_ℤ, leb_ℤ}
use single_exchange_triangul.Common.{arith}
use single_exchange_triangul.Executor.Defs.{Setup}
use single_exchange_triangul.Books.Scan.{StrictOrder}
use mathlib.Core.Bool.{◌&&◌}
use single_exchange_triangul.Decimal.{Arith, Wire, Widen, Text}
use single_exchange_triangul.Trading.{
  TradeLeg, TradePath, TradeGroup, OrderBook, ArbitrageOpportunity, Config, Market, thrice,
}

-- Division towards zero; by zero it is zero.
abbrev pub quotient : ℤ → ℤ → ℤ
quotient (pos a) (pos b) = pos (a / b)
quotient (pos a) (negsuc b) = sub_ℕ 0 (a / (b + 1))
quotient (negsuc a) (pos b) = sub_ℕ 0 ((a + 1) / b)
quotient (negsuc a) (negsuc b) = pos ((a + 1) / (b + 1))

abbrev pub power : ℤ → ℤ
power (pos n) = pos (10 ^ n)
power (negsuc n) = pos 0

instance abbrev pub whole : Arith ℤ
whole = record {
  nought = pos 0;
  one = pos 1;
  of_int = λ z. z;
  pow10 = power;
  plus = λ x y. sub_ℕ (pos_part x + pos_part y) (neg_part x + neg_part y);
  minus = λ x y. sub_ℕ (pos_part x + neg_part y) (neg_part x + pos_part y);
  times = λ x y.
      sub_ℕ (pos_part x * pos_part y + neg_part x * neg_part y)
        (pos_part x * neg_part y + neg_part x * pos_part y);
  over = quotient;
  negate = λ x. sub_ℕ (neg_part x) (pos_part x);
  floor = λ z. z;
  ceil = λ z. z;
  lt = ltb_ℤ;
  le = leb_ℤ;
  eq = λ x y. leb_ℤ x y && leb_ℤ y x;
  finite = λ z. true;
}

-- One digit before the point.
abbrev pub digit : ℤ → Text
digit (pos n) = (b'0' + n) ∷ b'.' ∷ b'0' ∷ b'0' ∷ []
digit (negsuc n) = b'-' ∷ (b'1' + n) ∷ []

abbrev pub undigit : Text → ℤ
undigit [] = pos 0
undigit (c ∷ _) = pos (c - b'0')

instance abbrev pub digits : Wire ℤ
digits = record { fixed40 = digit; of_text = undigit }

instance abbrev pub same_whole : Widen ℤ ℤ
same_whole = record { of_float = λ z. z; dump = digit }

abbrev pub market : String → String → String → Market ℤ
market symbol base quote = record {
  symbol = symbol;
  base = base;
  quote = quote;
  tick = pos 1;
  step = pos 1;
  min_qty = pos 1;
  max_qty = pos 0;
  min_price = pos 0;
  max_price = pos 0;
  min_notional = pos 1;
  max_notional = pos 0;
}

abbrev pub markets : List (Market ℤ)
markets =
    market "BTCUSDT" "BTC" "USDT" ∷ market "ETHBTC" "ETH" "BTC" ∷ market "ETHUSDT" "ETH" "USDT" ∷ []

-- A book with both sides at one price.
abbrev pub book_at : String → ℕ → OrderBook
book_at symbol price = record {
  symbol = symbol;
  received_time_us = 1;
  received_steady_ns = 5;
  receive_sequence = 1;
  book_update_id = 7;
  price_exponent = pos 0;
  qty_exponent = pos 0;
  bid_price = pos price;
  bid_qty = pos 9;
  ask_price = pos price;
  ask_qty = pos 9;
  bids = [];
  asks = [];
}

abbrev pub leg : ℕ → Bool → TradeLeg
leg index buy = record { index = index; buy = buy }

-- Into BTC, into ETH, back into USDT; and the other way round.
abbrev pub forth : TradePath
forth = record { first = leg 0 true; second = leg 1 true; third = leg 2 false }

abbrev pub back : TradePath
back = record { first = leg 2 true; second = leg 1 false; third = leg 0 false }

abbrev pub group : TradeGroup
group = record {
  symbol_indices = record { first = 0; second = 1; third = 2 };
  paths = (forth, back);
}

abbrev pub config : Config ℤ
config = record {
  max_arbitrage_usdt = pos 8;
  commission_taker = pos 0;
  edge_threshold = pos 0;
  trading_groups = group ∷ [];
  symbols = "BTCUSDT" ∷ "ETHBTC" ∷ "ETHUSDT" ∷ [];
  symbol_indices = ("BTCUSDT", 0) ∷ ("ETHBTC", 1) ∷ ("ETHUSDT", 2) ∷ [];
  triangle_indices = group.symbol_indices ∷ [];
}

abbrev pub opportunity : ArbitrageOpportunity ℤ
opportunity = record {
  group_index = 0;
  path = forth;
  prices = record { first = pos 2; second = pos 1; third = pos 3 };
  quantities = record { first = pos 4; second = pos 4; third = pos 4 };
  book_update_ids = thrice 7;
  received_steady_ns = thrice 5;
  receive_sequences = thrice 1;
  input_usdt = pos 8;
  output_usdt = pos 12;
  profit_usdt = pos 4;
  net_return = pos 0;
}

-- The snapshot of the three books.
abbrev pub books : List (Option OrderBook)
books = some (book_at "BTCUSDT" 2) ∷ some (book_at "ETHBTC" 1) ∷ some (book_at "ETHUSDT" 3) ∷ []

-- The laws of `<` on the integers.
pub whole-StrictOrder : StrictOrder whole
whole-StrictOrder = record {
  irreflexive = λ x. ground arith;
  transitive = λ x y z h k. ground arith;
}

abbrev pub setup : Setup ℤ ℤ
setup = record {
  config = config;
  markets = markets;
  options = record {
    max_book_age = 1;
    execution_timeout = 1;
    initial_cleanup_wait = 1;
    max_initial_clear_orders = 2;
    max_cycles = 1;
  };
}
