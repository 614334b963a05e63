-- ===== src/Prices/Tests.antt =====
-- Runs of the decimal parser's model (src/orderbook.cpp).
use single_exchange_triangul.Common.{◌≡◌, refl, ◌⊎◌, ◌≤◌, some, [], ◌∷◌}
use single_exchange_triangul.Decimal.{Text}
use single_exchange_triangul.Common.{arith}
use single_exchange_triangul.Prices.{
  Parsed, Pair, decimal, decimal_from, add_digit, rescale, decimal_pair,
}
use single_exchange_triangul.Prices.Reading.{decimal_reads}
use single_exchange_triangul.Prices.Value.{Rescaled, decimal_pair_exact}

-- "1.25" and "3".
abbrev bid : Text
bid = b'1' ∷ b'.' ∷ b'2' ∷ b'5' ∷ []

abbrev ask : Text
ask = b'3' ∷ []

abbrev pair : Pair
pair = record { bid_value = 125; ask_value = 300; scale = 2 }

pair_read : decimal_pair bid ask ≡ some pair
unfolding decimal_pair decimal decimal_from add_digit rescale
pair_read = refl

decimal_pair_exact_example :
    (b : Parsed) × (a : Parsed) × (decimal bid ≡ some b)
    × (decimal ask ≡ some a)
    × Rescaled b pair.scale pair.bid_value
    × Rescaled a pair.scale pair.ask_value
    × ((pair.scale ≡ b.scale) ⊎ (pair.scale ≡ a.scale))
    × (pair.scale ≤ 127)
decimal_pair_exact_example = decimal_pair_exact bid ask pair_read

decimal_reads_example : decimal bid ≡ some (record { mantissa = 125; scale = 2 })
decimal_reads_example =
    decimal_reads b'1' [] b'2' (b'5' ∷ []) (ground arith) (ground arith) (omega arith) (omega arith)
