-- ===== src/Prices.antt =====
-- The decimal texts of the exchange (src/orderbook.cpp): `decimal`, `rescale` and `decimal_pair`.
-- Their mantissas are `std::int64_t` and never negative.
pub mod Value
pub mod Reading
mod Tests
use single_exchange_triangul.Common.{
  ℕ, suc, ◌+◌, ◌-◌, ◌*◌, ◌/◌, ◌^◌, Bool, true, false, not, ◌&&◌, ◌||◌, ltb, leb, ◌==◌, Option, none,
  some, List, [], ◌∷◌, if◌then◌else◌, ◌>>=◌,
}
use single_exchange_triangul.Decimal.{Text}

-- `std::numeric_limits<std::int64_t>::max()`.
abbrev pub max_int64 : ℕ
max_int64 = 9223372036854775807

pub record Parsed : Type 0 where
  pub mantissa : ℕ
  pub scale : ℕ

-- One digit, behind the tests on the character: `none` is an exception.
unfoldable pub add_digit : Bool → ℕ → Parsed → Option Parsed
add_digit dot c r =
    let digit : ℕ = c - b'0' in
    if ltb ((max_int64 - digit) / 10) r.mantissa
    then none
    else if dot && ltb 127 (r.scale + 1)
    then none
    else some (record {
      mantissa = r.mantissa * 10 + digit;
      scale = if dot then r.scale + 1 else r.scale;
    })

abbrev pub is_empty : Text → Bool
is_empty [] = true
is_empty (_ ∷ _) = false

-- The loop of `decimal`; `first` holds at the first character.
unfoldable pub decimal_from : Bool → Bool → Text → Parsed → Option Parsed
decimal_from first dot [] r = some r
decimal_from first dot (c ∷ cs) r =
    let skip = decimal_from false true cs r in
    if c == b'.' && not dot && not first && not (is_empty cs)
    then skip
    else if ltb c b'0' || ltb b'9' c
    then none
    else add_digit dot c r >>= decimal_from false dot cs

unfoldable pub decimal : Text → Option Parsed
decimal [] = none
decimal (c ∷ cs) = decimal_from true false (c ∷ cs) (record { mantissa = 0; scale = 0 })

-- `rescale`. A difference below zero wraps to one above the table, which holds 10 ^ 0 to 10 ^ 18.
unfoldable pub rescale : Parsed → ℕ → Option ℕ
rescale value scale =
    let delta : ℕ = scale - value.scale in
    if (delta == 0 && not (ltb scale value.scale)) || value.mantissa == 0
    then some value.mantissa
    else if leb 19 delta || ltb scale value.scale
    then none
    else if ltb (max_int64 / 10 ^ delta) value.mantissa
    then none
    else some (value.mantissa * 10 ^ delta)

-- What `decimal_pair` sets; the exponent is the scale negated.
pub record Pair : Type 0 where
  pub bid_value : ℕ
  pub ask_value : ℕ
  pub scale : ℕ

unfoldable pub decimal_pair : Text → Text → Option Pair
decimal_pair bid ask = do
  b ← decimal bid
  a ← decimal ask
  let scale = if ltb b.scale a.scale then a.scale else b.scale
  bid_value ← rescale b scale
  ask_value ← rescale a scale
  some (record { bid_value = bid_value; ask_value = ask_value; scale = scale })
