-- ===== src/Json.antt =====
-- The values of nlohmann::json that src/execution/binance_gateway.cpp, src/execution/execution.cpp
-- and src/orderbook.cpp read. The library is not part of the repository, so its operations are
-- parameters.
pub mod Samples
use single_exchange_triangul.Common.{String, Bool, Option, none, some, List, ◌>>=◌}
use single_exchange_triangul.Common.Int.{ℤ}

-- `none` is the exception that the operation throws, or the answer `false` of its test.
pub record Document (J : Type 0) : Type 0 where
  -- `value.at(key)`; `value.contains(key)` where it is there.
  pub field : J → String → Option J
  -- What a range-for over the value visits.
  pub elements : J → List J
  -- `is_string` and `get<std::string>`.
  pub text : J → Option String
  -- `is_number` and `dump`.
  pub number : J → Option String
  -- `is_number_integer` and `get<std::int64_t>`.
  pub integer : J → Option ℤ
  -- `is_boolean` and `get<bool>`.
  pub flag : J → Option Bool

module _ {J : Type 0} ⦃j : Document J⦄ where
  -- `value.at(key).get<std::string>()`.
  unfoldable pub text_at : J → String → Option String
  text_at value key = j.field value key >>= j.text

  unfoldable pub integer_at : J → String → Option ℤ
  integer_at value key = j.field value key >>= j.integer

-- `Decimal(text)` of a text that stands in a message; `none` is its exception.
pub record Parser (D : Type 0) : Type 0 where
  pub parse : String → Option D

-- `json_decimal`.
unfoldable pub json_decimal : {J D : Type 0} ⦃j : Document J⦄ ⦃p : Parser D⦄ → J → String → Option D
json_decimal ⦃j⦄ ⦃p⦄ value key = do
  entry ← j.field value key
  elim (j.text entry) [ some t ↦ p.parse t | none ↦ j.number entry >>= p.parse ]
