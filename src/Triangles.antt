-- ===== src/Triangles.antt =====
-- The groups of symbols in `load_config` (src/orderbook.cpp): the symbols get their indices in the order
-- in which they first appear.
pub mod Indices
mod Tests
use single_exchange_triangul.Common.{
  ℕ, String, Bool, ◌||◌, ltb, ◌==◌, Option, none, some, List, [], ◌∷◌, ◌++◌, map, length,
  if◌then◌else◌, ◌>>=◌,
}
use single_exchange_triangul.Common.Dict.{Dict, lookup, insert}
use single_exchange_triangul.Decimal.{Text}
use single_exchange_triangul.Trading.{Triple}
use single_exchange_triangul.Prices.{is_empty}
use single_exchange_triangul.Streams.{upper}
use single_exchange_triangul.Depth.{Message}

-- The members of the configuration that the groups' loop writes, but for the groups.
pub record Symbols : Type 0 where
  pub symbols : List String
  pub symbol_indices : Dict ℕ

-- A new symbol gets the next index.
unfoldable pub add_symbol : String → Symbols → Symbols
unfolding insert
add_symbol symbol c = record {
  symbols = c.symbols ++ symbol ∷ [];
  symbol_indices = insert symbol (length c.symbols) c.symbol_indices;
}

-- `symbol_indices.emplace(symbol, symbols.size())`, with the symbol kept where it is new, and the index
-- of the symbol.
unfoldable pub emplace : String → Symbols → Symbols × ℕ
unfolding lookup add_symbol
emplace symbol c = elim (lookup symbol c.symbol_indices) [
  | some index ↦ (c, index)
  | none ↦ (add_symbol symbol c, length c.symbols)
]

-- The three symbols of a group in turn, and the test that they are distinct.
unfoldable pub place_legs : String → String → String → Symbols → Option (Symbols × Triple ℕ)
unfolding emplace
place_legs first second third c =
    let (c₁, i₁) = emplace first c in
    let (c₂, i₂) = emplace second c₁ in
    let (c₃, i₃) = emplace third c₂ in
    if i₁ == i₂ || i₁ == i₃ || i₂ == i₃
    then none
    else some (c₃, record { first = i₁; second = i₂; third = i₃ })

-- `string_of` is the `std::string` of the characters.
module _ {J : Type 0} ⦃j : Message J⦄ (string_of : Text → String) where
  -- The tests on `triangle[leg]`, and its text in capitals.
  unfoldable pub symbol_of : J → Option String
  unfolding upper
  symbol_of value = do
    text ← j.characters value
    if is_empty text then none else some (string_of (map upper text))

  -- The loop over the three legs.
  unfoldable pub read_legs : J → J → J → Symbols → Option (Symbols × Triple ℕ)
  unfolding symbol_of place_legs
  read_legs x y z c = do
    first ← symbol_of x
    second ← symbol_of y
    third ← symbol_of z
    place_legs first second third c

  unfoldable pub read_parts : List J → Symbols → Option (Symbols × Triple ℕ)
  unfolding read_legs
  read_parts (x ∷ y ∷ z ∷ []) c = read_legs x y z c
  read_parts _ c = none

  -- The loop over the groups.
  unfoldable pub read_groups : List J → Symbols → Option (Symbols × List (Triple ℕ))
  unfolding read_parts
  read_groups [] c = some (c, [])
  read_groups (triangle ∷ groups) c = do
    parts ← j.items triangle
    (c₁, indices) ← read_parts parts c
    (c₂, rest) ← read_groups groups c₁
    some (c₂, indices ∷ rest)

  -- `symbols`, `symbol_indices` and `triangle_indices`, from the value at "triangles".
  unfoldable pub load_groups : J → Option (Symbols × List (Triple ℕ))
  unfolding read_groups
  load_groups value = do
    groups ← j.items value
    (c, triangles) ← read_groups groups (record { symbols = []; symbol_indices = [] })
    if length groups == 0 || ltb 1024 (length c.symbols) then none else some (c, triangles)
