-- ===== src/Triangles/Tests.antt =====
-- Two groups that share a symbol (src/orderbook.cpp).
use single_exchange_triangul.Common.{
  ℕ, ◌≡◌, ◌<◌, ◌≤◌, refl, String, Option, none, some, List, [], ◌∷◌, ◌==◌, length, All,
  if◌then◌else◌,
}
use single_exchange_triangul.Decimal.{Text}
use single_exchange_triangul.Trading.{Triple}
use single_exchange_triangul.Depth.{Message}
use single_exchange_triangul.Triangles.{Symbols, load_groups}
use single_exchange_triangul.Triangles.Indices.{Consistent, Within, load_groups-Consistent}

-- Texts of one letter.
data Entry : Type 0 where
  letter : ℕ → Entry
  both_groups first_group second_group : Entry

abbrev letters : Entry → Option Text
letters (letter c) = some (c ∷ [])
letters _ = none

abbrev parts_of : Entry → Option (List Entry)
parts_of both_groups = some (first_group ∷ second_group ∷ [])
parts_of first_group = some (letter b'a' ∷ letter b'B' ∷ letter b'c' ∷ [])
parts_of second_group = some (letter b'D' ∷ letter b'A' ∷ letter b'b' ∷ [])
parts_of (letter c) = none

instance abbrev value_message : Message Entry
value_message = record {
  field = λ v key. none;
  characters = letters;
  whole = λ v. none;
  items = parts_of;
}

abbrev name_of : Text → String
name_of [] = ""
name_of (c ∷ cs) =
    if c == b'A' then "A" else if c == b'B' then "B" else if c == b'C' then "C" else "D"

abbrev taken : Symbols
taken = record {
  symbols = "A" ∷ "B" ∷ "C" ∷ "D" ∷ [];
  symbol_indices = ("A", 0) ∷ ("B", 1) ∷ ("C", 2) ∷ ("D", 3) ∷ [];
}

abbrev triangles : List (Triple ℕ)
triangles =
    record { first = 0; second = 1; third = 2 } ∷ record { first = 3; second = 0; third = 1 } ∷ []

reads : load_groups name_of both_groups ≡ some (taken, triangles)
unfolding load_groups
reads = refl

load_groups-Consistent_example :
    Consistent taken
    × All (Within (length taken.symbols)) triangles
    × (0 < length triangles)
    × (length taken.symbols ≤ 1024)
load_groups-Consistent_example = load_groups-Consistent name_of both_groups reads
