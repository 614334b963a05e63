-- ===== src/Common/Dict.antt =====
-- `std::map` with text keys: an association list in the order of its keys, which is the order in
-- which the program walks it.
use Prim.Native.Nat.{Ordering}
use Prim.Native.String.{String, compare}
use text.Mathlib.Text.{◌==◌}
use text.Mathlib.TextEquality.{eq_iff}
use mathlib.Core.Path.{◌≡◌, refl}
use mathlib.Core.Bool.{Bool, true, false}
use mathlib.Core.Option.{Option, none, some}
use mathlib.Core.List.{List, [], ◌∷◌}
use native.Mathlib.Omega.{arith}
use single_exchange_triangul.Common.Tests.{if◌then◌else◌}

abbrev pub Dict {ℓ} : Type ℓ → Type ℓ
Dict V = List (String × V)

abbrev is_lt : Ordering → Bool
is_lt Ordering.lt = true
is_lt _ = false

module _ {ℓ} {V : Type ℓ} where
  unfoldable pub lookup : String → Dict V → Option V
  lookup k [] = none
  lookup k ((j, v) ∷ m) = if j == k then some v else lookup k m

  -- `m[k] = v`.
  unfoldable pub insert : String → V → Dict V → Dict V
  insert key value [] = (key, value) ∷ []
  insert key value ((j, old) ∷ rest) =
      if j == key
      then (key, value) ∷ rest
      else if is_lt (compare key j)
      then (key, value) ∷ (j, old) ∷ rest
      else (j, old) ∷ insert key value rest

  -- `m[k]` read, where a missing key reads as `d`.
  unfoldable pub find_or : V → String → Dict V → V
  unfolding lookup
  find_or d k [] = d
  find_or d k ((j, v) ∷ m) = if j == k then v else find_or d k m

  pub find_or-insert :
      (d : V) (k j : String) (v : V) (m : Dict V)
      → find_or d j (insert k v m) ≡ (if k == j then v else find_or d j m)
  unfolding find_or insert
  find_or-insert d k j v [] = refl
  find_or-insert d k j v ((i, w) ∷ m) =
      ground (arith, eq_iff k j, eq_iff i k, eq_iff i j, find_or-insert d k j v m)

  pub lookup-insert :
      (asked key : String) (new : V) (entries : Dict V)
      → lookup asked (insert key new entries)
        ≡ (if key == asked then some new else lookup asked entries)
  unfolding lookup insert
  lookup-insert asked key new [] = refl
  lookup-insert asked key new ((i, old) ∷ rest) =
      ground
        (arith, eq_iff key asked, eq_iff i key, eq_iff i asked, lookup-insert asked key new rest)
