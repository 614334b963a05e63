-- ===== src/Triangles/Indices.antt =====
-- The indices that `load_config` gives to the symbols (src/orderbook.cpp).
use mathlib.Core.Path.{subst, ap}
use mathlib.Core.Option.{some-injective}
use text.Mathlib.TextEquality.{eq_iff}
use single_exchange_triangul.Common.{
  ℕ, zero, suc, ◌<◌, ◌≤◌, ◌≡◌, ◌⊎◌, refl, String, ◌||◌, ltb, ◌==◌, some, none, List, [], ◌∷◌, ◌++◌,
  length, >>=-eq-some, arith, All, get_elem?, get_elem?-bound, get_elem?-last, length-append,
  Bool-cases, Option-cases, inl, inr, if◌then◌else◌,
}
use text.Mathlib.Text.{◌==◌ as str_eq}
use single_exchange_triangul.Common.Dict.{lookup, lookup-insert}
use single_exchange_triangul.Decimal.{Text}
use single_exchange_triangul.Trading.{Triple}
use single_exchange_triangul.Depth.{Message}
use single_exchange_triangul.Triangles.{
  Symbols, add_symbol, emplace, place_legs, symbol_of, read_legs, read_parts, read_groups,
  load_groups,
}

get_elem?-append_left :
    {A : Type 0} (xs ys : List A) (i : ℕ) {a : A}
    → get_elem? xs i ≡ some a
    → get_elem? (xs ++ ys) i ≡ some a
get_elem?-append_left [] ys i e = cc
get_elem?-append_left (x ∷ xs) ys zero e = e
get_elem?-append_left (x ∷ xs) ys (suc i) e = get_elem?-append_left xs ys i e

get_elem?-snoc :
    {A : Type 0} (xs : List A) (x : A) (i : ℕ) {a : A}
    → get_elem? (xs ++ x ∷ []) i ≡ some a
    → (get_elem? xs i ≡ some a) ⊎ (i ≡ length xs) × (x ≡ a)
get_elem?-snoc [] x zero e = inr (refl, some-injective _ _ e)
get_elem?-snoc [] x (suc i) e = cc
get_elem?-snoc (y ∷ xs) x zero e = inl e
get_elem?-snoc (y ∷ xs) x (suc i) e = elim (get_elem?-snoc xs x i e) [
  | inl old ↦ inl old
  | inr (at, same) ↦ inr (ap suc at, same)
]

-- The map has the place of every symbol, and no other entry: no symbol is there twice.
pub record Consistent (c : Symbols) : Type 0 where
  pub places :
      (s : String) (i : ℕ) → lookup s c.symbol_indices ≡ some i → get_elem? c.symbols i ≡ some s
  pub entries :
      (s : String) (i : ℕ) → get_elem? c.symbols i ≡ some s → lookup s c.symbol_indices ≡ some i

-- Three different indices within the symbols.
pub record Within (n : ℕ) (t : Triple ℕ) : Type 0 where
  pub first : t.first < n
  pub second : t.second < n
  pub third : t.third < n
  pub apart : (¬ (t.first ≡ t.second)) × (¬ (t.first ≡ t.third)) × (¬ (t.second ≡ t.third))

Within-grow : {n m : ℕ} → n ≤ m → (t : Triple ℕ) → Within n t → Within m t
Within-grow le t w = record {
  first = omega (arith, w.first);
  second = omega (arith, w.second);
  third = omega (arith, w.third);
  apart = w.apart;
}

add_symbol-Consistent :
    (symbol : String) (c : Symbols)
    → Consistent c
    → lookup symbol c.symbol_indices ≡ none
    → Consistent (add_symbol symbol c)
unfolding add_symbol
add_symbol-Consistent symbol c ok fresh =
    let read = λ (s : String). lookup-insert s symbol (length c.symbols) c.symbol_indices in
    record {
      places = λ s i e. elim (Bool-cases (str_eq symbol s)) [
        | inl same ↦ ground (arith, eq_iff symbol s, read s, get_elem?-last c.symbols symbol)
        | inr other ↦
            get_elem?-append_left c.symbols (symbol ∷ []) i (ok.places s i (ground (arith, read s)))
      ];
      entries = λ s i e. elim (get_elem?-snoc c.symbols symbol i e) [
        | inl old ↦ ground (arith, eq_iff symbol s, read s, ok.entries s i old)
        | inr (at, same) ↦ ground (arith, eq_iff symbol s, read s)
      ];
    }

-- What `emplace` makes of the symbols.
abbrev Emplaced : Symbols → Symbols × ℕ → Type 0
Emplaced c (c', i) =
    Consistent c' × (length c.symbols ≤ length c'.symbols) × (i < length c'.symbols)

emplace-Emplaced : (symbol : String) (c : Symbols) → Consistent c → Emplaced c (emplace symbol c)
unfolding emplace add_symbol
emplace-Emplaced symbol c ok = elim (Option-cases (lookup symbol c.symbol_indices)) [
  | inl fresh ↦
      let new : (add_symbol symbol c, length c.symbols) ≡ emplace symbol c = ground arith in
      subst (Emplaced c) new (
        add_symbol-Consistent symbol c ok fresh,
        omega (arith, length-append c.symbols (symbol ∷ [])),
        omega (arith, length-append c.symbols (symbol ∷ [])),
      )
  | inr (i, at) ↦
      let old : (c, i) ≡ emplace symbol c = ground arith in
      subst (Emplaced c) old (ok, omega arith, get_elem?-bound c.symbols i (ok.places symbol i at))
]

-- What one group, or a list of them, adds.
abbrev Grown : Symbols → Symbols → Type 0
Grown c c' = Consistent c' × (length c.symbols ≤ length c'.symbols)

abbrev Apart : ℕ → ℕ → ℕ → Type 0
Apart a b c = (¬ (a ≡ b)) × (¬ (a ≡ c)) × (¬ (b ≡ c))

if_distinct :
    {A : Type 0} (a b c : ℕ) {x y : A}
    → (if a == b || a == c || b == c then none else some x) ≡ some y
    → (x ≡ y) × Apart a b c
if_distinct a b c e =
    (ground arith, ((λ h. ground arith), (λ h. ground arith), (λ h. ground arith)))

abbrev Placed : Symbols → Symbols × Triple ℕ → Type 0
Placed c (c', t) = Grown c c' × Within (length c'.symbols) t

place_legs-Placed :
    (first second third : String) (c : Symbols) {r : Symbols × Triple ℕ}
    → Consistent c
    → place_legs first second third c ≡ some r
    → Placed c r
unfolding place_legs
place_legs-Placed first second third c ok e =
    let (c₁, i₁) = emplace first c in
    let (ok₁, le₁, lt₁) = emplace-Emplaced first c ok in
    let (c₂, i₂) = emplace second c₁ in
    let (ok₂, le₂, lt₂) = emplace-Emplaced second c₁ ok₁ in
    let (c₃, i₃) = emplace third c₂ in
    let (ok₃, le₃, lt₃) = emplace-Emplaced third c₂ ok₂ in
    let (same, apart) = if_distinct i₁ i₂ i₃ e in
    subst (Placed c) same (
      (ok₃, omega (arith, le₁, le₂, le₃)),
      record {
        first = omega (arith, lt₁, le₂, le₃);
        second = omega (arith, lt₂, le₃);
        third = lt₃;
        apart = apart;
      },
    )

abbrev Read : Symbols → Symbols × List (Triple ℕ) → Type 0
Read c (c', ts) = Grown c c' × All (Within (length c'.symbols)) ts

if_bounded :
    {A : Type 0} (n m : ℕ) {x y : A}
    → (if n == 0 || ltb 1024 m then none else some x) ≡ some y
    → (x ≡ y) × (0 < n) × (m ≤ 1024)
if_bounded n m e = (ground arith, ground arith, ground arith)

abbrev Loaded : Symbols × List (Triple ℕ) → Type 0
Loaded (c, triangles) =
    Consistent c
    × All (Within (length c.symbols)) triangles
    × (0 < length triangles)
    × (length c.symbols ≤ 1024)

module _ {J : Type 0} ⦃j : Message J⦄ (string_of : Text → String) where
  read_parts-Placed :
      (parts : List J) (c : Symbols) {r : Symbols × Triple ℕ}
      → Consistent c
      → read_parts string_of parts c ≡ some r
      → Placed c r
  unfolding read_parts read_legs
  read_parts-Placed [] c ok e = ground arith
  read_parts-Placed (x ∷ []) c ok e = ground arith
  read_parts-Placed (x ∷ y ∷ []) c ok e = ground arith
  read_parts-Placed (x ∷ y ∷ z ∷ w ∷ ps) c ok e = ground arith
  read_parts-Placed (x ∷ y ∷ z ∷ []) c ok e =
      let (first, e₁, h₁) = >>=-eq-some (symbol_of string_of x) _ e in
      let (second, e₂, h₂) = >>=-eq-some (symbol_of string_of y) _ h₁ in
      let (third, e₃, h₃) = >>=-eq-some (symbol_of string_of z) _ h₂ in
      place_legs-Placed first second third c ok h₃

  read_groups-Read :
      (groups : List J) (c : Symbols) {r : Symbols × List (Triple ℕ)}
      → Consistent c
      → read_groups string_of groups c ≡ some r
      → Read c r × (length r.1 ≡ length groups)
  unfolding read_groups
  read_groups-Read [] c ok e =
      subst (λ r. Read c r × (length r.1 ≡ 0)) (some-injective _ _ e) (((ok, omega arith), _), refl)
  read_groups-Read (x ∷ xs) c ok e =
      let (parts, e₁, h₁) = >>=-eq-some (j.items x) _ e in
      let ((c₁, t), e₂, h₂) = >>=-eq-some (read_parts string_of parts c) _ h₁ in
      let ((ok₁, le₁), within) = read_parts-Placed parts c ok e₂ in
      let ((c₂, ts), e₃, h₃) = >>=-eq-some (read_groups string_of xs c₁) _ h₂ in
      let (((ok₂, le₂), all), size) = read_groups-Read xs c₁ ok₁ e₃ in
      subst (λ r. Read c r × (length r.1 ≡ suc (length xs))) (some-injective _ _ h₃)
        (((ok₂, omega (arith, le₁, le₂)), (Within-grow le₂ t within, all)), ap suc size)

  -- The groups that `load_config` takes: there is at least one, each has three different indices of
  -- symbols, the map has exactly the places of the symbols, so that no symbol is there twice, and there
  -- are at most 1024 symbols.
  pub load_groups-Consistent :
      (value : J) {c : Symbols} {triangles : List (Triple ℕ)}
      → load_groups string_of value ≡ some (c, triangles)
      → Consistent c
        × All (Within (length c.symbols)) triangles
        × (0 < length triangles)
        × (length c.symbols ≤ 1024)
  unfolding load_groups lookup
  load_groups-Consistent value {c} {triangles} e =
      let (groups, e₁, h₁) = >>=-eq-some (j.items value) _ e in
      let empty : Symbols = record { symbols = []; symbol_indices = [] } in
      let ok : Consistent empty = record {
        places = λ s i e. ground arith;
        entries = λ s i e. ground arith;
      } in
      let (r, e₂, h₂) = >>=-eq-some (read_groups string_of groups empty) _ h₁ in
      let (((ok', le), all), size) = read_groups-Read groups empty ok e₂ in
      let (same, some_group, few) = if_bounded (length groups) (length r.0.symbols) h₂ in
      subst Loaded same (ok', all, omega (arith, size, some_group), few)
