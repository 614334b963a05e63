-- ===== src/Markets/Slots.antt =====
-- The slots of the markets as `load_markets` fills them (src/execution/execution.cpp).
use mathlib.Core.Path.{subst, sym, ◌∙◌}
use text.Mathlib.TextEquality.{eq_iff}
use single_exchange_triangul.Common.{
  ℕ, zero, suc, true, Option, none, some, List, [], ◌∷◌, leb, ◌==◌, set, replicate, length,
  get_elem?, ◌≡◌, ◌≢◌, ◌⊎◌, inl, inr, if◌then◌else◌, arith, Bool-cases, length-set,
  get_elem?-set_self, get_elem?-set_ne,
}
use single_exchange_triangul.Common.Dict.{lookup}
use single_exchange_triangul.Decimal.{Arith}
use single_exchange_triangul.Trading.{Market, Config}
use single_exchange_triangul.Markets.{empty_market, all_named}

-- The names of the market stay while its filters are read.
abbrev Names : {D : Type 0} → Market D → Market D → Type 0
Names m m' = (m'.symbol ≡ m.symbol) × (m'.base ≡ m.base) × (m'.quote ≡ m.quote)

replicate-empty :
    {D : Type 0} ⦃a : Arith D⦄ (n i : ℕ) {m : Market D}
    → get_elem? (replicate n empty_market) i ≡ some m
    → m.symbol ≡ ""
replicate-empty zero i e = ground arith
replicate-empty (suc n) zero e = ground arith
replicate-empty (suc n) (suc i) e = replicate-empty n i e

pub all_named-at :
    {D : Type 0} (ms : List (Market D)) (i : ℕ) {m : Market D}
    → all_named ms ≡ true
    → get_elem? ms i ≡ some m
    → m.symbol ≢ ""
unfolding all_named
all_named-at [] i h e = ground arith
all_named-at (x ∷ ms) zero {m} h e = λ no_name. ground (arith, eq_iff m.symbol "")
all_named-at (x ∷ ms) (suc i) h e = all_named-at ms i (ground arith) e

-- `result.at(index) = market`.
abbrev pub store : {D : Type 0} → List (Market D) → ℕ → Market D → Option (List (Market D))
store ms index m = if leb (length ms) index then none else some (set ms index m)

module _ {F D : Type 0} ⦃a : Arith D⦄ (c : Config F) (P : Market D → Type 0) where
  -- Every slot is empty, or has a market with its own index and with the property.
  abbrev pub Slots : List (Market D) → Type 0
  Slots ms =
      (i : ℕ) (m : Market D)
      → get_elem? ms i ≡ some m
      → (m.symbol ≡ "") ⊎ ((lookup m.symbol c.symbol_indices ≡ some i) × P m)

  pub replicate-Slots : (n : ℕ) → Slots (replicate n empty_market)
  replicate-Slots zero i m e = ground arith
  replicate-Slots (suc n) zero m e = inl (ground arith)
  replicate-Slots (suc n) (suc i) m e = inl (replicate-empty n i e)

  pub store-Slots :
      (ms : List (Market D)) (index : ℕ) (x : Market D) {ms' : List (Market D)}
      → store ms index x ≡ some ms'
      → lookup x.symbol c.symbol_indices ≡ some index
      → P x
      → Slots ms
      → Slots ms' × (length ms' ≡ length ms)
  store-Slots ms index x {ms'} h at good slots = elim (Bool-cases (leb (length ms) index)) [
    | inl out ↦ ground arith
    | inr fits ↦
        let made : set ms index x ≡ ms' = ground arith in
        subst (λ r. Slots r × (length r ≡ length ms)) made
          (
            (λ i m e. elim (Bool-cases (index == i)) [
              | inl this ↦
                  let e' : m ≡ x = ground (arith, get_elem?-set_self ms index x) in
                  inr (
                    subst (λ y. (lookup y.symbol c.symbol_indices ≡ some i) × P y) (sym e')
                      (ground arith, good))
              | inr other ↦ slots i m (sym (get_elem?-set_ne ms x (λ same. ground arith)) ∙ e)
            ]),
            length-set ms index x,
          )
  ]
