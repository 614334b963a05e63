-- ===== src/Arbitrage/Hops.antt =====
-- What one conversion of a path does in `validate_arbitrage` (src/orderbook.cpp).
use mathlib.Core.Path.{subst}
use mathlib.Core.Option.{some-injective}
use text.Mathlib.TextEquality.{eq_iff}
use single_exchange_triangul.Common.{
  ℕ, zero, suc, ◌+◌, String, true, false, Option, some, List, [], ◌∷◌, ◌≡◌, ◌==◌, arith, All,
  if◌then◌else◌, inl, inr, Bool-cases, >>=-eq-some, ◌>>=◌,
}
use single_exchange_triangul.Trading.{TradeLeg}
use single_exchange_triangul.Arbitrage.{Assets, Candidate, hop, first_hop, convert, has_asset}

-- The asset that a leg pays with in a market, and the asset that it yields.
abbrev pub exchange : TradeLeg → Assets → String × String
exchange leg (base, quote) = if leg.buy then (quote, base) else (base, quote)

abbrev pub one_at : ℕ → TradeLeg → ℕ
one_at i leg = if leg.index == i then 1 else 0

-- The unused markets with the index `i`, and all of them.
abbrev pub free : ℕ → List Candidate → ℕ
free i [] = 0
free i (c ∷ cs) = (if c.used then 0 else if c.index == i then 1 else 0) + free i cs

abbrev pub unused : List Candidate → ℕ
unused [] = 0
unused (c ∷ cs) = (if c.used then 0 else 1) + unused cs

-- The assets of the candidates are those that `at` gives for their indices.
abbrev pub Known : (ℕ → Option Assets) → List Candidate → Type 0
Known at = All (λ c. at c.index ≡ some c.assets)

-- A conversion of `current` that leaves the candidates `more`.
pub record Hopped (at : ℕ → Option Assets) (current : String) (cs : List Candidate)
    (got : TradeLeg × String) (more : List Candidate) : Type 0 where
  pub assets : Assets
  pub listed : at got.0.index ≡ some assets
  pub converts : exchange got.0 assets ≡ (current, got.1)
  pub known : Known at more
  pub takes : (i : ℕ) → free i cs ≡ one_at i got.0 + free i more
  pub takes_one : unused cs ≡ suc (unused more)

-- The conversion in the market at hand.
convert-Hopped :
    (at : ℕ → Option Assets) (current : String) (c : Candidate) (cs : List Candidate)
    → has_asset current c.assets ≡ true
    → c.used ≡ false
    → Known at (c ∷ cs)
    → Hopped at current (c ∷ cs) (convert current c) (record c { used = true } ∷ cs)
convert-Hopped at current c cs has fresh (k, ks) = record {
  assets = c.assets;
  listed = k;
  converts = ground (arith, eq_iff current (c.assets.0), eq_iff current (c.assets.1));
  known = (k, ks);
  takes = λ i. ground arith;
  takes_one = ground arith;
}

-- The conversion in a later one.
later-Hopped :
    (at : ℕ → Option Assets) (current : String) (c : Candidate) (cs : List Candidate)
    (got : TradeLeg × String) (more : List Candidate)
    → at c.index ≡ some c.assets
    → Hopped at current cs got more
    → Hopped at current (c ∷ cs) got (c ∷ more)
later-Hopped at current c cs got more k h = record {
  assets = h.assets;
  listed = h.listed;
  converts = h.converts;
  known = (k, h.known);
  takes = λ i. omega (arith, h.takes i);
  takes_one = omega (arith, h.takes_one);
}

-- A result of the search in the candidates behind `c`.
abbrev behind :
    Candidate → (TradeLeg × String) × List Candidate → Option ((TradeLeg × String) × List Candidate)
behind c (got, more) = some (got, c ∷ more)

-- A result as it stands, and the result of a search behind `c`.
module _ (at : ℕ → Option Assets) (current : String) {got : TradeLeg × String}
    {more : List Candidate} where
  here-Hopped :
      (cs : List Candidate) (r : (TradeLeg × String) × List Candidate)
      → some r ≡ some (got, more)
      → Hopped at current cs (r.0) (r.1)
      → Hopped at current cs got more
  here-Hopped cs r h = subst (λ x. Hopped at current cs (x.0) (x.1)) (some-injective _ _ h)

  behind-Hopped :
      (c : Candidate) (cs : List Candidate) (found : Option ((TradeLeg × String) × List Candidate))
      → at c.index ≡ some c.assets
      → ((got' : TradeLeg × String) (more' : List Candidate)
          → found ≡ some (got', more')
          → Hopped at current cs got' more')
      → (found >>= behind c) ≡ some (got, more)
      → Hopped at current (c ∷ cs) got more
  behind-Hopped c cs found k rest h =
      let ((got', more'), e₁, e₂) = >>=-eq-some found _ h in
      here-Hopped (c ∷ cs) (got', c ∷ more') e₂
        (later-Hopped at current c cs got' more' k (rest got' more' e₁))

pub hop-Hopped :
    (at : ℕ → Option Assets) (current : String) (cs : List Candidate) {got : TradeLeg × String}
    {more : List Candidate}
    → Known at cs
    → hop current cs ≡ some (got, more)
    → Hopped at current cs got more
unfolding hop
hop-Hopped at current [] k h = cc
hop-Hopped at current (c ∷ cs) {got} {more} (k, ks) h =
    let search =
      behind-Hopped at current c cs (hop current cs) k (λ g m e. hop-Hopped at current cs ks e) in
    elim (Bool-cases c.used) [
      | inl used ↦ search (ground arith)
      | inr fresh ↦ elim (Bool-cases (has_asset current c.assets)) [
        | inl has ↦
            here-Hopped at current (c ∷ cs) (convert current c, record c { used = true } ∷ cs)
              (ground arith) (convert-Hopped at current c cs has fresh (k, ks))
        | inr lacks ↦ search (ground arith)
      ]
    ]

pub first_hop-Hopped :
    (at : ℕ → Option Assets) (i : ℕ) (cs : List Candidate) {got : TradeLeg × String}
    {more : List Candidate}
    → Known at cs
    → All (λ c. c.used ≡ false) cs
    → first_hop i cs ≡ some (got, more)
    → Hopped at "USDT" cs got more
unfolding first_hop
first_hop-Hopped at i [] k new h = cc
first_hop-Hopped at zero (c ∷ cs) {got} {more} (k, ks) (n, ns) h =
    elim (Bool-cases (has_asset "USDT" c.assets)) [
      | inl has ↦
          here-Hopped at "USDT" (c ∷ cs) (convert "USDT" c, record c { used = true } ∷ cs)
            (ground arith) (convert-Hopped at "USDT" c cs has n (k, ks))
      | inr lacks ↦ ground arith
    ]
first_hop-Hopped at (suc i) (c ∷ cs) {got} {more} (k, ks) (n, ns) h =
    behind-Hopped at "USDT" c cs (first_hop i cs) k (λ g m e. first_hop-Hopped at i cs ks ns e) h
