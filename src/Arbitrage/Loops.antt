-- ===== src/Arbitrage/Loops.antt =====
-- The paths that `validate_arbitrage` (src/orderbook.cpp) gives a group.
use mathlib.Core.Path.{subst, sym, ap, ◌∙◌}
use mathlib.Core.Option.{some-injective}
use text.Mathlib.Text.{◌==◌ as str_eq}
use text.Mathlib.TextEquality.{eq_iff}
use single_exchange_triangul.Common.{
  length, ℕ, zero, suc, ◌+◌, String, false, Option, some, List, [], ◌∷◌, ◌≡◌, refl, ◌==◌, arith,
  All, if◌then◌else◌, inl, inr, Bool-cases, Option-cases, >>=-eq-some, ◌>>=◌,
}
use single_exchange_triangul.Trading.{TradeLeg, TradePath, TradeGroup, Triple, Config, items}
use single_exchange_triangul.Common.Dict.{Dict}
use single_exchange_triangul.Arbitrage.{
  Assets, Candidate, hop, first_hop, complete, path_at, paths_from, both_paths, candidates_of,
  is_triangle, assets_of, group_of, market_at,
}
use single_exchange_triangul.Arbitrage.Hops.{
  Hopped, hop-Hopped, first_hop-Hopped, exchange, free, unused, Known,
}

-- How often an index is in a list.
abbrev pub count : ℕ → List ℕ → ℕ
count i [] = 0
count i (j ∷ js) = (if j == i then 1 else 0) + count i js

abbrev pub indices_of : TradePath → List ℕ
indices_of p = p.first.index ∷ p.second.index ∷ p.third.index ∷ []

-- A path from USDT through two assets back to USDT, by the markets `at`, that uses each of the
-- indices `is` as often as they are there.
pub record Loop (at : ℕ → Option Assets) (is : List ℕ) (p : TradePath) : Type 0 where
  pub first_assets : Assets
  pub second_assets : Assets
  pub third_assets : Assets
  pub first_market : at p.first.index ≡ some first_assets
  pub second_market : at p.second.index ≡ some second_assets
  pub third_market : at p.third.index ≡ some third_assets
  pub starts : (exchange p.first first_assets).0 ≡ "USDT"
  pub continues : (exchange p.first first_assets).1 ≡ (exchange p.second second_assets).0
  pub goes_on : (exchange p.second second_assets).1 ≡ (exchange p.third third_assets).0
  pub closes : (exchange p.third third_assets).1 ≡ "USDT"
  pub uses : (i : ℕ) → count i (indices_of p) ≡ count i is

abbrev Fresh : List Candidate → Type 0
Fresh = All (λ c. c.used ≡ false)

free-unused : (i : ℕ) (cs : List Candidate) → unused cs ≡ 0 → free i cs ≡ 0
free-unused i [] h = refl
free-unused i (c ∷ cs) h = ground (arith, free-unused i cs)

-- Three conversions in a row that end in USDT.
path-Loop :
    (at : ℕ → Option Assets) (is : List ℕ) (cs : List Candidate) {x y z : TradeLeg × String}
    {more rest last : List Candidate}
    → Hopped at "USDT" cs x more
    → Hopped at (x.1) more y rest
    → Hopped at (y.1) rest z last
    → z.1 ≡ "USDT"
    → unused cs ≡ 3
    → ((i : ℕ) → free i cs ≡ count i is)
    → Loop at is (record { first = x.0; second = y.0; third = z.0 })
path-Loop at is cs {x} {y} {z} {last} h₁ h₂ h₃ back three all = record {
  first_assets = h₁.assets;
  second_assets = h₂.assets;
  third_assets = h₃.assets;
  first_market = h₁.listed;
  second_market = h₂.listed;
  third_market = h₃.listed;
  starts = ap (λ e. e.0) h₁.converts;
  continues = ap (λ e. e.1) h₁.converts ∙ sym (ap (λ e. e.0) h₂.converts);
  goes_on = ap (λ e. e.1) h₂.converts ∙ sym (ap (λ e. e.0) h₃.converts);
  closes = ap (λ e. e.1) h₃.converts ∙ back;
  uses = λ i.
      let none_left =
        free-unused i last (omega (arith, h₁.takes_one, h₂.takes_one, h₃.takes_one)) in
      omega (arith, h₁.takes i, h₂.takes i, h₃.takes i, none_left, all i);
}

module _ (at : ℕ → Option Assets) (is : List ℕ) (cs : List Candidate) (k : Known at cs)
    (new : Fresh cs) (three : unused cs ≡ 3) (all : (i : ℕ) → free i cs ≡ count i is) where
  complete-Loop :
      (x : TradeLeg × String) (more : List Candidate) {p : TradePath}
      → Hopped at "USDT" cs x more
      → complete (x, more) ≡ some (some p)
      → Loop at is p
  unfolding complete
  complete-Loop x more {p} one h =
      let (next, e₂, h₂) = >>=-eq-some (hop x.1 more) _ h in
      let (last, e₃, h₃) = >>=-eq-some (hop next.0.1 next.1) _ h₂ in
      let two = hop-Hopped at x.1 more one.known e₂ in
      let end = hop-Hopped at next.0.1 next.1 two.known e₃ in
      elim (Bool-cases (str_eq last.0.1 "USDT")) [
        | inl back ↦
            subst (Loop at is) (ground arith)
              (path-Loop at is cs one two end (ground (arith, eq_iff last.0.1 "USDT")) three all)
        | inr ajar ↦ ground arith
      ]

  path_at-Loop : (i : ℕ) {p : TradePath} → path_at i cs ≡ some (some p) → Loop at is p
  unfolding path_at
  path_at-Loop i {p} h = elim (Option-cases (first_hop i cs)) [
    | inl unconnected ↦ ground arith
    | inr (start, e) ↦
        complete-Loop (start.0) (start.1) (first_hop-Hopped at i cs k new e) (ground arith)
  ]

  paths_from-Loop :
      (left i : ℕ) {ps : List TradePath} → paths_from left i cs ≡ some ps → All (Loop at is) ps
  unfolding paths_from
  paths_from-Loop zero i h = subst (All (Loop at is)) (some-injective _ _ h) tt
  paths_from-Loop (suc left) i {ps} h =
      let (path, e₁, h₁) = >>=-eq-some (path_at i cs) _ h in
      let (rest, e₂, h₂) = >>=-eq-some (paths_from left (suc i) cs) _ h₁ in
      let others = paths_from-Loop left (suc i) e₂ in
      elim (Option-cases path) [
        | inl skipped ↦ subst (All (Loop at is)) (ground arith) others
        | inr (p, found) ↦
            subst (All (Loop at is)) {x = p ∷ rest} (ground arith)
              (path_at-Loop i (e₁ ∙ ap some found), others)
      ]

both_paths-All :
    (P : TradePath → Type 0) (ps : List TradePath) {pair : TradePath × TradePath}
    → both_paths ps ≡ some pair
    → All P ps
    → P (pair.0) × P (pair.1)
both_paths-All P [] h all = cc
both_paths-All P (p ∷ []) h all = cc
both_paths-All P (p ∷ q ∷ []) h (a, b) =
    subst (λ r. P (r.0) × P (r.1)) (some-injective _ _ h) (a, b.0)
both_paths-All P (p ∷ q ∷ r ∷ ps) h all = cc

-- The candidates as they are made.
record Made (at : ℕ → Option Assets) (is : List ℕ) (cs : List Candidate) : Type 0 where
  known : Known at cs
  fresh : Fresh cs
  as_many : unused cs ≡ length is
  same : (i : ℕ) → free i cs ≡ count i is
  listed : All (λ i. (assets : Assets) × (at i ≡ some assets)) is

abbrev paths_then : Triple ℕ → List TradePath → Option TradeGroup
paths_then indices found =
    both_paths found >>= λ paths. some (record { symbol_indices = indices; paths = paths })

module _ {F : Type 0} (c : Config F) (markets : Dict Assets) where
  candidates_of-Made :
      (is : List ℕ) {cs : List Candidate}
      → candidates_of c markets is ≡ some cs
      → Made (market_at c markets) is cs
  unfolding candidates_of
  candidates_of-Made [] h =
      subst (Made _ _) (some-injective _ _ h)
        (record { known = tt; fresh = tt; as_many = refl; same = λ i. refl; listed = tt })
  candidates_of-Made (i ∷ is) h =
      let (assets, e₁, h₁) = >>=-eq-some (market_at c markets i) _ h in
      let (rest, e₂, h₂) = >>=-eq-some (candidates_of c markets is) _ h₁ in
      let made = candidates_of-Made is e₂ in
      subst (Made (market_at c markets) (i ∷ is)) (some-injective _ _ h₂) (record {
        known = (e₁, made.known);
        fresh = (refl, made.fresh);
        as_many = omega (arith, made.as_many);
        same = λ j. ground (arith, made.same j);
        listed = ((assets, e₁), made.listed);
      })

  -- A group with its own indices and two loops through its markets.
  pub record Tradable (indices : Triple ℕ) (g : TradeGroup) : Type 0 where
    pub kept : g.symbol_indices ≡ indices
    pub listed :
        All (λ i. (assets : Assets) × (market_at c markets i ≡ some assets)) (items indices)
    pub first_path : Loop (market_at c markets) (items indices) (g.paths.0)
    pub second_path : Loop (market_at c markets) (items indices) (g.paths.1)

  pub group_of-Tradable :
      (indices : Triple ℕ) {g : TradeGroup}
      → group_of c markets indices ≡ some g
      → Tradable indices g
  unfolding group_of
  group_of-Tradable indices {g} h =
      let (cs, e₁, h₁) = >>=-eq-some (candidates_of c markets (items indices)) _ h in
      let made = candidates_of-Made (items indices) e₁ in
      elim (Bool-cases (is_triangle (assets_of cs))) [
        | inl good ↦
            let (found, e₂, h₂) =
              >>=-eq-some (paths_from 3 0 cs) (paths_then indices) (ground arith) in
            let (paths, e₃, h₃) = >>=-eq-some (both_paths found) _ h₂ in
            let loops =
              paths_from-Loop (market_at c markets) (items indices) cs made.known made.fresh
                made.as_many made.same 3 0 e₂ in
            let (one, two) = both_paths-All _ found e₃ loops in
            subst (Tradable indices) (some-injective _ _ h₃)
              (record { kept = refl; listed = made.listed; first_path = one; second_path = two })
        | inr bad ↦ ground arith
      ]
