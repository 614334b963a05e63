-- ===== src/Arbitrage/Groups.antt =====
-- What `validate_arbitrage` (src/orderbook.cpp) promises to the order books and the executor.
use single_exchange_triangul.Common.{
  ℕ, ◌≤◌, String, true, Option, some, List, [], ◌∷◌, ◌≡◌, refl, arith, All, inl, inr, length,
  get_elem?, get_elem?-bound, >>=-eq-some,
}
use mathlib.Core.Path.{subst, ap}
use mathlib.Core.Option.{some-injective}
use single_exchange_triangul.Common.Dict.{Dict, lookup}
use single_exchange_triangul.Trading.{TradePath, TradeGroup, Triple, Config, items}
use single_exchange_triangul.Books.{group_ok, groups_ok, in_range, legs_listed, has_index}
use single_exchange_triangul.Json.{Document}
use single_exchange_triangul.Arbitrage.{
  Assets, group_of, market_at, add_markets, groups_of, validate_arbitrage,
}
use single_exchange_triangul.Arbitrage.Markets.{Any, Offered, add_markets-Offered}
use single_exchange_triangul.Arbitrage.Loops.{Loop, Tradable, count, indices_of, group_of-Tradable}

module _ {F : Type 0} (c : Config F) (markets : Dict Assets) where
  -- One group for each configured one, in the order of the configuration.
  abbrev pub AllTradable : List (Triple ℕ) → List TradeGroup → Type 0
  AllTradable [] [] = Unit
  AllTradable (t ∷ ts) (g ∷ gs) = Tradable c markets t g × AllTradable ts gs
  AllTradable _ _ = ⊥

  groups_of-AllTradable :
      (ts : List (Triple ℕ)) {gs : List TradeGroup}
      → groups_of c markets ts ≡ some gs
      → AllTradable ts gs
  unfolding groups_of
  groups_of-AllTradable [] h = subst (AllTradable []) (some-injective _ _ h) tt
  groups_of-AllTradable (t ∷ ts) h =
      let (g, e₁, h₁) = >>=-eq-some (group_of c markets t) _ h in
      let (gs', e₂, h₂) = >>=-eq-some (groups_of c markets ts) _ h₁ in
      subst (AllTradable (t ∷ ts)) {x = g ∷ gs'} (some-injective _ _ h₂)
        (group_of-Tradable c markets t e₁, groups_of-AllTradable ts e₂)

has_index-count : (i : ℕ) (is : List ℕ) → 1 ≤ count i is → has_index i is ≡ true
unfolding has_index
has_index-count i [] h = ground arith
has_index-count i (j ∷ is) h = ground (arith, has_index-count i is)

legs_listed-Loop :
    (at : ℕ → Option Assets) (is : List ℕ) (p : TradePath)
    → Loop at is p
    → legs_listed is (items p) ≡ true
unfolding legs_listed
legs_listed-Loop at is p l =
    let at_index =
      λ (i : ℕ) (h : 1 ≤ count i (indices_of p)). has_index-count i is (omega (arith, l.uses i)) in
    ground (
      arith,
      at_index p.first.index (ground arith),
      at_index p.second.index (ground arith),
      at_index p.third.index (ground arith),
    )

in_range-listed :
    {F : Type 0} (c : Config F) (markets : Dict Assets) (is : List ℕ)
    → All (λ i. (assets : Assets) × (market_at c markets i ≡ some assets)) is
    → in_range (length c.symbols) is ≡ true
unfolding in_range market_at
in_range-listed c markets [] h = refl
in_range-listed c markets (i ∷ is) ((assets, e), rest) =
    let (symbol, found, e') = >>=-eq-some (get_elem? c.symbols i) _ e in
    ground (arith, get_elem?-bound c.symbols i found, in_range-listed c markets is rest)

groups_ok-AllTradable :
    {F : Type 0} (c : Config F) (markets : Dict Assets) (ts : List (Triple ℕ))
    (gs : List TradeGroup)
    → AllTradable c markets ts gs
    → groups_ok (length c.symbols) gs ≡ true
unfolding groups_ok group_ok
groups_ok-AllTradable c markets [] [] h = refl
groups_ok-AllTradable c markets (t ∷ ts) [] h = absurd h
groups_ok-AllTradable c markets [] (g ∷ gs) h = absurd h
groups_ok-AllTradable c markets (t ∷ ts) (g ∷ gs) (h, hs) =
    let at = market_at c markets in
    ground (
      arith,
      ap items h.kept,
      in_range-listed c markets (items t) h.listed,
      legs_listed-Loop at (items t) (g.paths.0) h.first_path,
      legs_listed-Loop at (items t) (g.paths.1) h.second_path,
      groups_ok-AllTradable c markets ts gs hs,
    )

nothing_listed : (symbol : String) {assets : Assets} → lookup symbol [] ≡ some assets → ⊥
unfolding lookup
nothing_listed symbol h = ground arith

module _ {J : Type 0} ⦃j : Document J⦄ {F : Type 0} (c : Config F) where
  -- `validate_arbitrage` gives one group for each configured one, in that order. The group keeps its
  -- three symbols, and each of its two paths is a loop from USDT over three markets back to USDT that
  -- uses each symbol of the group as often as the group has it; the markets are the ones that the exchange offers for trading
  -- under the configured symbols.
  pub validated_groups :
      (exchange_info : J) {groups : List TradeGroup}
      → validate_arbitrage c exchange_info ≡ some groups
      → (symbols : J) × (markets : Dict Assets) × (j.field exchange_info "symbols" ≡ some symbols)
        × ((symbol : String) (assets : Assets)
            → lookup symbol markets ≡ some assets
            → Any (Offered symbol assets) (j.elements symbols))
        × AllTradable c markets c.triangle_indices groups
  unfolding validate_arbitrage
  validated_groups exchange_info {groups} h =
      let (symbols, e₁, h₁) = >>=-eq-some (j.field exchange_info "symbols") _ h in
      let (markets, e₂, h₂) = >>=-eq-some (add_markets c (j.elements symbols) []) _ h₁ in
      let made : groups_of c markets c.triangle_indices ≡ some groups = ground arith in
      (
        symbols,
        markets,
        e₁,
        (λ symbol assets found.
            elim (add_markets-Offered c (j.elements symbols) [] symbol e₂ found) [
              | inl before ↦ absurd (nothing_listed symbol before)
              | inr offered ↦ offered
            ]),
        groups_of-AllTradable c markets c.triangle_indices made,
      )

  -- The order books take every list of groups that `validate_arbitrage` gives: the tests of their
  -- constructor on the groups hold.
  pub validated_groups_ok :
      (exchange_info : J) {groups : List TradeGroup}
      → validate_arbitrage c exchange_info ≡ some groups
      → groups_ok (length c.symbols) groups ≡ true
  validated_groups_ok exchange_info {groups} h =
      let (symbols, markets, e, offered, all) = validated_groups exchange_info h in
      groups_ok-AllTradable c markets c.triangle_indices groups all
