-- ===== src/Executor/Clearing.antt =====
-- What the clearing of the initial position may do (src/execution/execution.cpp).
pub mod History
use mathlib.Core.Path.{subst}
use mathlib.Core.Option.{some-injective}
use text.Mathlib.Text.{◌==◌ as str_eq}
use text.Mathlib.TextEquality.{eq_iff}
use single_exchange_triangul.Common.{
  ℕ, suc, ◌+◌, ◌≤◌, ◌<◌, String, ◌≡◌, refl, ◌≢◌, ◌⊎◌, inl, inr, Bool, true, false, not, ◌||◌, ltb,
  ◌*◌, ◌&&◌, Option, none, some, List, [], ◌∷◌, arith, >>=-eq-some, ◌>>=◌, Bool-cases, Option-cases,
  get_elem?, if◌then◌else◌,
}
use single_exchange_triangul.Decimal.{Arith, Wire, Widen}
use single_exchange_triangul.Trading.{TradeLeg, Market, OrderBook, Snapshot}
use single_exchange_triangul.Executor.Defs.{
  Setup, Env, Exec, Effect, OrderRequest, OrderReport, submitted, send,
}
use single_exchange_triangul.Executor.Sizing.{prepared, prepare_at, fresh, prepare_from_book}
use single_exchange_triangul.Executor.Filters.{Placed, prepare_from_book-Placed}
use single_exchange_triangul.Executor.Cycle.{spends}
use single_exchange_triangul.Executor.Cleanup.{
  submit, wait, skip, protected_asset, exit_leg, clear_at, clear_by, clear_asset, clear_order,
}

abbrev pub receives : {D : Type 0} → Market D → Bool → String
receives m buy = if buy then m.base else m.quote

-- A leg out of the asset and into USDT.
abbrev pub Exits : {D : Type 0} → String → Market D → Bool → Type 0
Exits asset m buy = (spends m buy ≡ asset) × (receives m buy ≡ "USDT")

exit_leg-Exits :
    {D : Type 0} (asset : String) (k : ℕ) (ms : List (Market D)) (best : Option TradeLeg)
    {leg : TradeLeg}
    → exit_leg asset k ms best ≡ some leg
    → (best ≡ some leg)
      ⊎ ((i : ℕ) × (m : Market D) × (leg.index ≡ k + i)
          × (get_elem? ms i ≡ some m)
          × Exits asset m leg.buy)
unfolding exit_leg
exit_leg-Exits {D} asset k [] best e = inl e
exit_leg-Exits {D} asset k (m ∷ ms) best {leg} e =
    elim (Bool-cases (str_eq m.base asset && str_eq m.quote "USDT")) [
      | inl sells ↦ inr (
        0,
        m,
        ground arith,
        refl,
        (
          ground (arith, eq_iff m.base asset, eq_iff m.quote "USDT"),
          ground (arith, eq_iff m.base asset, eq_iff m.quote "USDT"),
        ),
      )
      | inr other ↦ go (exit_leg-Exits asset (suc k) ms _ (rw other at e))
    ]
  where
    go :
        (((if str_eq m.base "USDT" && str_eq m.quote asset
              then some (record { index = k; buy = true })
              else best)
            ≡ some leg)
          ⊎ ((i : ℕ) × (x : Market D) × (leg.index ≡ suc k + i)
              × (get_elem? ms i ≡ some x)
              × Exits asset x leg.buy))
        → (best ≡ some leg)
          ⊎ ((i : ℕ) × (x : Market D) × (leg.index ≡ k + i)
              × (get_elem? (m ∷ ms) i ≡ some x)
              × Exits asset x leg.buy)
    go (inr (i, x, at, e', exits)) = inr (suc i, x, omega arith, e', exits)
    go (inl e') = elim (Bool-cases (str_eq m.base "USDT" && str_eq m.quote asset)) [
      | inr neither ↦ inl (rw neither at e')
      | inl buys ↦ inr (
        0,
        m,
        ground arith,
        refl,
        (
          ground (arith, eq_iff m.base "USDT", eq_iff m.quote asset),
          ground (arith, eq_iff m.base "USDT", eq_iff m.quote asset),
        ),
      )
    ]

module _ {D F : Type 0} ⦃a : Arith D⦄ ⦃w : Wire D⦄ (u : Setup D F) where
  prepare_from_book-fields :
      (now : ℕ) (leg : TradeLeg) (amount : D) (clear : Bool) (snapshot : Snapshot)
      {o : OrderRequest}
      → prepare_from_book u now leg amount clear snapshot ≡ some (prepared o)
      → (o.initial_clear ≡ clear) × (o.symbol_index ≡ leg.index) × (o.buy ≡ leg.buy)
  unfolding prepare_from_book
  prepare_from_book-fields now leg amount clear snapshot e = ground arith

  clear_at-submit :
      (v : Env D) (now : ℕ) (leg : TradeLeg) (m : Market D) (book : OrderBook) (amount : D) (n : ℕ)
      {o : OrderRequest}
      → clear_at u v now leg m book amount n ≡ some (submit o)
      → (n < u.options.max_initial_clear_orders)
        × (o.initial_clear ≡ true)
        × (o.symbol_index ≡ leg.index)
        × (o.buy ≡ leg.buy)
        × Placed u o
  unfolding clear_at
  clear_at-submit v now leg m book amount n {o} e = ground (
    arith,
    prepare_from_book-fields now leg amount true v.snapshot {o = o},
    prepare_from_book-Placed u now leg amount true v.snapshot {o = o},
  )

  -- The order that the loop sends for an asset.
  pub record Sells (asset : String) (n : ℕ) (o : OrderRequest) : Type 0 where
    pub initial_clear : o.initial_clear ≡ true
    pub unprotected : protected_asset asset ≡ false
    pub placed : Placed u o
    pub under_limit : n < u.options.max_initial_clear_orders
    pub exits : (m : Market D) × (get_elem? u.markets o.symbol_index ≡ some m) × Exits asset m o.buy

  Sells-at :
      (asset : String) (n : ℕ) (leg : TradeLeg) {o : OrderRequest}
      → protected_asset asset ≡ false
      → exit_leg asset 0 u.markets none ≡ some leg
      → (n < u.options.max_initial_clear_orders)
        × (o.initial_clear ≡ true)
        × (o.symbol_index ≡ leg.index)
        × (o.buy ≡ leg.buy)
        × Placed u o
      → Sells asset n o
  Sells-at asset n leg {o} open' found (under, clear, at, side, fits) = record {
    initial_clear = clear;
    unprotected = open';
    under_limit = under;
    placed = fits;
    exits = go (exit_leg-Exits asset 0 u.markets none found);
  }
    where
      go :
          (none ≡ some leg)
            ⊎ ((i : ℕ) × (m : Market D) × (leg.index ≡ 0 + i)
                × (get_elem? u.markets i ≡ some m)
                × Exits asset m leg.buy)
          → (m : Market D) × (get_elem? u.markets o.symbol_index ≡ some m) × Exits asset m o.buy
      go (inl e) = cc
      go (inr (i, m, e, listed, exits)) =
          let same : o.symbol_index ≡ i = omega (arith, at, e) in (m, rw same listed, rw side exits)

  clear_by-submit :
      (v : Env D) (k : ℕ) (leg : TradeLeg) (amount : D) (s : Exec D F) {o : OrderRequest}
      → clear_by u v k leg amount s ≡ some (submit o)
      → (s.clear_orders < u.options.max_initial_clear_orders)
        × (o.initial_clear ≡ true)
        × (o.symbol_index ≡ leg.index)
        × (o.buy ≡ leg.buy)
        × Placed u o
  unfolding clear_by
  clear_by-submit v k leg amount s {o} e =
      let (m, e₁, rest) = >>=-eq-some (get_elem? u.markets leg.index) _ e in
      let (slot, e₂, e₃) = >>=-eq-some (get_elem? v.snapshot leg.index) _ rest in go m slot e₃
    where
      late : Bool
      late = ltb (v.clock (3 * k + 1)) s.cleanup_deadline_ns

      go :
          (m : Market D) (slot : Option OrderBook)
          → elim slot [
            | none ↦ some (if late then wait else skip "missing_orderbook")
            | some book ↦
                if fresh u.options (v.clock (3 * k)) book
                then clear_at u v (v.clock (3 * k + 2)) leg m book amount s.clear_orders
                else some (if late then wait else skip "stale_orderbook")
          ]
            ≡ some (submit o)
          → (s.clear_orders < u.options.max_initial_clear_orders)
            × (o.initial_clear ≡ true)
            × (o.symbol_index ≡ leg.index)
            × (o.buy ≡ leg.buy)
            × Placed u o
      go m none e' = ground arith
      go m (some book) e' =
          ground (
            arith,
            clear_at-submit v (v.clock (3 * k + 2)) leg m book amount s.clear_orders {o = o},
          )

  pub clear_asset-submit :
      (v : Env D) (k : ℕ) (asset : String) (amount : D) (s : Exec D F) {o : OrderRequest}
      → clear_asset u v k asset amount s ≡ some (submit o)
      → Sells asset s.clear_orders o
  unfolding clear_asset
  clear_asset-submit v k asset amount s {o} e = elim (Bool-cases (protected_asset asset)) [
    | inl kept ↦ ground arith
    | inr free ↦ elim (Option-cases (exit_leg asset 0 u.markets none)) [
      | inl missing ↦ ground arith
      | inr (leg, found) ↦
          Sells-at asset s.clear_orders leg free found
            (clear_by-submit v k leg amount s (rw (free, found) at e))
    ]
  ]
