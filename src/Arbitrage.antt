-- ===== src/Arbitrage.antt =====
-- `validate_arbitrage` (src/orderbook.cpp): from the configured groups and the exchange's markets to
-- the groups with their two paths each.
pub mod Hops
pub mod Loops
pub mod Markets
pub mod Groups
mod Tests
use text.Mathlib.Text.{◌==◌ as str_eq}
use single_exchange_triangul.Common.{
  ℕ, zero, suc, ◌+◌, String, Bool, true, false, not, ◌&&◌, ◌||◌, ◌==◌, Option, none, some, List, [],
  ◌∷◌, length, get_elem?, if◌then◌else◌, is_some, ◌>>=◌,
}
use single_exchange_triangul.Common.Dict.{Dict, lookup, insert, find_or}
use single_exchange_triangul.Trading.{TradeLeg, Triple, TradePath, TradeGroup, Config, items}
use single_exchange_triangul.Json.{Document, text_at}

-- The base and the quote asset of a market.
abbrev pub Assets : Type 0
Assets = String × String

module _ {J : Type 0} ⦃j : Document J⦄ where
  -- The rest of the round for a configured symbol. `emplace` leaves an entry that is there.
  unfoldable pub accept_market : J → String → Dict Assets → Option (Dict Assets)
  unfolding text_at lookup insert
  accept_market market symbol markets = do
    status ← text_at market "status"
    allowed ← j.field market "isSpotTradingAllowed" >>= j.flag
    base ← text_at market "baseAsset"
    quote ← text_at market "quoteAsset"
    let refused =
        not (str_eq status "TRADING")
        || not allowed
        || str_eq base ""
        || str_eq quote ""
        || str_eq base quote
    if refused
        then none
        else some (
            if is_some (lookup symbol markets)
            then markets
            else insert symbol (base, quote) markets)

module _ {J : Type 0} ⦃j : Document J⦄ {F : Type 0} where
  -- One round of the loop over the exchange's markets; `none` is an exception.
  unfoldable pub add_market : Config F → J → Dict Assets → Option (Dict Assets)
  unfolding accept_market lookup
  add_market c market markets = do
    symbol ← text_at market "symbol"
    if is_some (lookup symbol c.symbol_indices)
        then accept_market market symbol markets
        else some markets

  unfoldable pub add_markets : Config F → List J → Dict Assets → Option (Dict Assets)
  unfolding add_market
  add_markets c [] markets = some markets
  add_markets c (x ∷ xs) markets = do more ← add_market c x markets; add_markets c xs more

unfoldable pub all_listed : List String → Dict Assets → Bool
unfolding lookup
all_listed [] markets = true
all_listed (symbol ∷ symbols) markets =
    is_some (lookup symbol markets) && all_listed symbols markets

-- `degree`: how many of the markets have an asset.
unfoldable pub count_degrees : List Assets → Dict ℕ → Dict ℕ
unfolding insert find_or
count_degrees [] degree = degree
count_degrees ((base, quote) ∷ markets) degree =
    let once = insert base (find_or 0 base degree + 1) degree in
    count_degrees markets (insert quote (find_or 0 quote once + 1) once)

unfoldable pub all_two : Dict ℕ → Bool
all_two [] = true
all_two ((asset, n) ∷ degree) = n == 2 && all_two degree

unfoldable pub is_triangle : List Assets → Bool
unfolding count_degrees all_two
is_triangle markets = let degree = count_degrees markets [] in length degree == 3 && all_two degree

-- A market of a group, and whether the path under construction has used it.
pub record Candidate : Type 0 where
  pub index : ℕ
  pub assets : Assets
  pub used : Bool

-- `markets.at(config.symbols.at(index))`.
unfoldable pub market_at : {F : Type 0} → Config F → Dict Assets → ℕ → Option Assets
unfolding lookup
market_at c markets index = do symbol ← get_elem? c.symbols index; lookup symbol markets

unfoldable pub candidates_of :
    {F : Type 0} → Config F → Dict Assets → List ℕ → Option (List Candidate)
unfolding market_at
candidates_of c markets [] = some []
candidates_of c markets (i ∷ is) = do
  assets ← market_at c markets i
  rest ← candidates_of c markets is
  some (record { index = i; assets = assets; used = false } ∷ rest)

abbrev pub has_asset : String → Assets → Bool
has_asset asset (base, quote) = str_eq asset base || str_eq asset quote

-- A conversion of `current` in a market: the leg, the asset that it yields.
abbrev pub convert : String → Candidate → TradeLeg × String
convert current c =
    let buy = str_eq current c.assets.1 in
    (record { index = c.index; buy = buy }, if buy then c.assets.0 else c.assets.1)

-- The loop over `candidate`: the first unused market that has `current`.
unfoldable pub hop : String → List Candidate → Option ((TradeLeg × String) × List Candidate)
hop current [] = none
hop current (c ∷ cs) =
    let rest = hop current cs in
    if c.used || not (has_asset current c.assets)
    then (do (got, more) ← rest; some (got, c ∷ more))
    else some (convert current c, record c { used = true } ∷ cs)

-- The start at the market with the number `first_leg`: `none` where it has no USDT.
unfoldable pub first_hop : ℕ → List Candidate → Option ((TradeLeg × String) × List Candidate)
first_hop i [] = none
first_hop zero (c ∷ cs) =
    if has_asset "USDT" c.assets
    then some (convert "USDT" c, record c { used = true } ∷ cs)
    else none
first_hop (suc i) (c ∷ cs) = do (got, more) ← first_hop i cs; some (got, c ∷ more)

-- The two further conversions of a path, which must come back to USDT.
unfoldable pub complete : (TradeLeg × String) × List Candidate → Option (Option TradePath)
unfolding hop
complete ((leg, current), cs) = do
  next ← hop current cs
  last ← hop next.0.1 next.1
  let path : TradePath = record { first = leg; second = next.0.0; third = last.0.0 }
  if str_eq last.0.1 "USDT" then some (some path) else none

-- One round of the loop over `first_leg`; the inner `none` is its `continue`.
unfoldable pub path_at : ℕ → List Candidate → Option (Option TradePath)
unfolding first_hop complete
path_at i cs = elim (first_hop i cs) [ none ↦ some none | some start ↦ complete start ]

-- The loop from `first_leg` on, over the legs that are left.
unfoldable pub paths_from : ℕ → ℕ → List Candidate → Option (List TradePath)
unfolding path_at
paths_from zero i cs = some []
paths_from (suc left) i cs = do
  path ← path_at i cs
  rest ← paths_from left (suc i) cs
  some (elim path [ none ↦ rest | some p ↦ p ∷ rest ])

-- There is room for two paths, and there must be two.
abbrev pub both_paths : List TradePath → Option (TradePath × TradePath)
both_paths (p ∷ q ∷ []) = some (p, q)
both_paths _ = none

abbrev pub assets_of : List Candidate → List Assets
assets_of [] = []
assets_of (c ∷ cs) = c.assets ∷ assets_of cs

unfoldable pub group_of : {F : Type 0} → Config F → Dict Assets → Triple ℕ → Option TradeGroup
unfolding candidates_of is_triangle paths_from
group_of c markets indices = do
  cs ← candidates_of c markets (items indices)
  if not (is_triangle (assets_of cs)) then none else do
    found ← paths_from 3 0 cs
    paths ← both_paths found
    some (record { symbol_indices = indices; paths = paths })

unfoldable pub groups_of :
    {F : Type 0} → Config F → Dict Assets → List (Triple ℕ) → Option (List TradeGroup)
unfolding group_of
groups_of c markets [] = some []
groups_of c markets (t ∷ ts) = do
  g ← group_of c markets t
  gs ← groups_of c markets ts
  some (g ∷ gs)

unfoldable pub validate_arbitrage :
    {J F : Type 0} ⦃j : Document J⦄ → Config F → J → Option (List TradeGroup)
unfolding add_markets all_listed groups_of
validate_arbitrage ⦃j⦄ c exchange_info = do
  symbols ← j.field exchange_info "symbols"
  markets ← add_markets c (j.elements symbols) []
  if all_listed c.symbols markets then groups_of c markets c.triangle_indices else none
