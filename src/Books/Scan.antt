-- ===== src/Books/Scan.antt =====
-- What `scan_edge` answers (src/orderbook.cpp), and what the executor makes of it.
use mathlib.Core.Path.{subst}
use mathlib.Core.Option.{some-injective}
use single_exchange_triangul.Common.{
  ℕ, suc, ◌≡◌, refl, ap, ◌∙◌, ◌⊎◌, inl, inr, Bool, true, false, none, some, List, [], ◌∷◌, arith,
  get_elem?, >>=-eq-some, if◌then◌else◌, ◌+◌, Bool-cases, Option-cases,
}
use single_exchange_triangul.Decimal.{Arith}
use single_exchange_triangul.Trading.{
  TradeLeg, TradePath, TradeGroup, OrderBook, ArbitrageOpportunity, Config, items,
}
use single_exchange_triangul.Executor.Defs.{Setup}
use single_exchange_triangul.Executor.Cycle.{acceptable, known_path, same_path}
use single_exchange_triangul.Books.{
  Books, Quote, new_books, update, update_all, has_index, quote_leg, scan_leg, candidate_of,
  worthwhile, scan_path, scan_group, scan_groups, scan_edge,
}

-- The laws of `<` that hold of every floating-point number, NaN included.
pub record StrictOrder {F : Type 0} (f : Arith F) : Type 0 where
  pub irreflexive : (x : F) → f.lt x x ≡ false
  pub transitive : (x y z : F) → f.lt x y ≡ true → f.lt y z ≡ true → f.lt x z ≡ true

same_path_refl : (p : List TradeLeg) → same_path p p ≡ true
unfolding same_path
same_path_refl [] = refl
same_path_refl (leg ∷ p) = ground (arith, same_path_refl p)

known_first : (g : TradeGroup) → known_path (g.paths.0) g.paths ≡ true
unfolding known_path
known_first g = ground (arith, same_path_refl (items (g.paths.0)))

known_second : (g : TradeGroup) → known_path (g.paths.1) g.paths ≡ true
unfolding known_path
known_second g = ground (arith, same_path_refl (items (g.paths.1)))

module _ {F : Type 0} where
  update_all-keeps :
      (us : List (ℕ × OrderBook)) (b t : Books F)
      → update_all us b ≡ some t
      → (t.groups ≡ b.groups) × (t.max_arbitrage_usdt ≡ b.max_arbitrage_usdt)
  unfolding update_all update
  update_all-keeps [] b t e = ground arith
  update_all-keeps ((j, y) ∷ us) b t e =
      let (m, e₁, e₂) = >>=-eq-some (update j y b) _ e in
      let k = update_all-keeps us m t e₂ in ground arith

module _ {F : Type 0} ⦃f : Arith F⦄ where
  -- The opportunity's path, with the quotes of its legs from the slots.
  pub record Quoted (b : Books F) (x : ArbitrageOpportunity F) (leg : TradeLeg) (rate : F) (id : ℕ)
      : Type 0 where
    pub book : OrderBook
    pub slot : get_elem? b.orderbooks leg.index ≡ some (some book)
    pub update_id : id ≡ book.book_update_id
    pub price :
        rate
        ≡ f.times
            (f.of_int (if leg.buy then book.ask_price else book.bid_price))
            (f.pow10 book.price_exponent)

  pub record Found (b : Books F) (path : TradePath) (group_index : ℕ) (x : ArbitrageOpportunity F)
      : Type 0 where
    pub at_group : x.group_index ≡ group_index
    pub at_path : x.path ≡ path
    pub first_leg : Quoted b x path.first x.prices.first x.book_update_ids.first
    pub second_leg : Quoted b x path.second x.prices.second x.book_update_ids.second
    pub third_leg : Quoted b x path.third x.prices.third x.book_update_ids.third
    pub pays : f.le x.net_return b.edge_threshold ≡ false
    pub funded : f.le x.input_usdt f.nought ≡ false
    pub within : StrictOrder f → f.lt b.max_arbitrage_usdt x.input_usdt ≡ false

  scan_leg-quote :
      (b : Books F) (leg : TradeLeg) (output limit : F) {q : Quote F}
      → scan_leg b leg output limit ≡ some q
      → (get_elem? b.orderbooks leg.index ≡ some (some q.book))
        × (q.rate
            ≡ f.times
                (f.of_int (if leg.buy then q.book.ask_price else q.book.bid_price))
                (f.pow10 q.book.price_exponent))
        × ((q.limit ≡ limit) ⊎ (f.lt q.limit limit ≡ true))
  unfolding scan_leg quote_leg
  scan_leg-quote b leg output limit e = ground arith

  less_or_same :
      StrictOrder f
      → (m x y : F) → f.lt m x ≡ false
      → (y ≡ x) ⊎ (f.lt y x ≡ true)
      → f.lt m y ≡ false
  less_or_same o m x y h (inl e) = cc
  less_or_same o m x y h (inr e) = elim (Bool-cases (f.lt m y)) [
    | inl over ↦ absurd (ground (arith, o.transitive m y x over e))
    | inr under ↦ under
  ]

  scan_path-Found :
      (b : Books F) (group_index : ℕ) (path : TradePath) {x : ArbitrageOpportunity F}
      → scan_path b group_index path ≡ some x
      → Found b path group_index x
  unfolding scan_path worthwhile candidate_of
  scan_path-Found b group_index path {x} e =
      let (p, e₁, r₁) = >>=-eq-some (scan_leg b path.first f.one b.max_arbitrage_usdt) _ e in
      let (q, e₂, r₂) = >>=-eq-some (scan_leg b path.second p.output p.limit) _ r₁ in
      let (r, e₃, r₃) = >>=-eq-some (scan_leg b path.third q.output q.limit) _ r₂ in
      let (s₁, t₁, l₁) = scan_leg-quote b path.first f.one b.max_arbitrage_usdt {q = p} e₁ in
      let (s₂, t₂, l₂) = scan_leg-quote b path.second p.output p.limit {q = q} e₂ in
      let (s₃, t₃, l₃) = scan_leg-quote b path.third q.output q.limit {q = r} e₃ in
      let c = candidate_of group_index path p q r in
      let (same, good) = accepted c (worthwhile b r.output c) r₃ in
      subst (Found b path group_index) same (record {
        at_group = refl;
        at_path = refl;
        first_leg = record { book = p.book; slot = s₁; update_id = refl; price = t₁ };
        second_leg = record { book = q.book; slot = s₂; update_id = refl; price = t₂ };
        third_leg = record { book = r.book; slot = s₃; update_id = refl; price = t₃ };
        pays = ground arith;
        funded = ground arith;
        within = λ o.
            less_or_same o _ q.limit r.limit
              (less_or_same o _ p.limit q.limit
                (less_or_same o _ _ p.limit (o.irreflexive b.max_arbitrage_usdt) l₁) l₂)
              l₃;
      })
    where
      accepted :
          (c : ArbitrageOpportunity F) (t : Bool)
          → (if t then some c else none) ≡ some x
          → (c ≡ x) × (t ≡ true)
      accepted c true e' = (some-injective _ _ e', refl)
      accepted c false e' = cc

  -- The group that an answer comes from.
  pub record Answer (b : Books F) (groups : List TradeGroup) (k : ℕ) (index : ℕ)
      (x : ArbitrageOpportunity F) : Type 0 where
    pub number : ℕ
    pub group : TradeGroup
    pub group_at : get_elem? groups number ≡ some group
    pub touches : has_index index (items group.symbol_indices) ≡ true
    pub found : Found b (group.paths.0) (k + number) x ⊎ Found b (group.paths.1) (k + number) x

  scan_group-Found :
      (b : Books F) (k : ℕ) (g : TradeGroup) {x : ArbitrageOpportunity F}
      → scan_group b k g ≡ some x
      → Found b (g.paths.0) k x ⊎ Found b (g.paths.1) k x
  unfolding scan_group
  scan_group-Found b k g {x} e = elim (Option-cases (scan_path b k (g.paths.0))) [
    | inl none_first ↦ inr (scan_path-Found b k (g.paths.1) (ground arith))
    | inr (y, first) ↦ inl (scan_path-Found b k (g.paths.0) (ground arith))
  ]

  scan_groups-Answer :
      (b : Books F) (index k : ℕ) (groups : List TradeGroup) {x : ArbitrageOpportunity F}
      → scan_groups b index k groups ≡ some x
      → Answer b groups k index x
  unfolding scan_groups
  scan_groups-Answer b index k [] e = cc
  scan_groups-Answer b index k (g ∷ groups) {x} e =
      elim (Bool-cases (has_index index (items g.symbol_indices))) [
        | inr other ↦ later (scan_groups-Answer b index (k + 1) groups (ground arith))
        | inl listed ↦ elim (Option-cases (scan_group b k g)) [
          | inl empty ↦ later (scan_groups-Answer b index (k + 1) groups (ground arith))
          | inr (y, here) ↦ record {
            number = 0;
            group = g;
            group_at = refl;
            touches = listed;
            found =
                subst (λ n. Found b (g.paths.0) n x ⊎ Found b (g.paths.1) n x) (omega arith)
                  (scan_group-Found b k g {x = x} (ground arith));
          }
        ]
      ]
    where
      later : Answer b groups (k + 1) index x → Answer b (g ∷ groups) k index x
      later w = record {
        number = suc w.number;
        group = w.group;
        group_at = w.group_at;
        touches = w.touches;
        found =
            subst (λ n. Found b (w.group.paths.0) n x ⊎ Found b (w.group.paths.1) n x) (omega arith)
              w.found;
      }

  -- An answer of `scan_edge` is the index of a group that trades the symbol, with one of the group's
  -- two paths; each leg has a book, whose update id and price the opportunity carries; its net return
  -- exceeds the threshold, and its input is above zero and, where `<` is a strict order, not above the
  -- maximum.
  pub scan_edge_sound :
      (b : Books F) (index : ℕ) {x : ArbitrageOpportunity F}
      → scan_edge b index ≡ some (some x)
      → Answer b b.groups 0 index x
  unfolding scan_edge
  scan_edge_sound b index e = scan_groups-Answer b index 0 b.groups (ground arith)

  new_books-config :
      (c : Config F) {b : Books F}
      → new_books c ≡ some b
      → (b.groups ≡ c.trading_groups) × (b.max_arbitrage_usdt ≡ c.max_arbitrage_usdt)
  unfolding new_books
  new_books-config c e = ground arith

  module _ {D : Type 0} where
    Found-acceptable :
        (u : Setup D F) (b : Books F) (g : TradeGroup) (k : ℕ) (p : TradePath)
        (x : ArbitrageOpportunity F)
        → StrictOrder f
        → b.max_arbitrage_usdt ≡ u.config.max_arbitrage_usdt
        → get_elem? u.config.trading_groups k ≡ some g
        → known_path p g.paths ≡ true
        → Found b p k x
        → acceptable u x ≡ true
    unfolding acceptable
    Found-acceptable u b g k p x o most at known i =
        let under = i.within o in
        let in_group : get_elem? u.config.trading_groups x.group_index ≡ some g =
          ground (arith, i.at_group) in
        let on_path : known_path x.path g.paths ≡ true =
          ap (λ q. known_path q g.paths) i.at_path ∙ known in
        let rich = i.funded in ground arith

    -- Where `<` is a strict order, whatever a manager of the executor's configuration answers after
    -- any updates passes the executor's tests on an opportunity: the group, the amount and the path.
    pub scan_edge-acceptable :
        StrictOrder f
        → (u : Setup D F) (us : List (ℕ × OrderBook)) {b t : Books F} → new_books u.config ≡ some b
        → update_all us b ≡ some t
        → (index : ℕ) {x : ArbitrageOpportunity F} → scan_edge t index ≡ some (some x)
        → acceptable u x ≡ true
    scan_edge-acceptable o u us {b} {t} made updated index {x} e =
        let (g₁, m₁) = new_books-config u.config {b = b} made in
        let (g₂, m₂) = update_all-keeps us b t updated in
        let w = scan_edge_sound t index {x = x} e in
        let at : get_elem? u.config.trading_groups w.number ≡ some w.group =
          subst (λ gs. get_elem? gs w.number ≡ some w.group) (g₂ ∙ g₁) w.group_at in
        let same : get_elem? u.config.trading_groups (0 + w.number) ≡ some w.group =
          subst (λ n. get_elem? u.config.trading_groups n ≡ some w.group) (omega arith) at in
        elim (w.found) [
          | inl i ↦
              Found-acceptable u t w.group (0 + w.number) _ x o (m₂ ∙ m₁) same (known_first w.group)
                i
          | inr i ↦
              Found-acceptable u t w.group (0 + w.number) _ x o (m₂ ∙ m₁) same
                (known_second w.group) i
        ]
