-- ===== src/Paper/Orders.antt =====
-- What the paper gateway answers (src/execution/paper_gateway.cpp).
use single_exchange_triangul.Common.{
  ◌≡◌, refl, sym, ◌⊎◌, inl, inr, true, false, not, ◌&&◌, ◌||◌, none, some, List, [], ◌∷◌, arith,
  Option-cases, Bool-cases, get_elem?, ◌≢◌, String, if◌then◌else◌,
}
use single_exchange_triangul.Decimal.{Arith, Wire}
use single_exchange_triangul.Trading.{OrderBook, Market, Snapshot}
use single_exchange_triangul.Executor.Defs.{
  OrderRequest, OrderReport, ClientId, same_id, same_id_refl, same_id-eq, filled, rejected,
}
use mathlib.Core.Path.{subst}
use text.Mathlib.TextEquality.{eq_iff}
use single_exchange_triangul.Common.Dict.{Dict, find_or, find_or-insert}
use single_exchange_triangul.Executor.Cycle.{touch, spends}
use single_exchange_triangul.Executor.Sizing.{down, price_of, min_of, quantity_of}
use single_exchange_triangul.Paper.{
  Exchange, Paper, Liquidity, find_order, unfilled, trade, match_order, place, fill, query,
  fill_all, order_invalid, usage_of, find_usage, put_usage,
}

module _ {D : Type 0} ⦃a : Arith D⦄ where
  trade-client_id :
      (x : Exchange D) (q : OrderRequest) (m : Market D) (n p l : D) (u : Liquidity D) (s : Paper D)
      → ((trade x q m n p l u s).1.client_id ≡ q.client_id)
        × ((trade x q m n p l u s).0.orders ≡ s.orders)
  unfolding trade
  trade-client_id x q m n p l u s = ground arith

  match_order-client_id :
      (x : Exchange D) (q : OrderRequest) (m : Market D) (n l : D) (b : OrderBook) (s : Paper D)
      → ((match_order x q m n l b s).1.client_id ≡ q.client_id)
        × ((match_order x q m n l b s).0.orders ≡ s.orders)
  unfolding match_order
  match_order-client_id x q m n l b s = ground arith

  module _ ⦃w : Wire D⦄ where
    place-client_id :
        (x : Exchange D) (b : Snapshot) (q : OrderRequest) (s : Paper D)
        → ((place x b q s).1.client_id ≡ q.client_id) × ((place x b q s).0.orders ≡ s.orders)
    unfolding place
    place-client_id x b q s = ground arith

    -- A report that is known stays known, whatever is filled.
    fill-keeps :
        (x : Exchange D) (b : Snapshot) (q : OrderRequest) (s : Paper D) (id : ClientId)
        {r : OrderReport D}
        → find_order id s.orders ≡ some r
        → find_order id (fill x b q s).0.orders ≡ some r
    unfolding fill find_order
    fill-keeps x b q s id {r} e = elim (Option-cases (find_order q.client_id s.orders)) [
      | inr (old, known) ↦ ground arith
      | inl new ↦
          let (same, kept) = place-client_id x b q s in
          elim (Bool-cases (same_id q.client_id id)) [
            | inr other ↦ ground arith
            | inl equal ↦ ground (arith, same_id-eq q.client_id id)
          ]
    ]

    fill-known :
        (x : Exchange D) (b : Snapshot) (q : OrderRequest) (s : Paper D)
        → find_order q.client_id (fill x b q s).0.orders ≡ some (fill x b q s).1
    unfolding fill find_order
    fill-known x b q s = elim (Option-cases (find_order q.client_id s.orders)) [
      | inr (old, known) ↦ ground arith
      | inl new ↦
          let (same, kept) = place-client_id x b q s in ground (arith, same_id_refl q.client_id)
    ]

    fill_all-keeps :
        (x : Exchange D) (qs : List (Snapshot × OrderRequest)) (s : Paper D) (id : ClientId)
        {r : OrderReport D}
        → find_order id s.orders ≡ some r
        → find_order id (fill_all x qs s).orders ≡ some r
    unfolding fill_all
    fill_all-keeps x [] s id e = e
    fill_all-keeps x ((b, q) ∷ qs) s id e =
        fill_all-keeps x qs (fill x b q s).0 id (fill-keeps x b q s id e)

    find_order-same :
        (id id' : ClientId) (rs : List (OrderReport D))
        → same_id id id' ≡ true
        → find_order id rs ≡ find_order id' rs
    find_order-same id id' rs h = cc (same_id-eq id id' h)

    -- Once an order is filled, the same client id is answered with the same report, whatever orders
    -- are filled in between and whatever the books then are: a second `fill` answers it and changes
    -- nothing, and `query` answers it.
    pub fill_idempotent :
        (x : Exchange D) (b b' : Snapshot) (q q' : OrderRequest)
        (qs : List (Snapshot × OrderRequest)) (s : Paper D)
        → same_id q.client_id q'.client_id ≡ true
        → let t = fill_all x qs (fill x b q s).0 in
          (fill x b' q' t ≡ (t, (fill x b q s).1)) × (query q' t ≡ (fill x b q s).1)
    unfolding fill query
    fill_idempotent x b b' q q' qs s h =
        let t = fill_all x qs (fill x b q s).0 in
        let known = fill_all-keeps x qs (fill x b q s).0 q.client_id (fill-known x b q s) in
        let found = find_order-same q.client_id q'.client_id t.orders h in ground arith

module _ {D : Type 0} ⦃a : Arith D⦄ where
  -- Nothing was filled, and every balance is what it was.
  pub record Killed (r : OrderReport D) (before after : Dict D) : Type 0 where
    pub not_filled : r.status ≢ filled
    pub no_qty : r.filled_qty ≡ a.nought
    pub no_quote : r.filled_quote ≡ a.nought
    pub no_fee : r.commissions ≡ []
    pub wallet_kept : (k : String) → find_or a.nought k after ≡ find_or a.nought k before

  -- The whole quantity was filled, at the book's price, which is no worse than the limit.
  pub record Complete (m : Market D) (q : OrderRequest) (quantity limit : D) (b : OrderBook)
      (r : OrderReport D) : Type 0 where
    pub is_filled : r.status ≡ filled
    pub whole_qty : (r.filled_qty ≡ down quantity m.step) × (a.eq r.filled_qty quantity ≡ true)
    pub price_paid : r.filled_quote ≡ a.times r.filled_qty (price_of b q.buy)
    pub within_limit :
        (if q.buy then a.lt limit (price_of b q.buy) else a.lt (price_of b q.buy) limit) ≡ false

  find_or-touch :
      (k j : String) (w : Dict D) → find_or a.nought j (touch k w) ≡ find_or a.nought j w
  unfolding touch
  find_or-touch k j w =
      ground (arith, find_or-insert a.nought k j (find_or a.nought k w) w, eq_iff k j)

  trade-whole :
      (x : Exchange D) (q : OrderRequest) (m : Market D) (n l : D) (b : OrderBook) (v : D)
      (u : Liquidity D) (s : Paper D)
      → a.lt v n ≡ false
      → a.eq (down n m.step) n ≡ true
      → (if q.buy then a.lt l (price_of b q.buy) else a.lt (price_of b q.buy) l) ≡ false
      → let (t, r) = trade x q m n (price_of b q.buy) v u s in
        Killed r s.wallet t.wallet ⊎ Complete m q n l b r
  unfolding trade unfilled
  trade-whole x q m n l b v u s h k lim =
      let base = down (min_of n v) m.step in
      let cost = if q.buy then a.times base (price_of b q.buy) else base in
      elim (Bool-cases (a.le base a.nought)) [
        | inl empty ↦ inl (record {
          not_filled = ground arith;
          no_qty = ground arith;
          no_quote = ground arith;
          no_fee = ground arith;
          wallet_kept = λ j. ground arith;
        })
        | inr some_base ↦
            elim (Bool-cases (a.lt (find_or a.nought (spends m q.buy) s.wallet) cost)) [
              | inl short ↦ inl (record {
                not_filled = ground arith;
                no_qty = ground arith;
                no_quote = ground arith;
                no_fee = ground arith;
                wallet_kept = λ j. ground (arith, find_or-touch (spends m q.buy) j s.wallet);
              })
              | inr enough ↦ inr (record {
                is_filled = ground arith;
                whole_qty = (ground arith, ground arith);
                price_paid = ground arith;
                within_limit = lim;
              })
            ]
      ]

  rejected-Killed : (q : OrderRequest) (w : Dict D) → Killed (unfilled q rejected) w w
  unfolding unfilled
  rejected-Killed q w = record {
    not_filled = ground arith;
    no_qty = refl;
    no_quote = refl;
    no_fee = refl;
    wallet_kept = λ j. refl;
  }

  order_invalid-whole :
      (m : Market D) (n l : D) → order_invalid m n l ≡ false → a.eq (down n m.step) n ≡ true
  unfolding order_invalid
  order_invalid-whole m n l h = ground arith

  match_order-whole :
      (x : Exchange D) (q : OrderRequest) (m : Market D) (n l : D) (b : OrderBook) (s : Paper D)
      → q.initial_clear ≡ false
      → a.eq (down n m.step) n ≡ true
      → let (t, r) = match_order x q m n l b s in Killed r s.wallet t.wallet ⊎ Complete m q n l b r
  unfolding match_order
  match_order-whole x q m n l b s fok whole =
      let price = price_of b q.buy in
      let usage = usage_of b (find_usage q.symbol_index q.buy s.consumed) in
      let available = a.minus (quantity_of b q.buy) usage.used in
      let seen = record s { consumed = put_usage q.symbol_index q.buy usage s.consumed } in
      let over = if q.buy then a.lt l price else a.lt price l in
      elim (Bool-cases (
        a.le price a.nought
        || a.le available a.nought
        || over
        || (not q.initial_clear && a.lt available n))) [
          | inl refuse ↦ inl (record {
            not_filled = ground arith;
            no_qty = ground arith;
            no_quote = ground arith;
            no_fee = ground arith;
            wallet_kept = λ j. ground arith;
          })
          | inr good ↦
              elim (trade-whole x q m n l b available usage seen (ground arith) whole
                (ground arith)) [
                  | inl killed ↦ inl (rw good killed)
                  | inr complete ↦ inr (rw good complete)
                ]
        ]

  module _ ⦃w : Wire D⦄ where
    -- Nothing was filled, or everything at the book of the order's market.
    abbrev pub Verdict :
        Exchange D → Snapshot → OrderRequest → Dict D → Paper D × OrderReport D → Type 0
    Verdict x c q before (t, r) =
        Killed r before t.wallet
        ⊎ ((m : Market D) × (b : OrderBook) × (get_elem? x.markets q.symbol_index ≡ some m)
            × (get_elem? c q.symbol_index ≡ some (some b))
            × Complete m q (w.of_text q.quantity) (w.of_text q.price) b r)

    place-whole :
        (x : Exchange D) (c : Snapshot) (q : OrderRequest) (s : Paper D)
        → q.initial_clear ≡ false
        → Verdict x c q s.wallet (place x c q s)
    unfolding place
    place-whole x c q s fok =
        let quantity = w.of_text q.quantity in
        let limit = w.of_text q.price in
        let refuse : place x c q s ≡ (s, unfilled q rejected)
            → Verdict x c q s.wallet (place x c q s) =
          λ e. subst (Verdict x c q s.wallet) (sym e) (inl (rejected-Killed q s.wallet)) in
        elim (Option-cases (get_elem? x.markets q.symbol_index)) [
          | inl missing ↦ refuse (ground arith)
          | inr (m, found) ↦ elim (Bool-cases (order_invalid m quantity limit)) [
            | inl bad ↦ refuse (ground arith)
            | inr good ↦ elim (Option-cases (get_elem? c q.symbol_index)) [
              | inl out ↦ refuse (ground arith)
              | inr (slot, at) ↦ elim (Option-cases slot) [
                | inl empty ↦ refuse (ground arith)
                | inr (b, here) ↦
                    let e : place x c q s ≡ match_order x q m quantity limit b s = ground arith in
                    subst (Verdict x c q s.wallet) (sym e)
                      (elim (match_order-whole x q m quantity limit b s fok
                        (order_invalid-whole m quantity limit good)) [
                          | inl killed ↦ inl killed
                          | inr complete ↦ inr (m, b, found, ground arith, complete)
                        ])
              ]
            ]
          ]
        ]

    -- An order other than of the clean-up is filled whole or not at all. With a client id not seen
    -- before, either the report has no fill and no balance changes, or its market and its book exist,
    -- the quantity is filled as a whole number of steps, and the price of the book that it pays is no
    -- worse than its limit.
    pub fill_or_kill :
        (x : Exchange D) (c : Snapshot) (q : OrderRequest) (s : Paper D)
        → q.initial_clear ≡ false
        → find_order q.client_id s.orders ≡ none
        → Verdict x c q s.wallet (fill x c q s)
    unfolding fill
    fill_or_kill x c q s fok new =
        let (t, r) = place x c q s in
        let e : fill x c q s ≡ (record t { orders = r ∷ t.orders }, r) = ground arith in
        subst (Verdict x c q s.wallet) (sym e) (place-whole x c q s fok)
