-- ===== src/Paper/Wallet.antt =====
-- What the paper gateway does with the wallet (src/execution/paper_gateway.cpp).
use single_exchange_triangul.Common.{
  String, ◌≡◌, inl, inr, true, false, List, [], ◌∷◌, arith, Option-cases, Bool-cases, get_elem?,
  All, if◌then◌else◌,
}
use single_exchange_triangul.Common.Dict.{Dict, insert, find_or}
use single_exchange_triangul.Decimal.{Arith, Wire}
use single_exchange_triangul.Trading.{OrderBook, Market, Snapshot}
use single_exchange_triangul.Executor.Defs.{OrderRequest}
use single_exchange_triangul.Executor.Sizing.{down, min_of, price_of, quantity_of}
use single_exchange_triangul.Executor.Cycle.{add_to, take_from, touch, spends}
use single_exchange_triangul.Paper.{
  Exchange, Paper, Liquidity, trade, match_order, place, fill, fill_all, usage_of, find_usage,
  put_usage, balances_ok, paper_ok, receives,
}

-- The laws of the number type on signs.
pub record Signs {D : Type 0} (a : Arith D) : Type 0 where
  pub nought_sign : a.lt a.nought a.nought ≡ false
  pub le_lt : (x y : D) → a.le x y ≡ false → a.lt x y ≡ false
  pub minus_sign : (x y : D) → a.lt x y ≡ false → a.lt (a.minus x y) a.nought ≡ false
  pub plus_sign :
      (x y : D)
      → a.lt x a.nought ≡ false
      → a.lt y a.nought ≡ false
      → a.lt (a.plus x y) a.nought ≡ false
  pub times_sign :
      (x y : D)
      → a.lt x a.nought ≡ false
      → a.lt y a.nought ≡ false
      → a.lt (a.times x y) a.nought ≡ false

module _ {D : Type 0} ⦃a : Arith D⦄ where
  -- No balance is below zero.
  abbrev pub Solvent : Dict D → Type 0
  Solvent = All (λ x. a.lt x.1 a.nought ≡ false)

  insert-Solvent :
      (k : String) (v : D) (w : Dict D)
      → a.lt v a.nought ≡ false
      → Solvent w
      → Solvent (insert k v w)
  unfolding insert
  insert-Solvent k v [] h i = ground arith
  insert-Solvent k v ((j, x) ∷ w) h i = ground (arith, insert-Solvent k v w h)

  module _ (signs : Signs a) where
    find_or-Solvent :
        (k : String) (w : Dict D) → Solvent w → a.lt (find_or a.nought k w) a.nought ≡ false
    unfolding find_or
    find_or-Solvent k [] i = signs.nought_sign
    find_or-Solvent k ((j, x) ∷ w) i = ground (arith, find_or-Solvent k w)

    touch-Solvent : (k : String) (w : Dict D) → Solvent w → Solvent (touch k w)
    unfolding touch
    touch-Solvent k w i = insert-Solvent k _ w (find_or-Solvent k w i) i

    take_from-Solvent :
        (k : String) (d : D) (w : Dict D)
        → a.lt (find_or a.nought k w) d ≡ false
        → Solvent w
        → Solvent (take_from k d w)
    unfolding take_from
    take_from-Solvent k d w h i = insert-Solvent k _ w (signs.minus_sign _ _ h) i

    add_to-Solvent :
        (k : String) (d : D) (w : Dict D)
        → a.lt d a.nought ≡ false
        → Solvent w
        → Solvent (add_to k d w)
    unfolding add_to
    add_to-Solvent k d w h i =
        insert-Solvent k _ w (signs.plus_sign _ _ (find_or-Solvent k w i) h) i

    trade-Solvent :
        (x : Exchange D) (q : OrderRequest) (m : Market D) (n p l : D) (u : Liquidity D)
        (s : Paper D)
        → a.le a.one x.fee ≡ false
        → a.le p a.nought ≡ false
        → Solvent s.wallet
        → Solvent (trade x q m n p l u s).0.wallet
    unfolding trade
    trade-Solvent x q m n p l u s cheap priced i =
        let base = down (min_of n l) m.step in
        let spend = spends m q.buy in
        let cost = if q.buy then a.times base p else base in
        let proceeds = if q.buy then base else a.times base p in
        elim (Bool-cases (a.le base a.nought)) [
          | inl empty ↦ ground arith
          | inr some_base ↦
              let positive = signs.le_lt base a.nought some_base in
              let paid = signs.times_sign base p positive (signs.le_lt p a.nought priced) in
              elim (Bool-cases (a.lt (find_or a.nought spend s.wallet) cost)) [
                | inl short ↦ ground (arith, touch-Solvent spend s.wallet i)
                | inr enough ↦
                    let got : a.lt proceeds a.nought ≡ false = ground arith in
                    let kept = signs.minus_sign a.one x.fee (signs.le_lt a.one x.fee cheap) in
                    let gain = signs.times_sign proceeds (a.minus a.one x.fee) got kept in
                    let less = take_from-Solvent spend cost s.wallet enough i in
                    let more = add_to-Solvent (receives m q.buy) _ _ gain less in ground arith
              ]
        ]

    match_order-Solvent :
        (x : Exchange D) (q : OrderRequest) (m : Market D) (n l : D) (b : OrderBook) (s : Paper D)
        → a.le a.one x.fee ≡ false
        → Solvent s.wallet
        → Solvent (match_order x q m n l b s).0.wallet
    unfolding match_order
    match_order-Solvent x q m n l b s cheap i =
        let usage = usage_of b (find_usage q.symbol_index q.buy s.consumed) in
        let available = a.minus (quantity_of b q.buy) usage.used in
        let seen = record s { consumed = put_usage q.symbol_index q.buy usage s.consumed } in
        ground (arith, trade-Solvent x q m n (price_of b q.buy) available usage seen cheap)

    module _ ⦃w : Wire D⦄ where
      place-Solvent :
          (x : Exchange D) (b : Snapshot) (q : OrderRequest) (s : Paper D)
          → a.le a.one x.fee ≡ false
          → Solvent s.wallet
          → Solvent (place x b q s).0.wallet
      unfolding place
      place-Solvent x b q s cheap i = elim (Option-cases (get_elem? x.markets q.symbol_index)) [
        | inl missing ↦ ground arith
        | inr (m, found) ↦ elim (Option-cases (get_elem? b q.symbol_index)) [
          | inl out ↦ ground arith
          | inr (slot, at) ↦ elim (Option-cases slot) [
            | inl empty ↦ ground arith
            | inr (book, here) ↦ ground (
              arith,
              match_order-Solvent x q m (w.of_text q.quantity) (w.of_text q.price) book s cheap i,
            )
          ]
        ]
      ]

      fill-Solvent :
          (x : Exchange D) (b : Snapshot) (q : OrderRequest) (s : Paper D)
          → a.le a.one x.fee ≡ false
          → Solvent s.wallet
          → Solvent (fill x b q s).0.wallet
      unfolding fill
      fill-Solvent x b q s cheap i = ground (arith, place-Solvent x b q s cheap i)

      fill_all-Solvent :
          (x : Exchange D) (qs : List (Snapshot × OrderRequest)) (s : Paper D)
          → a.le a.one x.fee ≡ false
          → Solvent s.wallet
          → Solvent (fill_all x qs s).wallet
      unfolding fill_all
      fill_all-Solvent x [] s cheap i = i
      fill_all-Solvent x ((b, q) ∷ qs) s cheap i =
          fill_all-Solvent x qs (fill x b q s).0 cheap (fill-Solvent x b q s cheap i)

  balances_ok-Solvent : (w : Dict D) → balances_ok w ≡ true → Solvent w
  unfolding balances_ok
  balances_ok-Solvent [] h = _
  balances_ok-Solvent ((k, x) ∷ w) h = ground (arith, balances_ok-Solvent w)

  -- The gateway as its constructor leaves it.
  unfoldable pub opened : Dict D → Paper D
  opened wallet = record { wallet = wallet; orders = []; consumed = [] }

  -- Over a number type with the usual laws of signs, a gateway that its constructor accepts never
  -- has a balance below zero, whatever orders it fills against whatever books.
  pub wallet-Solvent :
      ⦃w : Wire D⦄
      → Signs a
      → (x : Exchange D) (wallet : Dict D) (qs : List (Snapshot × OrderRequest))
      → paper_ok x wallet ≡ true
      → Solvent (fill_all x qs (opened wallet)).wallet
  unfolding paper_ok opened
  wallet-Solvent signs x wallet qs h =
      fill_all-Solvent signs x qs (opened wallet) (ground arith)
        (balances_ok-Solvent wallet (ground arith))
