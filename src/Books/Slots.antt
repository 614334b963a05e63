-- ===== src/Books/Slots.antt =====
-- The slots of the order book manager along any run of updates (src/orderbook.cpp).
use mathlib.Core.Path.{subst, sym, ap, ◌∙◌}
use mathlib.Core.Option.{some-injective}
use single_exchange_triangul.Common.{
  get_elem?-bound, ℕ, zero, suc, ◌≡◌, refl, inl, inr, true, ◌==◌, Option, none, some, List, [], ◌∷◌,
  arith, get_elem?, set, replicate, length, >>=-eq-some, if◌then◌else◌, ◌+◌, ◌<◌, length-set,
  length-replicate, get_elem?-set_self, get_elem?-set_ne, Bool-cases, All, get_elem?-lt, ◌%◌, ◌^◌,
  inc64,
}
use single_exchange_triangul.Decimal.{Arith}
use single_exchange_triangul.Trading.{OrderBook, Config, Snapshot}
use single_exchange_triangul.Books.{Books, groups_ok, new_books, update, update_all, get, stats}

-- The slots with a book.
abbrev pub filled_slots : Snapshot → ℕ
filled_slots [] = 0
filled_slots (none ∷ xs) = filled_slots xs
filled_slots (some b ∷ xs) = suc (filled_slots xs)

-- The last book of a run for a symbol.
abbrev pub last_book : ℕ → List (ℕ × OrderBook) → Option OrderBook → Option OrderBook
last_book i [] old = old
last_book i ((j, x) ∷ us) old = last_book i us (if j == i then some x else old)

filled_slots-set :
    (xs : Snapshot) (i : ℕ) (b : OrderBook) {slot : Option OrderBook}
    → get_elem? xs i ≡ some slot
    → filled_slots (set xs i (some b))
      ≡ elim slot [ none ↦ suc (filled_slots xs) | some old ↦ filled_slots xs ]
filled_slots-set [] i b e = cc
filled_slots-set (none ∷ xs) zero b {slot} e = ground arith
filled_slots-set (some x ∷ xs) zero b {slot} e = ground arith
filled_slots-set (none ∷ xs) (suc i) b {slot} e =
    ground (arith, filled_slots-set xs i b {slot = slot} e)
filled_slots-set (some x ∷ xs) (suc i) b {slot} e =
    ground (arith, filled_slots-set xs i b {slot = slot} e)

filled_slots-replicate : (n : ℕ) → filled_slots (replicate n none) ≡ 0
filled_slots-replicate zero = refl
filled_slots-replicate (suc n) = filled_slots-replicate n

get_elem?-replicate :
    (n i : ℕ) {slot : Option OrderBook} → get_elem? (replicate n none) i ≡ some slot → slot ≡ none
get_elem?-replicate zero i e = cc
get_elem?-replicate (suc n) zero e = ground arith
get_elem?-replicate (suc n) (suc i) e = get_elem?-replicate n i e

module _ {F : Type 0} where
  -- `t` follows `b` by the updates `us`.
  record Tracks (us : List (ℕ × OrderBook)) (b t : Books F) : Type 0 where
    size : length t.orderbooks ≡ length b.orderbooks
    slots :
        (i : ℕ) (slot : Option OrderBook)
        → get_elem? b.orderbooks i ≡ some slot
        → get_elem? t.orderbooks i ≡ some (last_book i us slot)
    full : b.populated ≡ filled_slots b.orderbooks → t.populated ≡ filled_slots t.orderbooks
    total : t.received ≡ (b.received + length us) % 2 ^ 64

  update_all-Tracks :
      (us : List (ℕ × OrderBook)) {b t : Books F}
      → b.received < 2 ^ 64
      → update_all us b ≡ some t
      → Tracks us b t
  unfolding update_all update
  update_all-Tracks [] {b} {t} word e =
      subst (Tracks [] b) (some-injective _ _ e)
        (record { size = refl; slots = λ i slot at. at; full = λ h. h; total = omega arith })
  update_all-Tracks ((j, x) ∷ us) {b} {t} word e =
      let (m, e₁, e₂) = >>=-eq-some (update j x b) _ e in
      let (slot, at, e₃) = >>=-eq-some (get_elem? b.orderbooks j) _ e₁ in
      let m' : Books F = record b {
        orderbooks = set b.orderbooks j (some x);
        populated = elim slot [ none ↦ b.populated + 1 | some old ↦ b.populated ];
        received = inc64 b.received;
      } in
      let rest : Tracks us m' t = update_all-Tracks us {b = m'} (omega arith) (ground arith) in
      record {
        size = omega (arith, rest.size, length-set b.orderbooks j (some x));
        slots = λ i old found. elim (Bool-cases (j == i)) [
          | inl same ↦ ground (
            arith,
            rest.slots i (some x),
            get_elem?-set_self b.orderbooks j (some x),
            get_elem?-bound b.orderbooks j at,
          )
          | inr other ↦
              ground
                (arith, rest.slots i old, get_elem?-set_ne b.orderbooks {i = j} {j = i} (some x))
        ];
        full = λ h. ground (arith, rest.full, filled_slots-set b.orderbooks j x {slot = slot} at);
        total = omega (arith, rest.total);
      }

  update_all-total :
      (us : List (ℕ × OrderBook)) (b : Books F)
      → All (λ x. x.0 < length b.orderbooks) us
      → (t : Books F) × (update_all us b ≡ some t)
  unfolding update_all update
  update_all-total [] b h = (b, refl)
  update_all-total ((j, x) ∷ us) b h =
      let (slot, at) = get_elem?-lt b.orderbooks j (h.0) in
      let m : Books F = record b {
        orderbooks = set b.orderbooks j (some x);
        populated = elim slot [ none ↦ b.populated + 1 | some old ↦ b.populated ];
        received = inc64 b.received;
      } in
      let (t, e) =
        update_all-total us m
          (subst (λ n. All (λ y. y.0 < n) us) (sym (length-set b.orderbooks j (some x))) (h.1)) in
      (t, ground arith)

  new_books-empty :
      ⦃f : Arith F⦄ (c : Config F) {b : Books F}
      → new_books c ≡ some b
      → (b.orderbooks ≡ replicate (length c.symbols) none)
        × (b.populated ≡ 0)
        × (b.received ≡ 0)
        × (b.groups ≡ c.trading_groups)
        × (groups_ok (length c.symbols) c.trading_groups ≡ true)
  unfolding new_books
  new_books-empty c made = ground arith

  -- From construction on, whatever updates of listed symbols follow: they all return, each slot then
  -- holds the last book that was published for it, and the statistics count the symbols, the slots
  -- that hold a book, and the updates (as a `std::uint64_t`).
  pub latest_books :
      ⦃f : Arith F⦄ (c : Config F) (us : List (ℕ × OrderBook)) {b : Books F}
      → new_books c ≡ some b
      → All (λ x. x.0 < length c.symbols) us
      → (t : Books F) × (update_all us b ≡ some t)
        × ((i : ℕ) → i < length c.symbols → get t i ≡ some (last_book i us none))
        × ((stats t).first ≡ length c.symbols)
        × ((stats t).second ≡ filled_slots t.orderbooks)
        × ((stats t).third ≡ length us % 2 ^ 64)
  unfolding get stats
  latest_books c us {b} made listed =
      let n = length c.symbols in
      let (slots, none_filled, none_received, _, _) = new_books-empty c {b = b} made in
      let size : length b.orderbooks ≡ n = ap length slots ∙ length-replicate n none in
      let (t, e) = update_all-total us b (subst (λ k. All (λ y. y.0 < k) us) (sym size) listed) in
      let k = update_all-Tracks us {b = b} {t = t} (omega (arith, none_received)) e in
      let empty : filled_slots b.orderbooks ≡ 0 =
        ap filled_slots slots ∙ filled_slots-replicate n in
      (
        t,
        e,
        λ i h.
            let (slot, at) = get_elem?-lt b.orderbooks i (omega (arith, size)) in
            let blank =
              get_elem?-replicate n i {slot = slot}
                (subst (λ xs. get_elem? xs i ≡ some slot) slots at) in
            k.slots i none (subst (λ o. get_elem? b.orderbooks i ≡ some o) blank at),
        omega (arith, size, k.size),
        k.full (omega (arith, none_filled, empty)),
        ground (arith, k.total),
      )
