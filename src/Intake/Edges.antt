-- ===== src/Intake/Edges.antt =====
-- The opportunities that the scans of a run find (src/receiver.cpp, src/orderbook.cpp).
use single_exchange_triangul.Common.{
  All-append, ℕ, ◌≡◌, refl, true, Option, none, some, List, [], ◌∷◌, ◌++◌, arith, >>=-eq-some, All,
}
use single_exchange_triangul.Decimal.{Arith}
use single_exchange_triangul.Trading.{OrderBook, ArbitrageOpportunity}
use single_exchange_triangul.Books.{Books, new_books, update, update_all, scan_edge}
use single_exchange_triangul.Books.Scan.{StrictOrder, scan_edge-acceptable}
use single_exchange_triangul.Executor.Defs.{Setup}
use single_exchange_triangul.Executor.Cycle.{acceptable}
use single_exchange_triangul.Intake.Reads.{found_by}

-- The opportunities of the scans after each of the updates.
abbrev pub edges_after :
    {F : Type 0} → ⦃f : Arith F⦄ → List (ℕ × OrderBook) → Books F → List (ArbitrageOpportunity F)
edges_after [] b = []
edges_after ((i, x) ∷ us) b = elim (update i x b) [
  | none ↦ []
  | some t ↦ found_by (scan_edge t i) ++ edges_after us t
]

update_all-append :
    {F : Type 0} (us vs : List (ℕ × OrderBook)) (a b c : Books F)
    → update_all us a ≡ some b
    → update_all vs b ≡ some c
    → update_all (us ++ vs) a ≡ some c
unfolding update_all
update_all-append [] vs a b c e h = ground arith
update_all-append ((i, x) ∷ us) vs a b c e h =
    let (m, e₁, e₂) = >>=-eq-some (update i x a) _ e in
    ground (arith, e₁, update_all-append us vs m b c e₂ h)

module _ {D F : Type 0} ⦃f : Arith F⦄ (laws : StrictOrder f) (u : Setup D F) where
  abbrev pub Acceptable : ArbitrageOpportunity F → Type 0
  Acceptable x = acceptable u x ≡ true

  found_by-Acceptable :
      (o : Option (Option (ArbitrageOpportunity F)))
      → ((x : ArbitrageOpportunity F) → o ≡ some (some x) → Acceptable x)
      → All Acceptable (found_by o)
  found_by-Acceptable none h = _
  found_by-Acceptable (some none) h = _
  found_by-Acceptable (some (some x)) h = (h x refl, _)

  pub edges_after-Acceptable :
      (us vs : List (ℕ × OrderBook)) (b m t : Books F)
      → new_books u.config ≡ some b
      → update_all us b ≡ some m
      → update_all vs m ≡ some t
      → All Acceptable (edges_after vs m)
  unfolding update_all
  edges_after-Acceptable us [] b m t made before after = _
  edges_after-Acceptable us ((i, x) ∷ vs) b m t made before after =
      let (n, e₁, e₂) = >>=-eq-some (update i x m) _ after in
      let so_far : update_all (us ++ ((i, x) ∷ [])) b ≡ some n =
        update_all-append us ((i, x) ∷ []) b m n before (ground (arith, e₁)) in
      let now = found_by-Acceptable (scan_edge n i) (λ y.
        scan_edge-acceptable laws u (us ++ ((i, x) ∷ [])) {b = b} {t = n} made so_far i {x = y}) in
      let later = edges_after-Acceptable (us ++ ((i, x) ∷ [])) vs b n t made so_far e₂ in
      ground
        (arith, e₁, All-append Acceptable (found_by (scan_edge n i)) (edges_after vs n) now later)
