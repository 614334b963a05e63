-- ===== src/Intake/Reads.antt =====
-- What one book does to the members that `ingest` writes (src/receiver.cpp).
use single_exchange_triangul.Common.{
  ℕ, ◌+◌, ◌<◌, ◌≡◌, refl, sym, ap, ◌∙◌, inl, inr, ◌==◌, Option, none, some, List, [], ◌∷◌, ◌++◌,
  arith, get_elem?, get_elem?-lt, get_elem?-bound, append_nil, length, length-set, set,
  if◌then◌else◌, inc64, String,
}
use single_exchange_triangul.Decimal.{Arith}
use single_exchange_triangul.Trading.{OrderBook, ArbitrageOpportunity, Config, TradePath}
use single_exchange_triangul.Books.{Books, update, scan_edge, scan_groups}
use single_exchange_triangul.Books.Scan.{Found, scan_edge_sound}
use single_exchange_triangul.Intake.{
  Moment, Intake, Effect, invalid_json, first_orderbook, arbitrage_edge, handed_on,
  receiver_orderbook, posted_fail, edge_effects, leg_names, accept, reject,
}

-- The opportunities that are handed to the executor, in their order.
abbrev pub opportunities : {F : Type 0} → List (Effect F) → List (ArbitrageOpportunity F)
opportunities [] = []
opportunities (handed_on x ∷ es) = x ∷ opportunities es
opportunities (_ ∷ es) = opportunities es

pub opportunities-append :
    {F : Type 0} (es fs : List (Effect F))
    → opportunities (es ++ fs) ≡ opportunities es ++ opportunities fs
opportunities-append [] fs = refl
opportunities-append (invalid_json n ∷ es) fs = opportunities-append es fs
opportunities-append (first_orderbook s ∷ es) fs = opportunities-append es fs
opportunities-append (arbitrage_edge ns x ∷ es) fs = opportunities-append es fs
opportunities-append (handed_on x ∷ es) fs = ap (◌∷◌ x) (opportunities-append es fs)
opportunities-append (receiver_orderbook i n ∷ es) fs = opportunities-append es fs
opportunities-append (posted_fail b ∷ es) fs = opportunities-append es fs

module _ {F : Type 0} where
  -- The manager's slots are those of the symbols.
  pub record Fits (c : Config F) (b : Books F) : Type 0 where
    pub indices : b.indices ≡ c.symbol_indices
    pub size : length b.orderbooks ≡ length c.symbols

  pub update-returns :
      (c : Config F) (index : ℕ) (x : OrderBook) (b : Books F)
      → Fits c b
      → index < length c.symbols
      → (t : Books F) × (update index x b ≡ some t) × Fits c t
  unfolding update
  update-returns c index x b fits h =
      let (slot, at) = get_elem?-lt b.orderbooks index (omega (arith, fits.size)) in
      let t : Books F = record b {
        orderbooks = set b.orderbooks index (some x);
        populated = elim slot [ none ↦ b.populated + 1 | some old ↦ b.populated ];
        received = inc64 b.received;
      } in
      (
        t,
        ground arith,
        record {
          indices = fits.indices;
          size = length-set b.orderbooks index (some x) ∙ fits.size;
        },
      )

module _ {F : Type 0} ⦃f : Arith F⦄ where
  -- What the scan after an update finds.
  abbrev pub found_by : Option (Option (ArbitrageOpportunity F)) → List (ArbitrageOpportunity F)
  found_by (some (some x)) = x ∷ []
  found_by _ = []

  scan_edge-returns :
      (b : Books F) (index : ℕ)
      → index < length b.orderbooks
      → (a : Option (ArbitrageOpportunity F)) × (scan_edge b index ≡ some a)
  unfolding scan_edge
  scan_edge-returns b index h = (scan_groups b index 0 b.groups, ground arith)

  Found-named :
      (symbols : List String) (b : Books F) (path : TradePath) (n : ℕ) (x : ArbitrageOpportunity F)
      → length b.orderbooks ≡ length symbols
      → Found b path n x
      → (names : List String) × (leg_names symbols x.path ≡ some names)
  unfolding leg_names
  Found-named symbols b path n x size w =
      let bound = λ (i : ℕ) (o : Option OrderBook) (at : get_elem? b.orderbooks i ≡ some o).
        get_elem?-lt symbols i (omega (arith, size, get_elem?-bound b.orderbooks i at)) in
      let (first, e₁) = bound path.first.index (some w.first_leg.book) w.first_leg.slot in
      let (second, e₂) = bound path.second.index (some w.second_leg.book) w.second_leg.slot in
      let (third, e₃) = bound path.third.index (some w.third_leg.book) w.third_leg.slot in
      (first ∷ second ∷ third ∷ [], ground (arith, w.at_path))

  -- The row of an edge can always name its symbols.
  edge_effects-returns :
      (symbols : List String) (b : Books F) (index : ℕ) (a : Option (ArbitrageOpportunity F))
      → length b.orderbooks ≡ length symbols
      → scan_edge b index ≡ some a
      → (es : List (Effect F)) × (edge_effects symbols a ≡ some es)
        × (opportunities es ≡ found_by (some a))
  unfolding edge_effects
  edge_effects-returns symbols b index none size e = ([], refl, refl)
  edge_effects-returns symbols b index (some x) size e =
      let w = scan_edge_sound b index {x = x} e in
      let (names, at) : (names : List String) × (leg_names symbols x.path ≡ some names) =
        elim (w.found) [
          | inl i ↦ Found-named symbols b (w.group.paths.0) _ x size i
          | inr i ↦ Found-named symbols b (w.group.paths.1) _ x size i
        ] in
      (arbitrage_edge names x ∷ handed_on x ∷ [], ground arith, refl)

  -- What `accept` does on a listed symbol.
  pub record Accepted (s : Intake F) (index : ℕ) (book : OrderBook) (r : Intake F × List (Effect F))
      : Type 0 where
    pub count : ℕ
    pub counted : get_elem? s.counts index ≡ some count
    pub updated : update index book s.books ≡ some (r.0).books
    pub counts : (r.0).counts ≡ set s.counts index (inc64 count)
    pub received : (r.0).received ≡ inc64 s.received
    pub handed : opportunities (r.1) ≡ found_by (scan_edge (r.0).books index)

  pub accept-returns :
      (c : Config F) (w : Moment) (index : ℕ) (book : OrderBook) (s : Intake F)
      → Fits c s.books
      → length s.counts ≡ length c.symbols
      → index < length c.symbols
      → (r : Intake F × List (Effect F)) × (accept c.symbols w index book s ≡ some r)
        × Accepted s index book r
        × Fits c (r.0).books
  unfolding accept
  accept-returns c w index book s fits size h =
      let (count, counted) = get_elem?-lt s.counts index (omega (arith, size)) in
      let (books, updated, fits') = update-returns c index book s.books fits h in
      let (answer, scanned) = scan_edge-returns books index (omega (arith, fits'.size)) in
      let (edge, named, handed) =
        edge_effects-returns c.symbols books index answer fits'.size scanned in
      let t : Intake F = record s {
        books = books;
        counts = set s.counts index (inc64 count);
        received = inc64 s.received;
        log_rejected = if w.takes_row then s.log_rejected else inc64 s.log_rejected;
      } in
      let opening : List (Effect F) =
        if inc64 count == 1 then first_orderbook book.symbol ∷ [] else [] in
      let row : List (Effect F) = receiver_orderbook index book.receive_sequence ∷ [] in
      let quiet : opportunities opening ≡ [] = ground arith in
      (
        (t, opening ++ (edge ++ row)),
        ground arith,
        record {
          count = count;
          counted = counted;
          updated = updated;
          counts = refl;
          received = refl;
          handed =
              opportunities-append opening (edge ++ row)
              ∙ ap (λ xs. xs ++ opportunities (edge ++ row)) quiet
              ∙ opportunities-append edge row
              ∙ append_nil (opportunities edge)
              ∙ handed
              ∙ ap found_by (sym scanned);
        },
        fits',
      )

  pub reject_quiet :
      (w : Moment) (s : Intake F)
      → ((reject w s).0.books ≡ s.books)
        × ((reject w s).0.counts ≡ s.counts)
        × ((reject w s).0.received ≡ s.received)
        × (opportunities ((reject w s).1) ≡ [])
  unfolding reject
  reject_quiet w s = ground arith
