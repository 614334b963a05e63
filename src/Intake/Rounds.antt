-- ===== src/Intake/Rounds.antt =====
-- What one round of `process` does to the members (src/receiver.cpp).
use mathlib.Core.Path.{subst}
use mathlib.Core.Option.{some-injective}
use single_exchange_triangul.Common.{
  ℕ, ◌<◌, ◌≡◌, refl, sym, ap, ◌∙◌, inl, inr, true, false, Option, none, some, List, [], ◌∷◌, arith,
  get_elem?-bound, length, length-set, >>=-eq-some, inc64, Option-cases, String,
}
use single_exchange_triangul.Common.Dict.{Dict, lookup}
use single_exchange_triangul.Decimal.{Arith, Text}
use single_exchange_triangul.Trading.{OrderBook, Config}
use single_exchange_triangul.Depth.{Message, decode_partial_depth}
use single_exchange_triangul.Receiver.{RawMessage}
use single_exchange_triangul.Triangles.{Symbols}
use single_exchange_triangul.Triangles.Indices.{Consistent}
use single_exchange_triangul.Intake.{
  Parsing, Moment, Intake, Effect, Sort, shutdown, control_error, confirmation, depth, posted_fail,
  message_of, sort_of, read_book, reject, ingest, handle,
}
use single_exchange_triangul.Intake.Reads.{
  opportunities, Fits, Accepted, accept-returns, reject_quiet,
}

abbrev pub symbols_of : {F : Type 0} → Config F → Symbols
symbols_of c = record { symbols = c.symbols; symbol_indices = c.symbol_indices }

-- The indices of the map are those of symbols.
abbrev pub Listed : {F : Type 0} → Config F → Type 0
Listed c = (s : String) (i : ℕ) → lookup s c.symbol_indices ≡ some i → i < length c.symbols

pub Consistent-Listed : {F : Type 0} (c : Config F) → Consistent (symbols_of c) → Listed c
Consistent-Listed c ok s i e = get_elem?-bound c.symbols i (ok.places s i e)

module _ (J : Type 0) ⦃j : Message J⦄ ⦃p : Parsing J⦄ (string_of : Text → String) where
  -- The book of a message, for a listed symbol.
  abbrev pub book_in : Dict ℕ → RawMessage → Option (ℕ × OrderBook)
  book_in indices raw = elim (sort_of {J = J} (message_of raw)) [
    | depth ↦ read_book {J = J} string_of indices raw (message_of raw)
    | _ ↦ none
  ]

  module _ {F : Type 0} ⦃f : Arith F⦄ (c : Config F) where
    -- A round that brings no book, and one that does.
    abbrev pub Round : Option (ℕ × OrderBook) → Intake F → Intake F × List (Effect F) → Type 0
    Round none s (t, es) =
        (t.books ≡ s.books)
        × (t.counts ≡ s.counts)
        × (t.received ≡ s.received)
        × (opportunities es ≡ [])
    Round (some (i, x)) s r = Accepted s i x r

    pub record Ready (s : Intake F) : Type 0 where
      pub fits : Fits c s.books
      pub size : length s.counts ≡ length c.symbols

    read_book-Listed :
        (raw : RawMessage) (m : J) {u : ℕ × OrderBook}
        → Listed c
        → read_book string_of c.symbol_indices raw m ≡ some u
        → u.0 < length c.symbols
    unfolding read_book
    read_book-Listed raw m {u} listed e =
        let (d, e₁, h₁) = >>=-eq-some (decode_partial_depth m _) _ e in
        let (i, e₂, h₂) = >>=-eq-some (lookup (string_of d.symbol) c.symbol_indices) _ h₁ in
        subst (λ v. v.0 < length c.symbols) (some-injective _ _ h₂) (listed _ i e₂)

    ingest-returns :
        (w : Moment) (raw : RawMessage) (m : J) (s : Intake F)
        → Listed c
        → Ready s
        → (r : Intake F × List (Effect F)) × (ingest string_of c.symbols w raw m s ≡ some r)
          × Round (read_book string_of c.symbol_indices raw m) s r
          × Fits c (r.0).books
    unfolding ingest
    ingest-returns w raw m s listed ready =
        let same : read_book string_of s.books.indices raw m
            ≡ read_book string_of c.symbol_indices raw m =
          ap (λ d. read_book string_of d raw m) ready.fits.indices in
        elim (Option-cases (read_book string_of c.symbol_indices raw m)) [
          | inl bad ↦
              let (a, b, d, e) = reject_quiet w s in
              (
                reject w s,
                ground arith,
                subst (λ o. Round o s (reject w s)) (sym bad) (a, b, d, e),
                subst (Fits c) (sym a) ready.fits,
              )
          | inr ((i, x), good) ↦
              let (r, e, a, fits) =
                accept-returns c w i x s ready.fits ready.size
                  (read_book-Listed raw m listed good) in
              (r, ground arith, subst (λ o. Round o s r) (sym good) a, fits)
        ]

    abbrev pub Handled : Moment → RawMessage → Intake F → Type 0
    Handled w raw s =
        (r : Intake F × List (Effect F)) × (handle J string_of c.symbols w raw s ≡ some r)
        × Round (book_in c.symbol_indices raw) s r
        × Ready (r.0)

    without_book :
        (w : Moment) (raw : RawMessage) (s : Intake F) (es : List (Effect F))
        → Ready s
        → opportunities es ≡ []
        → handle J string_of c.symbols w raw s ≡ some (s, es)
        → book_in c.symbol_indices raw ≡ none
        → Handled w raw s
    without_book w raw s es ready quiet e no_book =
        ((s, es), e, subst (λ o. Round o s (s, es)) (sym no_book) (refl, refl, refl, quiet), ready)

    Round-size :
        (o : Option (ℕ × OrderBook)) (s : Intake F) (r : Intake F × List (Effect F))
        → Round o s r
        → length (r.0).counts ≡ length s.counts
    Round-size none s r (_, same, _, _) = ap length same
    Round-size (some (i, x)) s r a = ap length a.counts ∙ length-set s.counts i (inc64 a.count)

    pub handle_sort :
        (w : Moment) (raw : RawMessage) (s : Intake F) (k : Sort)
        → sort_of {J = J} (message_of raw) ≡ k
        → Listed c
        → Ready s
        → Handled w raw s
    unfolding handle
    handle_sort w raw s shutdown e listed ready =
        without_book w raw s (posted_fail true ∷ []) ready refl (ground arith) (ground arith)
    handle_sort w raw s control_error e listed ready =
        without_book w raw s (posted_fail false ∷ []) ready refl (ground arith) (ground arith)
    handle_sort w raw s confirmation e listed ready =
        without_book w raw s [] ready refl (ground arith) (ground arith)
    handle_sort w raw s depth e listed ready =
        let m : J = message_of raw in
        let (r, e₁, round, fits) = ingest-returns w raw m s listed ready in
        let brought : book_in c.symbol_indices raw ≡ read_book string_of c.symbol_indices raw m =
          ground arith in
        let round' = subst (λ o. Round o s r) (sym brought) round in
        (
          r,
          ground arith,
          round',
          record {
            fits = fits;
            size = Round-size (book_in c.symbol_indices raw) s r round' ∙ ready.size;
          },
        )
