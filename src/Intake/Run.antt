-- ===== src/Intake/Run.antt =====
-- The messages of a run of `process` (src/receiver.cpp): the books, the counts and the opportunities.
use mathlib.Core.Path.{subst}
use mathlib.Core.Option.{some-injective}
use single_exchange_triangul.Common.{
  ℕ, suc, ◌+◌, ◌<◌, ◌%◌, ◌^◌, ◌≡◌, ◌≢◌, refl, sym, ap, ◌∙◌, inl, inr, true, ◌==◌, Option, none,
  some, List, [], ◌∷◌, ◌++◌, arith, get_elem?, get_elem?-bound, length, length-replicate, replicate,
  zero, set, get_elem?-set_self, get_elem?-set_ne, if◌then◌else◌, inc64, Bool-cases, String, All,
}
use single_exchange_triangul.Common.Dict.{Dict}
use single_exchange_triangul.Decimal.{Arith, Text}
use single_exchange_triangul.Trading.{OrderBook, Config}
use single_exchange_triangul.Depth.{Message}
use single_exchange_triangul.Receiver.{RawMessage}
use single_exchange_triangul.Books.{Books, new_books, update_all, scan_edge}
use single_exchange_triangul.Books.Scan.{StrictOrder}
use single_exchange_triangul.Executor.Defs.{Setup}
use single_exchange_triangul.Executor.Cycle.{acceptable}
use single_exchange_triangul.Triangles.Indices.{Consistent}
use single_exchange_triangul.Intake.{Parsing, Moment, Intake, Effect, process, new_intake}
use single_exchange_triangul.Intake.Reads.{opportunities, opportunities-append, found_by}
use single_exchange_triangul.Intake.Rounds.{
  symbols_of, Listed, Consistent-Listed, book_in, Round, Ready, handle_sort,
}
use single_exchange_triangul.Intake.Edges.{edges_after, edges_after-Acceptable}

-- How many of the books are for a symbol.
abbrev pub tally : ℕ → List (ℕ × OrderBook) → ℕ
tally i [] = 0
tally i ((j, x) ∷ us) = (if j == i then 1 else 0) + tally i us

get_elem?-replicate : (n i : ℕ) → i < n → get_elem? {A = ℕ} (replicate n 0) i ≡ some 0
get_elem?-replicate zero i h = absurd (omega arith)
get_elem?-replicate (suc n) zero h = refl
get_elem?-replicate (suc n) (suc i) h = get_elem?-replicate n i (omega arith)

module _ (J : Type 0) ⦃j : Message J⦄ ⦃p : Parsing J⦄ (string_of : Text → String) where
  -- The books that a run of messages brings, in their order.
  abbrev pub books_in : Dict ℕ → List (Moment × RawMessage) → List (ℕ × OrderBook)
  books_in indices [] = []
  books_in indices ((w, raw) ∷ more) = elim (book_in J string_of indices raw) [
    | none ↦ books_in indices more
    | some u ↦ u ∷ books_in indices more
  ]

  module _ {F : Type 0} ⦃f : Arith F⦄ (c : Config F) where
    -- What a run of messages does from any state on.
    record Ran (us : List (ℕ × OrderBook)) (s t : Intake F) (es : List (Effect F)) : Type 0 where
      updated : update_all us s.books ≡ some t.books
      counts :
          (i k : ℕ)
          → k < 2 ^ 64
          → get_elem? s.counts i ≡ some k
          → get_elem? t.counts i ≡ some ((k + tally i us) % 2 ^ 64)
      received : s.received < 2 ^ 64 → t.received ≡ (s.received + length us) % 2 ^ 64
      handed : opportunities es ≡ edges_after us s.books

    Ran-nil : (s : Intake F) → Ran [] s s []
    unfolding update_all
    Ran-nil s = record {
      updated = refl;
      counts = λ i k word at. ground (arith, at);
      received = λ word. omega arith;
      handed = refl;
    }

    Ran-cons :
        (o : Option (ℕ × OrderBook)) (us : List (ℕ × OrderBook)) (s : Intake F)
        (r : Intake F × List (Effect F)) (t : Intake F) (es : List (Effect F))
        → Round J string_of c o s r
        → Ran us (r.0) t es
        → Ran (elim o [ none ↦ us | some u ↦ u ∷ us ]) s t (r.1 ++ es)
    unfolding update_all
    Ran-cons none us s r t es (same, same_counts, same_received, quiet) ran = record {
      updated = subst (λ b. update_all us b ≡ some t.books) same ran.updated;
      counts = λ i k word at.
          ran.counts i k word (subst (λ l. get_elem? l i ≡ some k) (sym same_counts) at);
      received = λ word. omega (arith, ran.received, same_received);
      handed =
          opportunities-append (r.1) es
          ∙ ap (λ l. l ++ opportunities es) quiet
          ∙ ran.handed
          ∙ ap (edges_after us) same;
    }
    Ran-cons (some (j, x)) us s r t es a ran = record {
      updated = ground (arith, a.updated, ran.updated);
      counts = λ i k word at. elim (Bool-cases (j == i)) [
        | inl same ↦
            let here : j ≡ i = ground arith in
            let known : a.count ≡ k =
              some-injective _ _ (sym a.counted ∙ ap (get_elem? s.counts) here ∙ at) in
            let now : get_elem? (r.0).counts i ≡ some (inc64 k) =
              ap (λ l. get_elem? l i) (a.counts ∙ (λ d. set s.counts (here d) (inc64 (known d))))
              ∙ get_elem?-set_self s.counts i (inc64 k) (get_elem?-bound s.counts i at) in
            ran.counts i (inc64 k) (omega arith) now ∙ ap some (ground arith)
        | inr other ↦
            let apart : j ≢ i = ground arith in
            let now : get_elem? (r.0).counts i ≡ some k =
              ap (λ l. get_elem? l i) a.counts
              ∙ get_elem?-set_ne s.counts {i = j} {j = i} (inc64 a.count) apart
              ∙ at in
            ran.counts i k word now ∙ ap some (ground arith)
      ];
      received = λ word. omega (arith, ran.received, a.received);
      handed =
          opportunities-append (r.1) es
          ∙ ap (λ l. l ++ opportunities es) a.handed
          ∙ ap (λ l. found_by (scan_edge (r.0).books j) ++ l) ran.handed
          ∙ ground (arith, a.updated);
    }

    process-Ran :
        (ms : List (Moment × RawMessage)) (s : Intake F)
        → Listed c
        → Ready J string_of c s
        → (t : Intake F) × (es : List (Effect F)) × (process J string_of c.symbols ms s
            ≡ some (t, es))
          × Ran (books_in c.symbol_indices ms) s t es
    unfolding process
    process-Ran [] s listed ready = (s, [], refl, Ran-nil s)
    process-Ran ((w, raw) ∷ ms) s listed ready =
        let (r, e₁, round, ready') = handle_sort J string_of c w raw s _ refl listed ready in
        let (t, es, e₂, ran) = process-Ran ms (r.0) listed ready' in
        (
          t,
          r.1 ++ es,
          ground (arith, e₁, e₂),
          Ran-cons (book_in J string_of c.symbol_indices raw) (books_in c.symbol_indices ms) s r t
              es round ran,
        )

    new_intake-Ready : {b : Books F} → new_books c ≡ some b → Ready J string_of c (new_intake c b)
    unfolding new_intake new_books
    new_intake-Ready {b} made =
        let n = length c.symbols in
        let slots : b.orderbooks ≡ replicate n none = ground arith in
        record {
          fits = record {
            indices = ground arith;
            size = ap length slots ∙ length-replicate n none;
          };
          size = length-replicate n 0;
        }

    -- Whatever messages the queue gives to `process`, every round returns, where the map of the
    -- configuration has the places of the symbols. The order books are those of the manager after the
    -- books that were read from the messages, in their order; each symbol's count is the number of its
    -- books, and the total the number of all of them (as `std::uint64_t`); and the opportunities that
    -- are handed to the executor are those that the scans after each of these updates find, in order.
    pub process_returns :
        (ms : List (Moment × RawMessage)) {b : Books F}
        → new_books c ≡ some b
        → Consistent (symbols_of c)
        → let us = books_in c.symbol_indices ms in
          (t : Intake F) × (es : List (Effect F)) × (process J string_of c.symbols ms
              (new_intake c b)
            ≡ some (t, es))
          × (update_all us b ≡ some t.books)
          × ((i : ℕ) → i < length c.symbols → get_elem? t.counts i ≡ some (tally i us % 2 ^ 64))
          × (t.received ≡ length us % 2 ^ 64)
          × (opportunities es ≡ edges_after us b)
    unfolding new_intake
    process_returns ms {b} made ok =
        let (t, es, e, ran) =
          process-Ran ms (new_intake c b) (Consistent-Listed c ok)
            (new_intake-Ready {b = b} made) in
        (
          t,
          es,
          e,
          ran.updated,
          λ i h.
              ran.counts i 0 (omega arith) (get_elem?-replicate (length c.symbols) i h)
              ∙ ap some (omega arith),
          omega (arith, ran.received),
          ran.handed,
        )

  -- No opportunity that `process` hands to the executor fails the tests on it there: it has an input
  -- within the limit, and a path of its group. The laws of `<` on numbers are assumed.
  pub opportunities-acceptable :
      {D F : Type 0} ⦃f : Arith F⦄ (u : Setup D F) (ms : List (Moment × RawMessage)) {b : Books F}
      {t : Intake F} {es : List (Effect F)}
      → StrictOrder f
      → new_books u.config ≡ some b
      → Consistent (symbols_of u.config)
      → process J string_of u.config.symbols ms (new_intake u.config b) ≡ some (t, es)
      → All (λ x. acceptable u x ≡ true) (opportunities es)
  opportunities-acceptable u ms {b} {t} {es} laws made ok e =
      let us = books_in u.config.symbol_indices ms in
      let (t', es', e', updated, _, _, handed) = process_returns u.config ms {b = b} made ok in
      let same : es ≡ es' = ap (λ r. r.1) (some-injective _ _ (sym e ∙ e')) in
      subst (λ xs. All (λ x. acceptable u x ≡ true) xs) (sym (ap opportunities same ∙ handed))
        (edges_after-Acceptable laws u [] us b b t'.books made (unfold update_all in refl) updated)
