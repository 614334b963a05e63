-- ===== src/Redaction/Search.antt =====
-- What `find` and `replace` do in `safe_message` (src/execution/binance_gateway.cpp).
use mathlib.Core.Path.{sym, ap, ◌∙◌}
use single_exchange_triangul.Common.{
  ℕ, ◌+◌, true, none, some, [], ◌∷◌, ◌++◌, ◌≡◌, refl, length, arith, Bool-cases, Option-cases, inl,
  inr, append_assoc, length-append,
}
use single_exchange_triangul.Decimal.{Text}
use single_exchange_triangul.Redaction.{take, drop, starts, search, strike, mark}

pub drop-append : (xs ys : Text) → drop (length xs) (xs ++ ys) ≡ ys
drop-append [] ys = refl
drop-append (x ∷ xs) ys = drop-append xs ys

pub take-append : (xs ys : Text) → take (length xs) (xs ++ ys) ≡ xs
take-append [] ys = refl
take-append (x ∷ xs) ys = ap (◌∷◌ x) (take-append xs ys)

starts-append : (vs xs ys : Text) → starts vs xs ≡ true → starts vs (xs ++ ys) ≡ true
starts-append [] xs ys h = refl
starts-append (v ∷ vs) [] ys h = ground arith
starts-append (v ∷ vs) (x ∷ xs) ys h = ground (arith, starts-append vs xs ys)

starts-split : (vs xs : Text) → starts vs xs ≡ true → (ys : Text) × (xs ≡ vs ++ ys)
starts-split [] xs h = (xs, refl)
starts-split (v ∷ vs) [] h = ground arith
starts-split (v ∷ vs) (x ∷ xs) h =
    let (ys, e) = starts-split vs xs (ground arith) in (ys, ground arith)

-- A first occurrence: what stands before it has none.
pub search-some :
    (v : ℕ) (vs text : Text) {k : ℕ}
    → search (v ∷ vs) text ≡ some k
    → (before : Text) × (later : Text) × (text ≡ before ++ ((v ∷ vs) ++ later))
      × (length before ≡ k)
      × (search (v ∷ vs) before ≡ none)
unfolding search
search-some v vs [] h = ground arith
search-some v vs (x ∷ xs) {k} h = elim (Bool-cases (starts (v ∷ vs) (x ∷ xs))) [
  | inl here ↦ let (ys, e) = starts-split (v ∷ vs) (x ∷ xs) here in ([], ys, e, ground arith, refl)
  | inr not_here ↦ elim (Option-cases (search (v ∷ vs) xs)) [
    | inl gone ↦ ground arith
    | inr (i, found) ↦
        let (before, later, e, len, free) = search-some v vs xs found in
        (
          x ∷ before,
          later,
          ap (◌∷◌ x) e,
          ground arith,
          elim (Bool-cases (starts (v ∷ vs) (x ∷ before))) [
            | inl early ↦ ground (arith, e, starts-append (v ∷ vs) (x ∷ before) ((v ∷ vs) ++ later))
            | inr no_start ↦ ground arith
          ],
        )
  ]
]

-- `replace` at an occurrence.
pub strike-found :
    (front value later : Text)
    → strike (length front) (length value) (front ++ (value ++ later)) ≡ front ++ (mark ++ later)
strike-found front value later =
    let whole : front ++ (value ++ later) ≡ (front ++ value) ++ later =
      sym (append_assoc front value later) in
    let size : length front + length value ≡ length (front ++ value) =
      sym (length-append front value) in
    let rest : drop (length front + length value) (front ++ (value ++ later)) ≡ later =
      ap (λ n. drop n (front ++ (value ++ later))) size
      ∙ ap (drop (length (front ++ value))) whole
      ∙ drop-append (front ++ value) later in
    ap (λ t. t ++ (mark ++ drop (length front + length value) (front ++ (value ++ later))))
      (take-append front (value ++ later))
    ∙ ap (λ t. front ++ (mark ++ t)) rest
