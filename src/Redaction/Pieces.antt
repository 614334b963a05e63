-- ===== src/Redaction/Pieces.antt =====
-- What `redact` leaves of a message (src/execution/binance_gateway.cpp).
use mathlib.Core.Path.{sym, ap, ◌∙◌}
use single_exchange_triangul.Common.{
  ℕ, zero, suc, ◌+◌, ◌<◌, ◌≤◌, none, some, List, [], ◌∷◌, ◌++◌, ◌≡◌, refl, length, arith, All,
  Option-cases, inl, inr, append_assoc, length-append,
}
use single_exchange_triangul.Decimal.{Text}
use single_exchange_triangul.Redaction.{
  take, drop, search, find, mark, strike, redact_from, redact, signature_of, safe_message,
}
use single_exchange_triangul.Redaction.Search.{drop-append, search-some, strike-found}

-- The pieces with a text between any two.
abbrev pub join : Text → Text → List Text → Text
join between piece [] = piece
join between piece (p ∷ ps) = piece ++ (between ++ join between p ps)

-- The message is pieces with the value between them, none of which contains the value, and the
-- result is the same pieces with the mark between them.
pub record Redacted (value message result : Text) : Type 0 where
  pub piece : Text
  pub pieces : List Text
  pub splits : message ≡ join value piece pieces
  pub free : search value piece ≡ none
  pub all_free : All (λ p. search value p ≡ none) pieces
  pub joins : result ≡ join mark piece pieces

redact_from-found :
    (rounds : ℕ) (value message : Text) (pos : ℕ) {k : ℕ}
    → search value (drop pos message) ≡ some k
    → redact_from (suc rounds) value message pos
      ≡ redact_from rounds value (strike (pos + k) (length value) message) (pos + k + 10)
unfolding redact_from find
redact_from-found rounds value message pos h = ground arith

module _ (v : ℕ) (vs : Text) where
  -- A round that finds the value behind `before`.
  round :
      (rounds : ℕ) (done rest before later : Text) {k : ℕ}
      → search (v ∷ vs) rest ≡ some k
      → rest ≡ before ++ ((v ∷ vs) ++ later)
      → length before ≡ k
      → redact_from (suc rounds) (v ∷ vs) (done ++ rest) (length done)
        ≡ redact_from rounds
            (v ∷ vs)
            (((done ++ before) ++ mark) ++ later)
            (length ((done ++ before) ++ mark))
  unfolding redact_from find
  round rounds done rest before later {k} found e len =
      let value : Text = v ∷ vs in
      let front = done ++ before in
      let at : length done + k ≡ length front = omega (arith, length-append done before) in
      let message : done ++ rest ≡ front ++ (value ++ later) =
        ap (λ t. done ++ t) e ∙ sym (append_assoc done before (value ++ later)) in
      let struck : strike (length done + k) (length value) (done ++ rest)
          ≡ (front ++ mark) ++ later =
        ap (λ n. strike n (length value) (done ++ rest)) at
        ∙ ap (strike (length front) (length value)) message
        ∙ strike-found front value later
        ∙ sym (append_assoc front mark later) in
      let moved : length done + k + 10 ≡ length (front ++ mark) =
        omega (arith, at, length-append front mark) in
      let finds : search value (drop (length done) (done ++ rest)) ≡ some k =
        ap (search value) (drop-append done rest) ∙ found in
      let first : redact_from (suc rounds) value (done ++ rest) (length done)
          ≡ redact_from rounds value (strike (length done + k) (length value) (done ++ rest))
              (length done + k + 10) =
        redact_from-found rounds (v ∷ vs) (done ++ rest) (length done) finds in
      first
      ∙ ap (λ t. redact_from rounds value t (length done + k + 10)) struck
      ∙ ap (redact_from rounds value ((front ++ mark) ++ later)) moved

  -- The loop behind a part that it is done with.
  redact_from-Redacted :
      (rounds : ℕ) (done rest : Text)
      → length rest < rounds
      → (result : Text) × (redact_from rounds (v ∷ vs) (done ++ rest) (length done)
          ≡ some (done ++ result))
        × Redacted (v ∷ vs) rest result
  unfolding redact_from find
  redact_from-Redacted zero done rest h = elim h [ ]
  redact_from-Redacted (suc rounds) done rest h = elim (Option-cases (search (v ∷ vs) rest)) [
    | inl gone ↦ (
      rest,
      ground (arith, drop-append done rest),
      record { piece = rest; pieces = []; splits = refl; free = gone; all_free = tt; joins = refl },
    )
    | inr (k, found) ↦
        let (before, later, e, len, free) = search-some v vs rest found in
        let done' = (done ++ before) ++ mark in
        let shorter : length later < rounds = omega (
          arith,
          ap length e ∙ length-append before ((v ∷ vs) ++ later),
          length-append (v ∷ vs) later,
        ) in
        let (result, runs, red) = redact_from-Redacted rounds done' later shorter in
        (
          before ++ (mark ++ result),
          round rounds done rest before later found e len
              ∙ runs
              ∙ ap some (
                  append_assoc (done ++ before) mark result
                  ∙ append_assoc done before (mark ++ result)),
          record {
            piece = before;
            pieces = red.piece ∷ red.pieces;
            splits = e ∙ ap (λ t. before ++ ((v ∷ vs) ++ t)) red.splits;
            free = free;
            all_free = (red.free, red.all_free);
            joins = ap (λ t. before ++ (mark ++ t)) red.joins;
          },
        )
  ]

-- An empty value changes nothing.
abbrev pub Struck : Text → Text → Text → Type 0
Struck [] message result = result ≡ message
Struck (v ∷ vs) message result = Redacted (v ∷ vs) message result

-- `redact` returns for every value and message, after at most one round more than the message has
-- characters. Where the value is empty, it returns the message. Else the message is cut at every
-- place where the loop finds the value, from left to right, and each of these is replaced by the
-- mark; no piece that is left of the message contains the value.
pub redact_returns :
    (value message : Text)
    → (result : Text) × (redact value message ≡ some result) × Struck value message result
unfolding redact
redact_returns [] message = (message, refl, refl)
redact_returns (v ∷ vs) message =
    redact_from-Redacted v vs (suc (length message)) [] message (omega arith)

redact-total : (value message : Text) → (result : Text) × (redact value message ≡ some result)
redact-total value message = let (r, e, _) = redact_returns value message in (r, e)

length-take : (n : ℕ) (xs : Text) → length (take n xs) ≤ n
length-take zero xs = omega arith
length-take (suc n) [] = omega arith
length-take (suc n) (x ∷ xs) = omega (arith, length-take n xs)

-- `safe_message` returns for every message, target and pair of keys, and what it returns has at most
-- 1024 characters.
pub safe_message_short :
    (api_key secret_key message target : Text)
    → (result : Text) × (safe_message api_key secret_key message target ≡ some result)
      × (length result ≤ 1024)
unfolding safe_message
safe_message_short api_key secret_key message target =
    let (a, e₁) = redact-total (signature_of target) message in
    let (b, e₂) = redact-total target a in
    let (c, e₃) = redact-total api_key b in
    let (d, e₄) = redact-total secret_key c in (take 1024 d, cc, length-take 1024 d)
