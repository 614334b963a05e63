-- ===== src/Prices/Value.antt =====
-- The values of the decimal texts (src/orderbook.cpp).
use mathlib.Core.Path.{subst}
use mathlib.Core.Option.{some-injective}
use native.Mathlib.Nat.{le-div_iff_mul-le, one-le-pow, pow-zero, mul-one, zero-mul}
use single_exchange_triangul.Common.{
  ℕ, ◌-◌, ◌*◌, ◌/◌, ◌^◌, ◌≤◌, ◌<◌, ◌≡◌, sym, ap, ◌∙◌, ◌⊎◌, inl, inr, Bool, true, false, not, ◌&&◌,
  ◌||◌, ltb, ◌==◌, some, [], ◌∷◌, if◌then◌else◌, >>=-eq-some, arith, Bool-cases,
}
use single_exchange_triangul.Decimal.{Text}
use single_exchange_triangul.Prices.{
  max_int64, is_empty, Parsed, Pair, add_digit, decimal_from, decimal, rescale, decimal_pair,
}

-- Within `std::int64_t`, and within the `std::int8_t` of an exponent.
abbrev pub Bounded : Parsed → Type 0
Bounded r = (r.mantissa ≤ max_int64) × (r.scale ≤ 127)

add_digit-Bounded :
    (dot : Bool) (c : ℕ) (r : Parsed) {t : Parsed}
    → b'0' ≤ c
    → c ≤ b'9'
    → Bounded r
    → add_digit dot c r ≡ some t
    → Bounded t
unfolding add_digit
add_digit-Bounded dot c r lo hi i e = ground arith

decimal_from-Bounded :
    (first dot : Bool) (cs : Text) (r : Parsed) {t : Parsed}
    → Bounded r
    → decimal_from first dot cs r ≡ some t
    → Bounded t
unfolding decimal_from
decimal_from-Bounded first dot [] r i e = ground arith
decimal_from-Bounded first dot (c ∷ cs) r {t} i e =
    elim (Bool-cases (c == b'.' && not dot && not first && not (is_empty cs))) [
      | inl point ↦ decimal_from-Bounded false true cs r i (ground arith)
      | inr other ↦ elim (Bool-cases (ltb c b'0' || ltb b'9' c)) [
        | inl bad ↦ ground arith
        | inr digit ↦
            let (m, e₁, e₂) =
              >>=-eq-some (add_digit dot c r) (decimal_from false dot cs) {b = t} (ground arith) in
            decimal_from-Bounded false dot cs m
              (add_digit-Bounded dot c r {t = m} (ground arith) (ground arith) i e₁) e₂
      ]
    ]

pub decimal-Bounded : (text : Text) {t : Parsed} → decimal text ≡ some t → Bounded t
unfolding decimal
decimal-Bounded [] e = cc
decimal-Bounded (c ∷ cs) e = decimal_from-Bounded true false (c ∷ cs) _ (omega arith, omega arith) e

-- A value at a larger scale, without overflow.
abbrev pub Rescaled : Parsed → ℕ → ℕ → Type 0
Rescaled v scale n = (v.scale ≤ scale) × (n ≡ v.mantissa * 10 ^ (scale - v.scale)) × (n ≤ max_int64)

within_table : (n d : ℕ) → 0 < d → n ≤ max_int64 / d → n * d ≤ max_int64
within_table n d pos h = (le-div_iff_mul-le pos).0 h

power_pos : (d : ℕ) → 0 < 10 ^ d
power_pos d = one-le-pow d 10 (omega arith)

unscaled : (m d : ℕ) → (d ≡ 0) ⊎ (m ≡ 0) → m ≡ m * 10 ^ d
unscaled m d (inl e) =
    let unit : 10 ^ d ≡ 1 = ap (λ k. 10 ^ k) e ∙ pow-zero 10 in
    sym (mul-one m) ∙ ap (λ k. m * k) (sym unit)
unscaled m d (inr e) = e ∙ sym (ap (λ k. k * 10 ^ d) e ∙ zero-mul (10 ^ d))

rescale_exact :
    (v : Parsed) (scale : ℕ) {n : ℕ}
    → v.mantissa ≤ max_int64
    → v.scale ≤ scale
    → rescale v scale ≡ some n
    → Rescaled v scale n
unfolding rescale
rescale_exact v scale {n} h k e =
    let delta = scale - v.scale in
    elim (Bool-cases (delta == 0 || v.mantissa == 0)) [
      | inl trivial ↦
          let same : n ≡ v.mantissa = ground arith in
          (k, same ∙ unscaled v.mantissa delta (ground arith), omega (arith, same, h))
      | inr other ↦
          let fits : v.mantissa ≤ max_int64 / 10 ^ delta = ground arith in
          let value : n ≡ v.mantissa * 10 ^ delta = ground arith in
          let bound = within_table v.mantissa (10 ^ delta) (power_pos delta) fits in
          (k, value, omega (arith, value, bound))
    ]

-- What `decimal_pair` answers are both values at their larger scale, exact and within `std::int64_t`,
-- and the scale, negated, is within `std::int8_t`.
pub decimal_pair_exact :
    (bid ask : Text) {p : Pair}
    → decimal_pair bid ask ≡ some p
    → (b : Parsed) × (a : Parsed) × (decimal bid ≡ some b)
      × (decimal ask ≡ some a)
      × Rescaled b p.scale p.bid_value
      × Rescaled a p.scale p.ask_value
      × ((p.scale ≡ b.scale) ⊎ (p.scale ≡ a.scale))
      × (p.scale ≤ 127)
unfolding decimal_pair
decimal_pair_exact bid ask {p} e =
    let (b, e₁, r₁) = >>=-eq-some (decimal bid) _ e in
    let (a, e₂, r₂) = >>=-eq-some (decimal ask) _ r₁ in
    let scale : ℕ = if ltb b.scale a.scale then a.scale else b.scale in
    let (x, e₃, r₃) = >>=-eq-some (rescale b scale) _ r₂ in
    let (y, e₄, r₄) = >>=-eq-some (rescale a scale) _ r₃ in
    let (bm, bs) = decimal-Bounded bid {t = b} e₁ in
    let (am, ab) = decimal-Bounded ask {t = a} e₂ in
    let rb = rescale_exact b scale {n = x} bm (ground arith) e₃ in
    let ra = rescale_exact a scale {n = y} am (ground arith) e₄ in
    (
      b,
      a,
      e₁,
      e₂,
      subst (λ q. Rescaled b q.scale q.bid_value) (some-injective _ _ r₄) rb,
      subst (λ q. Rescaled a q.scale q.ask_value) (some-injective _ _ r₄) ra,
      ground arith,
      ground arith,
    )
