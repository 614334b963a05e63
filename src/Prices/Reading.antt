-- ===== src/Prices/Reading.antt =====
-- What `decimal` reads (src/orderbook.cpp), against the value of its digits.
use single_exchange_triangul.Common.{append_nil}
use single_exchange_triangul.Common.{
  ℕ, ◌+◌, ◌-◌, ◌*◌, ◌≤◌, ◌≡◌, refl, sym, ap, ◌∙◌, Bool, true, false, ◌||◌, ltb, ◌==◌, some, [], ◌∷◌,
  ◌++◌, if◌then◌else◌, arith, All, length,
}
use single_exchange_triangul.Decimal.{Text}
use single_exchange_triangul.Prices.{max_int64, Parsed, add_digit, decimal_from, decimal}

abbrev pub Digit : ℕ → Type 0
Digit c = (b'0' ≤ c) × (c ≤ b'9')

-- The number that the digits spell behind `n`.
abbrev pub spelled : ℕ → Text → ℕ
spelled n [] = n
spelled n (c ∷ cs) = spelled (n * 10 + (c - b'0')) cs

spelled_ge : (n : ℕ) (cs : Text) → n ≤ spelled n cs
spelled_ge n [] = omega arith
spelled_ge n (c ∷ cs) = omega (arith, spelled_ge (n * 10 + (c - b'0')) cs)

spelled-append : (n : ℕ) (xs ys : Text) → spelled n (xs ++ ys) ≡ spelled (spelled n xs) ys
spelled-append n [] ys = refl
spelled-append n (x ∷ xs) ys = spelled-append (n * 10 + (x - b'0')) xs ys

abbrev pub scale_after : Bool → ℕ → Text → ℕ
scale_after dot n cs = if dot then n + length cs else n

add_digit_fits :
    (dot : Bool) (c : ℕ) (r : Parsed)
    → Digit c
    → r.mantissa * 10 + (c - b'0') ≤ max_int64
    → (dot ≡ true → r.scale + 1 ≤ 127)
    → add_digit dot c r
      ≡ some (record {
        mantissa = r.mantissa * 10 + (c - b'0');
        scale = if dot then r.scale + 1 else r.scale;
      })
unfolding add_digit
add_digit_fits dot c r d m s = ground arith

Digit-step :
    (first dot : Bool) (c : ℕ) (cs : Text) (r : Parsed)
    → Digit c
    → r.mantissa * 10 + (c - b'0') ≤ max_int64
    → (dot ≡ true → r.scale + 1 ≤ 127)
    → decimal_from first dot (c ∷ cs) r
      ≡ decimal_from false dot cs (record {
        mantissa = r.mantissa * 10 + (c - b'0');
        scale = if dot then r.scale + 1 else r.scale;
      })
unfolding decimal_from
Digit-step first dot c cs r d m s =
    let e = add_digit_fits dot c r d m s in
    let plain : (c == b'.') ≡ false = ground arith in
    let low : (ltb c b'0' || ltb b'9' c) ≡ false = ground arith in ground arith

digits_read :
    (dot : Bool) (cs rest : Text) (r : Parsed)
    → All Digit cs
    → spelled r.mantissa cs ≤ max_int64
    → (dot ≡ true → r.scale + length cs ≤ 127)
    → decimal_from false dot (cs ++ rest) r
      ≡ decimal_from false dot rest
          (record { mantissa = spelled r.mantissa cs; scale = scale_after dot r.scale cs })
digits_read dot [] rest r d m s =
    ap (λ n. decimal_from false dot rest (record { mantissa = r.mantissa; scale = n })) (kept dot)
  where
    kept : (b : Bool) → r.scale ≡ scale_after b r.scale []
    kept b = ground arith
digits_read dot (c ∷ cs) rest r d m s =
    let next : Parsed = record {
      mantissa = r.mantissa * 10 + (c - b'0');
      scale = if dot then r.scale + 1 else r.scale;
    } in
    let small : next.mantissa ≤ max_int64 = omega (arith, spelled_ge next.mantissa cs, m) in
    let near : dot ≡ true → r.scale + 1 ≤ 127 = λ e. let bound = s e in omega arith in
    let later : dot ≡ true → next.scale + length cs ≤ 127 = λ e. let bound = s e in ground arith in
    let same : scale_after dot next.scale cs ≡ scale_after dot r.scale (c ∷ cs) = ground arith in
    Digit-step false dot c (cs ++ rest) r (d.0) small near
    ∙ digits_read dot cs rest next (d.1) m later
    ∙ ap
        (λ n.
          decimal_from false dot rest (record { mantissa = spelled next.mantissa cs; scale = n }))
        same

point_step :
    (d : ℕ) (part : Text) (r : Parsed)
    → decimal_from false false (b'.' ∷ d ∷ part) r ≡ decimal_from false true (d ∷ part) r
unfolding decimal_from
point_step d part r = refl

end_step : (r : Parsed) → decimal_from false true [] r ≡ some r
unfolding decimal_from
end_step r = refl

-- A text of digits with a point between two of them is read exactly: its mantissa is the number that
-- the digits spell, and its scale is the number of digits behind the point, as long as the number
-- fits `std::int64_t` and the scale is at most 127.
pub decimal_reads :
    (c : ℕ) (whole : Text) (d : ℕ) (part : Text)
    → All Digit (c ∷ whole)
    → All Digit (d ∷ part)
    → spelled 0 ((c ∷ whole) ++ (d ∷ part)) ≤ max_int64
    → length (d ∷ part) ≤ 127
    → decimal ((c ∷ whole) ++ (b'.' ∷ d ∷ part))
      ≡ some
          (record { mantissa = spelled 0 ((c ∷ whole) ++ (d ∷ part)); scale = length (d ∷ part) })
unfolding decimal
decimal_reads c whole d part dw dp m s =
    let all : spelled 0 ((c ∷ whole) ++ (d ∷ part)) ≡ spelled (spelled 0 (c ∷ whole)) (d ∷ part) =
      spelled-append 0 (c ∷ whole) (d ∷ part) in
    let n = spelled 0 (c ∷ whole) in
    let left : n ≤ max_int64 = omega (arith, spelled_ge n (d ∷ part), all, m) in
    let start : Parsed = record { mantissa = 0; scale = 0 } in
    let first : Parsed = record { mantissa = 0 * 10 + (c - b'0'); scale = 0 } in
    let small : first.mantissa ≤ max_int64 = omega (arith, spelled_ge first.mantissa whole, left) in
    let mid : Parsed = record { mantissa = n; scale = 0 } in
    Digit-step true false c (whole ++ (b'.' ∷ d ∷ part)) start (dw.0) small
      (λ e. absurd (ground arith))
    ∙ digits_read false whole (b'.' ∷ d ∷ part) first (dw.1) left (λ e. absurd (ground arith))
    ∙ point_step d part mid
    ∙ ap (λ cs. decimal_from false true cs mid) (sym (append_nil (d ∷ part)))
    ∙ digits_read true (d ∷ part) [] mid dp (omega (arith, all, m)) (λ e. omega (arith, s))
    ∙ end_step _
    ∙ ap (λ k. some (record { mantissa = k; scale = 0 + length (d ∷ part) })) (sym all)
    ∙ ap (λ k. some (record { mantissa = spelled 0 ((c ∷ whole) ++ (d ∷ part)); scale = k }))
        (omega arith)
