-- ===== src/Decimal.antt =====
-- The number types of the program, which it takes from elsewhere: `Decimal`
-- (boost::multiprecision::cpp_dec_float_50) in the execution module, and `long double` in the scan.
-- Their operations are parameters; `decimal_text` (src/execution/execution.cpp) is the program's own.
use single_exchange_triangul.Common.{ℕ, Bool, List, [], ◌∷◌, ◌==◌, if◌then◌else◌}
use mathlib.Core.List.{reverse}
use single_exchange_triangul.Common.Int.{ℤ}

-- A text that goes over the wire, as its characters.
abbrev pub Text : Type 0
Text = List ℕ

-- What the code computes with on either type. A comparison with NaN is `false`, so `lt` and `le`
-- are two operations.
pub record Arith {ℓ} (A : Type ℓ) : Type ℓ where
  pub nought : A
  pub one : A
  pub of_int : ℤ → A
  pub pow10 : ℤ → A
  pub plus : A → A → A
  pub minus : A → A → A
  pub times : A → A → A
  pub over : A → A → A
  pub negate : A → A
  pub floor : A → A
  pub ceil : A → A
  pub lt : A → A → Bool
  pub le : A → A → Bool
  pub eq : A → A → Bool
  pub finite : A → Bool

-- `value.str(40, std::ios_base::fixed)` and the constructor from a text.
pub record Wire {ℓ} (D : Type ℓ) : Type ℓ where
  pub fixed40 : D → Text
  pub of_text : Text → D

-- `Decimal(x)` and `nlohmann::json(x).dump()` at a floating-point `x`.
pub record Widen {ℓ κ} (F : Type ℓ) (D : Type κ) : Type (ℓ ⊔ κ) where
  pub of_float : F → D
  pub dump : F → Text

-- The loop `while (text.size() > 1 && text.back() == '0') text.pop_back()`, on the text backwards.
unfoldable pub strip_zeros : Text → Text
strip_zeros [] = []
strip_zeros (c ∷ []) = c ∷ []
strip_zeros (c ∷ d ∷ r) = if c == b'0' then strip_zeros (d ∷ r) else c ∷ d ∷ r

-- `if (text.back() == '.') text.pop_back()`, on the text backwards.
unfoldable pub strip_dot : Text → Text
strip_dot [] = []
strip_dot (c ∷ r) = if c == b'.' then r else c ∷ r

-- `decimal_text`.
unfoldable pub decimal_text {ℓ} : {D : Type ℓ} ⦃w : Wire D⦄ → D → Text
unfolding strip_zeros strip_dot
decimal_text ⦃w⦄ value = reverse (strip_dot (strip_zeros (reverse (w.fixed40 value))))
