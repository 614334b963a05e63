-- ===== src/Fetch/Target.antt =====
-- The target of the request of `fetch_exchange_info` (src/receiver.cpp).
use single_exchange_triangul.Common.{
  ℕ, ◌+◌, ◌*◌, ◌-◌, ◌/◌, ◌%◌, ◌<◌, ◌≡◌, refl, ◌==◌, leb, [], ◌∷◌, length, arith, All, if◌then◌else◌,
  drop,
}
use single_exchange_triangul.Decimal.{Text}
use single_exchange_triangul.Fetch.{hex_digit, escape, info_path, info_target}

-- How a server reads an escaped text (RFC 3986): a percent sign and two digits are a byte, and any
-- other character stands for itself.
abbrev hex_value : ℕ → ℕ
hex_value c = if leb c b'9' then c - b'0' else c - b'A' + 10

abbrev pub unescape : Text → Text
unescape (c ∷ high ∷ low ∷ rest) =
    let plain = unescape (high ∷ low ∷ rest) in
    let byte = unescape rest in
    if c == b'%' then (hex_value high * 16 + hex_value low) ∷ byte else c ∷ plain
unescape rest = rest

hex_value-hex_digit : (n : ℕ) → n < 16 → hex_value (hex_digit n) ≡ n
unfolding hex_digit
hex_value-hex_digit n h = ground arith

unescape-escape : (cs : Text) → All (λ c. c < 256) cs → unescape (escape cs) ≡ cs
unfolding escape
unescape-escape [] ok = refl
unescape-escape (c ∷ cs) (byte, ok) =
    let same : hex_value (hex_digit (c / 16)) * 16 + hex_value (hex_digit (c % 16)) ≡ c = ground (
      arith,
      hex_value-hex_digit (c / 16) (omega (arith, byte)),
      hex_value-hex_digit (c % 16) (omega arith),
    ) in
    λ d. same d ∷ unescape-escape cs ok d

-- From the target that `fetch_exchange_info` asks for, a server reads the list of symbols back: behind the
-- path, its bytes are those of the list, where every character of the list is a byte.
pub info_target-symbols :
    (dumped : Text)
    → All (λ c. c < 256) dumped
    → unescape (drop (length info_path) (info_target dumped)) ≡ dumped
unfolding info_target
info_target-symbols dumped ok = unescape-escape dumped ok
