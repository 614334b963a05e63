-- ===== src/Redaction.antt =====
-- `safe_message` of `BinanceGateway` (src/execution/binance_gateway.cpp): secrets are struck from a
-- message before it is kept. Texts are their characters.
pub mod Search
pub mod Pieces
mod Tests
use single_exchange_triangul.Common.{
  ℕ, zero, suc, ◌+◌, Bool, true, false, not, ◌&&◌, Option, none, some, List, [], ◌∷◌, ◌++◌, ◌==◌,
  length, if◌then◌else◌, ◌>>=◌,
}
use single_exchange_triangul.Decimal.{Text}

abbrev pub take : ℕ → Text → Text
take zero xs = []
take (suc n) [] = []
take (suc n) (x ∷ xs) = x ∷ take n xs

abbrev pub drop : ℕ → Text → Text
drop zero xs = xs
drop (suc n) [] = []
drop (suc n) (x ∷ xs) = drop n xs

-- Whether the second text begins with the first.
abbrev pub starts : Text → Text → Bool
starts [] xs = true
starts (v ∷ vs) [] = false
starts (v ∷ vs) (x ∷ xs) = v == x && starts vs xs

abbrev pub next : Option ℕ → Option ℕ
next none = none
next (some k) = some (suc k)

-- `text.find(value)`; an empty value is at the start of every text.
unfoldable pub search : Text → Text → Option ℕ
search value [] = if starts value [] then some 0 else none
search value (x ∷ xs) = if starts value (x ∷ xs) then some 0 else next (search value xs)

-- `text.find(value, pos)`.
unfoldable pub find : Text → Text → ℕ → Option ℕ
unfolding search
find value text pos = elim (search value (drop pos text)) [ none ↦ none | some k ↦ some (pos + k) ]

-- "[REDACTED]".
abbrev pub mark : Text
mark = b'[' ∷ b'R' ∷ b'E' ∷ b'D' ∷ b'A' ∷ b'C' ∷ b'T' ∷ b'E' ∷ b'D' ∷ b']' ∷ []

-- `text.replace(pos, size, "[REDACTED]")`.
abbrev pub strike : ℕ → ℕ → Text → Text
strike pos size text = take pos text ++ (mark ++ drop (pos + size) text)

-- The loop of `redact` on at most the given number of rounds; `none` where they do not suffice.
unfoldable pub redact_from : ℕ → Text → Text → ℕ → Option Text
unfolding find
redact_from zero value message pos = none
redact_from (suc rounds) value message pos = elim (find value message pos) [
  | none ↦ some message
  | some at ↦ redact_from rounds value (strike at (length value) message) (at + 10)
]

-- `redact`. As many rounds as the message has characters, and one, suffice.
unfoldable pub redact : Text → Text → Option Text
unfolding redact_from
redact [] message = some message
redact (v ∷ vs) message = redact_from (suc (length message)) (v ∷ vs) message 0

-- "signature=".
abbrev pub signature_key : Text
signature_key = b's' ∷ b'i' ∷ b'g' ∷ b'n' ∷ b'a' ∷ b't' ∷ b'u' ∷ b'r' ∷ b'e' ∷ b'=' ∷ []

abbrev pub until_ampersand : Text → Text
until_ampersand [] = []
until_ampersand (c ∷ cs) = if c == b'&' then [] else c ∷ until_ampersand cs

-- The signature in a target, empty where there is none.
unfoldable pub signature_of : Text → Text
unfolding search
signature_of target = elim (search signature_key target) [
  | none ↦ []
  | some at ↦ until_ampersand (drop (at + 10) target)
]

unfoldable pub safe_message : Text → Text → Text → Text → Option Text
unfolding redact signature_of
safe_message api_key secret_key message target = do
  unsigned ← redact (signature_of target) message
  untargeted ← redact target unsigned
  without_key ← redact api_key untargeted
  clean ← redact secret_key without_key
  some (take 1024 clean)
