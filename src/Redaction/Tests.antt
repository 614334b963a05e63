-- ===== src/Redaction/Tests.antt =====
-- Messages with a secret in them (src/execution/binance_gateway.cpp).
use single_exchange_triangul.Common.{◌≡◌, refl, ◌≤◌, some, [], ◌∷◌, ◌++◌, length}
use single_exchange_triangul.Decimal.{Text}
use single_exchange_triangul.Redaction.{redact, safe_message, mark, signature_key}
use single_exchange_triangul.Redaction.Pieces.{Redacted, redact_returns, safe_message_short}

abbrev secret : Text
secret = b'a' ∷ b'b' ∷ []

-- "xababy".
abbrev message : Text
message = b'x' ∷ b'a' ∷ b'b' ∷ b'a' ∷ b'b' ∷ b'y' ∷ []

struck_twice : redact secret message ≡ some (b'x' ∷ (mark ++ mark) ++ b'y' ∷ [])
unfolding redact
struck_twice = refl

redact_returns_example :
    (result : Text) × (redact secret message ≡ some result) × Redacted secret message result
redact_returns_example = redact_returns (b'a' ∷ b'b' ∷ []) message

-- "signature=ab&c".
abbrev target : Text
target = signature_key ++ b'a' ∷ b'b' ∷ b'&' ∷ b'c' ∷ []

signature_struck : safe_message [] [] message target ≡ some (b'x' ∷ (mark ++ mark) ++ b'y' ∷ [])
unfolding safe_message
signature_struck = refl

safe_message_short_example :
    (result : Text) × (safe_message [] secret message target ≡ some result) × (length result ≤ 1024)
safe_message_short_example = safe_message_short [] secret message target
