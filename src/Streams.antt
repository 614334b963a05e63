-- ===== src/Streams.antt =====
-- The names of the depth streams (src/orderbook.cpp): the symbols as `load_config` keeps them,
-- `stream_target`, and the symbol that `decode_partial_depth` reads back. Texts are their characters.
pub mod Names
mod Tests
use single_exchange_triangul.Common.{
  ℕ, ◌+◌, ◌-◌, Bool, true, false, not, ◌&&◌, Option, none, some, List, [], ◌∷◌, ◌++◌, map, ◌==◌,
  leb, if◌then◌else◌,
}
use single_exchange_triangul.Decimal.{Text}

-- `load_config`, on one character of a symbol.
unfoldable pub upper : ℕ → ℕ
upper c = if leb b'a' c && leb c b'z' then c - b'a' + b'A' else c

-- `stream_target`, on one character.
unfoldable pub lower : ℕ → ℕ
lower c = if leb b'A' c && leb c b'Z' then c - b'A' + b'a' else c

-- "@depth20@100ms".
abbrev pub depth_suffix : Text
depth_suffix =
    b'@' ∷ b'd' ∷ b'e' ∷ b'p' ∷ b't' ∷ b'h' ∷ b'2' ∷ b'0' ∷ b'@' ∷ b'1' ∷ b'0' ∷ b'0' ∷ b'm' ∷ b's'
    ∷ []

-- "/stream?streams=".
abbrev pub target_prefix : Text
target_prefix =
    b'/' ∷ b's' ∷ b't' ∷ b'r' ∷ b'e' ∷ b'a' ∷ b'm' ∷ b'?' ∷ b's' ∷ b't' ∷ b'r' ∷ b'e' ∷ b'a' ∷ b'm'
    ∷ b's' ∷ b'=' ∷ []

-- `target.back()`, on a text that is not empty; `d` is the character before it.
abbrev pub back : ℕ → Text → ℕ
back d [] = d
back d (c ∷ cs) = back c cs

-- The loop of `stream_target`.
unfoldable pub append_streams : Text → List Text → Text
unfolding lower
append_streams target [] = target
append_streams target (symbol ∷ symbols) =
    let slashed = if back 0 target == b'=' then target else target ++ b'/' ∷ [] in
    append_streams ((slashed ++ map lower symbol) ++ depth_suffix) symbols

unfoldable pub stream_target : List Text → Text
unfolding append_streams
stream_target symbols = append_streams target_prefix symbols

-- `stream.find('@')` and the two calls of `substr`: what stands before it, and the rest with it.
unfoldable pub split_at_sign : Text → Option (Text × Text)
split_at_sign [] = none
split_at_sign (c ∷ cs) =
    let rest = split_at_sign cs in
    if c == b'@'
    then some ([], c ∷ cs)
    else elim rest [ none ↦ none | some (name, tail) ↦ some (c ∷ name, tail) ]

abbrev pub same_text : Text → Text → Bool
same_text [] [] = true
same_text (c ∷ cs) (d ∷ ds) = c == d && same_text cs ds
same_text _ _ = false

-- The symbol of a stream in `decode_partial_depth`; `none` is its exception.
unfoldable pub symbol_of_stream : Text → Option Text
unfolding split_at_sign upper
symbol_of_stream stream = elim (split_at_sign stream) [
  | none ↦ none
  | some (name, tail) ↦ if same_text tail depth_suffix then some (map upper name) else none
]
