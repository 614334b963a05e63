-- ===== src/Streams/Names.antt =====
-- The names of the streams lead back to the symbols (src/orderbook.cpp).
use mathlib.Core.Path.{sym, ap, ◌∙◌}
use single_exchange_triangul.Common.{
  ℕ, false, some, List, [], ◌∷◌, ◌++◌, map, ◌==◌, ◌≡◌, refl, arith, All, if◌then◌else◌,
  append_assoc, append_nil,
}
use single_exchange_triangul.Decimal.{Text}
use single_exchange_triangul.Streams.{
  upper, lower, depth_suffix, target_prefix, back, append_streams, stream_target, split_at_sign,
  symbol_of_stream,
}

-- A symbol as `load_config` keeps it, free of the two characters that separate streams.
abbrev pub Plain : Text → Type 0
Plain = All (λ c. (upper c ≡ c) × ((c == b'@') ≡ false) × ((c == b'/') ≡ false))

-- What a server reads between the slashes of a target.
abbrev pub split_slashes : Text → List Text
split_slashes [] = [] ∷ []
split_slashes (c ∷ cs) = if c == b'/' then [] ∷ split_slashes cs else ahead c (split_slashes cs)
  where
    ahead : ℕ → List Text → List Text
    ahead c [] = (c ∷ []) ∷ []
    ahead c (t ∷ ts) = (c ∷ t) ∷ ts

abbrev stream_name : Text → Text
stream_name symbol = map lower symbol ++ depth_suffix

upper-lower : (c : ℕ) → upper c ≡ c → upper (lower c) ≡ c
unfolding upper lower
upper-lower c h = ground arith

lower-apart :
    (c : ℕ)
    → ((c == b'@') ≡ false) × ((c == b'/') ≡ false)
    → ((lower c == b'@') ≡ false) × ((lower c == b'/') ≡ false)
unfolding lower
lower-apart c h = ground arith

map-upper-lower : (s : Text) → Plain s → map upper (map lower s) ≡ s
map-upper-lower [] h = refl
map-upper-lower (c ∷ s) ((h, at, slash), hs) = ground (arith, upper-lower c h, map-upper-lower s hs)

split_at_sign-stream_name :
    (s : Text) → Plain s → split_at_sign (stream_name s) ≡ some (map lower s, depth_suffix)
unfolding split_at_sign
split_at_sign-stream_name [] h = refl
split_at_sign-stream_name (c ∷ s) ((h, at, slash), hs) =
    ground (arith, lower-apart c (at, slash), split_at_sign-stream_name s hs)

symbol_of_stream-stream_name : (s : Text) → Plain s → symbol_of_stream (stream_name s) ≡ some s
unfolding symbol_of_stream
symbol_of_stream-stream_name s h =
    ground (arith, split_at_sign-stream_name s h, map-upper-lower s h)

-- The rest of a target behind its first stream.
abbrev further : List Text → Text
further [] = []
further (s ∷ ss) = b'/' ∷ (stream_name s ++ further ss)

back-append : (d c : ℕ) (xs cs : Text) → back d (xs ++ c ∷ cs) ≡ back c cs
back-append d c [] cs = refl
back-append d c (x ∷ xs) cs = back-append x c xs cs

-- A text that ends in the name of a stream.
ends_name : (xs : Text) (s : Text) → (back 0 (xs ++ stream_name s) == b'=') ≡ false
ends_name xs s =
    ap (λ t. back 0 t == b'=') (sym (append_assoc xs (map lower s) depth_suffix))
    ∙ ap (λ d. d == b'=') (back-append 0 b'@' (xs ++ map lower s) _)

append_streams-further :
    (ss : List Text) (target : Text)
    → (back 0 target == b'=') ≡ false
    → append_streams target ss ≡ target ++ further ss
unfolding append_streams
append_streams-further [] target h = sym (append_nil target)
append_streams-further (s ∷ ss) target h =
    let longer = (target ++ b'/' ∷ []) ++ stream_name s in
    let first = append_assoc target (b'/' ∷ []) (stream_name s) in
    let whole = append_assoc target (b'/' ∷ stream_name s) (further ss) in
    let rest = append_streams-further ss longer (ends_name (target ++ b'/' ∷ []) s) in
    ground (arith, append_assoc (target ++ b'/' ∷ []) (map lower s) depth_suffix)

abbrev NoSlash : Text → Type 0
NoSlash = All (λ c. (c == b'/') ≡ false)

stream_name-NoSlash : (s : Text) → Plain s → NoSlash (stream_name s)
stream_name-NoSlash [] h = ground arith
stream_name-NoSlash (c ∷ s) ((h, at, slash), hs) =
    ((lower-apart c (at, slash)).1, stream_name-NoSlash s hs)

split_slashes-further :
    (ss : List Text) (xs : Text)
    → All Plain ss
    → NoSlash xs
    → split_slashes (xs ++ further ss) ≡ xs ∷ map stream_name ss
split_slashes-further [] [] ps h = refl
split_slashes-further (s ∷ ss) [] (p, ps) h =
    ap (◌∷◌ []) (split_slashes-further ss (stream_name s) ps (stream_name-NoSlash s p))
split_slashes-further ss (c ∷ xs) ps (h, hs) = ground (arith, split_slashes-further ss xs ps hs)

symbols-map :
    (ss : List Text) → All Plain ss → map symbol_of_stream (map stream_name ss) ≡ map some ss
symbols-map [] h = refl
symbols-map (s ∷ ss) (p, ps) = ground (arith, symbol_of_stream-stream_name s p, symbols-map ss ps)

-- For any symbols, at least one, in the letters that `load_config` leaves and without `@` and `/`:
-- the target that the receiver asks for is the prefix and then, between slashes, the names of streams
-- from which `decode_partial_depth` reads back exactly these symbols, in order.
pub streams_lead_back :
    (s : Text) (ss : List Text)
    → Plain s
    → All Plain ss
    → (rest : Text) × (stream_target (s ∷ ss) ≡ target_prefix ++ rest)
      × (map symbol_of_stream (split_slashes rest) ≡ map some (s ∷ ss))
unfolding stream_target append_streams
streams_lead_back s ss p ps = (
  stream_name s ++ further ss,
  append_streams-further ss (target_prefix ++ stream_name s) (ends_name target_prefix s),
  ap (map symbol_of_stream) (split_slashes-further ss (stream_name s) ps (stream_name-NoSlash s p))
      ∙ symbols-map (s ∷ ss) (p, ps),
)
