-- ===== src/Fetch/Tests.antt =====
-- A request whose deadline does not pass (src/receiver.cpp).
use single_exchange_triangul.Common.{
  ℕ, ◌≡◌, ◌≤◌, ◌⊎◌, refl, true, false, Option, none, some, List, [], ◌∷◌, length, replicate, ◌↔◌,
  drop, arith,
}
use single_exchange_triangul.Decimal.{Text}
use single_exchange_triangul.Fetch.{
  Fetch, Event, completed, expired, new_fetch, info_path, info_target, run, none_left, fetched,
}
use single_exchange_triangul.Fetch.Target.{unescape, info_target-symbols}
use single_exchange_triangul.Fetch.Ends.{in_time, fetch_settles}

-- The errors are numbers; 1 is the deadline's, and 2 that of a handler that was canceled.
abbrev events : List (Event ℕ)
events =
    completed none
    ∷ completed none
    ∷ completed none
    ∷ completed none
    ∷ completed none
    ∷ expired (some 2)
    ∷ []

abbrev settled : Fetch ℕ
settled = record { pending = none; waiting = false; done = true; failure = none }

runs : run 1 events new_fetch ≡ some settled
unfolding run new_fetch
runs = refl

abbrev first_byte : Text → Option ℕ
first_byte [] = none
first_byte (c ∷ cs) = some c

abbrev body : Text
body = b'7' ∷ []

abbrev status : ℕ
status = 200

fetch_settles_example :
    (length events ≤ 6)
    × ((none_left settled ≡ false)
        ⊎ ((settled.done ≡ true)
            × ((v : ℕ)
                → (fetched first_byte status body settled ≡ some v) ↔ (
                    (in_time events ≡ replicate 5 none)
                    × (status ≡ 200)
                    × (first_byte body ≡ some v)))))
fetch_settles_example = fetch_settles 1 first_byte status body events runs

-- ["A"].
abbrev listed : Text
listed = b'[' ∷ b'"' ∷ b'A' ∷ b'"' ∷ b']' ∷ []

info_target-symbols_example : unescape (drop (length info_path) (info_target listed)) ≡ listed
info_target-symbols_example = info_target-symbols listed (ground arith)
