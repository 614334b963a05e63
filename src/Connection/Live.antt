-- ===== src/Connection/Live.antt =====
-- The sessions that are not ended (src/receiver.cpp).
use single_exchange_triangul.Common.{
  ℕ, zero, suc, ◌+◌, ◌<◌, ◌≡◌, false, some, List, [], ◌∷◌, ◌++◌, arith, get_elem?, set,
  if◌then◌else◌,
}
use single_exchange_triangul.Connection.{Session}

abbrev pub live_one : Session → ℕ
live_one x = if x.ended then 0 else 1

-- How many sessions are not ended.
abbrev pub live : List Session → ℕ
live [] = 0
live (x ∷ xs) = live_one x + live xs

pub live-set :
    (xs : List Session) (k : ℕ) (y : Session) {x : Session}
    → get_elem? xs k ≡ some x
    → live (set xs k y) + live_one x ≡ live xs + live_one y
live-set [] k y e = cc
live-set (z ∷ xs) zero y e = ground arith
live-set (z ∷ xs) (suc k) y {x} e = ground (arith, live-set xs k y {x = x} e)

pub live-append : (xs : List Session) (y : Session) → live (xs ++ (y ∷ [])) ≡ live xs + live_one y
live-append [] y = omega arith
live-append (x ∷ xs) y = omega (arith, live-append xs y)

pub live_pos :
    (xs : List Session) (k : ℕ) {x : Session}
    → get_elem? xs k ≡ some x
    → x.ended ≡ false
    → 0 < live xs
live_pos [] k e h = cc
live_pos (z ∷ xs) zero e h = ground arith
live_pos (z ∷ xs) (suc k) {x} e h = ground (arith, live_pos xs k {x = x} e h)
