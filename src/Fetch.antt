-- ===== src/Fetch.antt =====
-- `fetch_exchange_info` (src/receiver.cpp): the request for the markets of the configured symbols, a
-- chain of operations under a deadline.
pub mod Target
pub mod Ends
mod Tests
use single_exchange_triangul.Common.{
  ℕ, ◌+◌, ◌-◌, ◌/◌, ◌%◌, ◌≡◌, refl, Bool, true, false, not, ◌&&◌, ◌==◌, ltb, Option, none, some,
  is_some, List, [], ◌∷◌, ◌++◌, if◌then◌else◌, ◌>>=◌,
}
use single_exchange_triangul.Decimal.{Text}

-- `hex[digit]`.
unfoldable pub hex_digit : ℕ → ℕ
hex_digit n = if ltb n 10 then b'0' + n else b'A' + (n - 10)

-- Every byte of the list of symbols, escaped.
unfoldable pub escape : Text → Text
unfolding hex_digit
escape [] = []
escape (c ∷ cs) = b'%' ∷ hex_digit (c / 16) ∷ hex_digit (c % 16) ∷ escape cs

abbrev pub info_path : Text
info_path =
    b'/' ∷ b'a' ∷ b'p' ∷ b'i' ∷ b'/' ∷ b'v' ∷ b'3' ∷ b'/' ∷ b'e' ∷ b'x' ∷ b'c' ∷ b'h' ∷ b'a' ∷ b'n'
    ∷ b'g' ∷ b'e' ∷ b'I' ∷ b'n' ∷ b'f' ∷ b'o' ∷ b'?' ∷ b's' ∷ b'y' ∷ b'm' ∷ b'b' ∷ b'o' ∷ b'l'
    ∷ b's' ∷ b'=' ∷ []

-- `dumped` is the text of the list of symbols as JSON.
unfoldable pub info_target : Text → Text
unfolding escape
info_target dumped = info_path ++ escape dumped

-- The operation whose handler is outstanding.
pub data FetchStage : Type 0 where
  resolving connecting shaking_hands writing reading : FetchStage

-- An error of the network; `none` where an operation succeeds.
pub record Fetch (X : Type 0) : Type 0 where
  pub pending : Option FetchStage
  -- Whether the handler of the deadline is outstanding.
  pub waiting : Bool
  pub done : Bool
  pub failure : Option X

-- A handler that is called: that of the operation, or that of the deadline, whose error is that it was
-- canceled.
pub data Event (X : Type 0) : Type 0 where
  completed expired : Option X → Event X

unfoldable pub new_fetch : {X : Type 0} → Fetch X
new_fetch = record { pending = some resolving; waiting = true; done = false; failure = none }

unfoldable pub following : FetchStage → Option FetchStage
following resolving = some connecting
following connecting = some shaking_hands
following shaking_hands = some writing
following writing = some reading
following reading = none

module _ {X : Type 0} where
  -- Canceling and closing let the outstanding handlers come sooner, and leave them outstanding.
  unfoldable pub finish_fetch : Option X → Fetch X → Fetch X
  finish_fetch ec s = if s.done then s else record s { done = true; failure = ec }

  -- The handler of an operation, which starts the following one.
  unfoldable pub complete_stage : FetchStage → Option X → Fetch X → Fetch X
  unfolding finish_fetch following
  complete_stage stage ec s =
      if s.done then s else if is_some ec then finish_fetch ec s else elim (following stage) [
        | some next ↦ record s { pending = some next }
        | none ↦ finish_fetch ec s
      ]

  unfoldable pub expire : X → Option X → Fetch X → Fetch X
  unfolding finish_fetch
  expire timed_out ec s = if is_some ec then s else finish_fetch (some timed_out) s

  -- One handler of `io.run()`; `none` where it is not outstanding.
  unfoldable pub step : X → Event X → Fetch X → Option (Fetch X)
  unfolding complete_stage expire
  step timed_out (completed ec) s = do
    stage ← s.pending
    some (complete_stage stage ec (record s { pending = none }))
  step timed_out (expired ec) s =
      if s.waiting then some (expire timed_out ec (record s { waiting = false })) else none

  unfoldable pub run : X → List (Event X) → Fetch X → Option (Fetch X)
  unfolding step
  run timed_out [] s = some s
  run timed_out (e ∷ es) s = step timed_out e s >>= run timed_out es

  -- `io.run()` returns where no handler is outstanding.
  unfoldable pub none_left : Fetch X → Bool
  none_left s = not (is_some s.pending) && not s.waiting

  -- What comes behind `io.run()`, with the status and the body of the reply, and the JSON parser.
  unfoldable pub fetched : {J : Type 0} → (Text → Option J) → ℕ → Text → Fetch X → Option J
  fetched parse status body s =
      if is_some s.failure then none else if status == 200 then parse body else none
