-- ===== src/Logger.antt =====
-- `AsyncLogger` (src/logger.cpp): producers put records on a bounded list under the mutex, and one
-- worker swaps the list out and writes it. Each critical section is a step, and so is each write, which
-- returns or throws; the steps of the worker and of the producers may interleave.
pub mod Accounting
pub mod Order
mod Tests
use single_exchange_triangul.Common.{
  ℕ, ◌+◌, ◌%◌, ◌^◌, String, Bool, true, false, not, ◌&&◌, ◌||◌, ltb, leb, ◌==◌, Option, none, some,
  List, [], ◌∷◌, ◌++◌, if◌then◌else◌, length, inc64,
}

-- The fields of a row, and the clock's readings, are not modelled.
pub record Record : Type 0 where
  pub sequence : ℕ
  pub level : String
  pub event : String

pub record LoggerOptions : Type 0 where
  pub capacity : ℕ
  pub batch_threshold : ℕ

-- The tests of the constructor, which throws where they fail.
unfoldable pub options_ok : LoggerOptions → Bool
options_ok o =
    not (o.capacity == 0) && not (o.batch_threshold == 0) && not (ltb o.capacity o.batch_threshold)

-- Where the worker stands: it waits, it writes a batch, it writes the batch's diagnostic, it writes
-- the final row, it is over.
pub data Phase : Type 0 where
  waiting : Phase
  writing : List Record → Phase
  diagnosing : Phase
  closing : Phase
  ended : Phase

-- The members; `rows` are the records that the file is known to hold. The statistics of time and of
-- bytes are not modelled.
pub record Logger : Type 0 where
  pub pending : List Record
  pub stopping : Bool
  pub failed : Bool
  pub submitted : ℕ
  pub accepted : ℕ
  pub dropped : ℕ
  pub written : ℕ
  pub write_lost : ℕ
  pub batches : ℕ
  pub in_flight : ℕ
  pub high_water : ℕ
  pub phase : Phase
  pub rows : List Record

abbrev pub new_logger : Logger
new_logger = record {
  pending = [];
  stopping = false;
  failed = false;
  submitted = 0;
  accepted = 0;
  dropped = 0;
  written = 0;
  write_lost = 0;
  batches = 0;
  in_flight = 0;
  high_water = 0;
  phase = waiting;
  rows = [];
}

-- `log`, with the record if it is taken.
unfoldable pub log : LoggerOptions → String → String → Logger → Logger × Option Record
log o level event s =
    let asked = record s { submitted = inc64 s.submitted } in
    if s.stopping || s.failed || leb o.capacity (length s.pending)
    then (record asked { dropped = inc64 s.dropped }, none)
    else let r : Record = record { sequence = inc64 s.accepted; level = level; event = event } in
      let held = length s.pending + 1 in
      (
        record asked {
          pending = s.pending ++ (r ∷ []);
          accepted = inc64 s.accepted;
          high_water = if ltb s.high_water held then held else s.high_water;
        },
        some r,
      )

-- `stop`, without the wait for the worker.
unfoldable pub stop : Logger → Logger
stop s = record s { stopping = true }

-- The swap. The wait before it may end at any time, by its time-out.
unfoldable pub hand_over : Logger → Logger
hand_over s = elim s.phase [
  | waiting ↦ record s {
    pending = [];
    in_flight = length s.pending;
    phase = if length s.pending == 0 && s.stopping then closing else writing s.pending;
  }
  | _ ↦ s
]

-- A write that returns, with the section that follows it.
unfoldable pub write_returns : Logger → Logger
write_returns s = elim s.phase [
  | writing batch ↦ if length batch == 0 then record s { phase = diagnosing } else record s {
    rows = s.rows ++ batch;
    written = (s.written + length batch) % 2 ^ 64;
    in_flight = 0;
    batches = inc64 s.batches;
    phase = diagnosing;
  }
  | diagnosing ↦ record s { phase = waiting }
  | closing ↦ record s { phase = ended }
  | _ ↦ s
]

-- A write that throws. For an empty batch the code writes nothing but the diagnostic.
unfoldable pub write_throws : Logger → Logger
write_throws s =
    let lost = record s {
      failed = true;
      write_lost = (s.write_lost + s.in_flight + length s.pending) % 2 ^ 64;
      in_flight = 0;
      pending = [];
      phase = ended;
    } in
    elim s.phase [ waiting ↦ s | ended ↦ s | _ ↦ lost ]

pub data Step : Type 0 where
  logged : String → String → Step
  stop_called : Step
  handed_over : Step
  write_returned : Step
  write_threw : Step

-- A step, with the record that it takes.
unfoldable pub step : LoggerOptions → Step → Logger → Logger × Option Record
unfolding log stop hand_over write_returns write_throws
step o (logged level event) s = log o level event s
step o stop_called s = (stop s, none)
step o handed_over s = (hand_over s, none)
step o write_returned s = (write_returns s, none)
step o write_threw s = (write_throws s, none)

abbrev pub record_of : Option Record → List Record
record_of none = []
record_of (some r) = r ∷ []

-- The steps of a run, with the records that it takes, in their order.
unfoldable pub run : LoggerOptions → List Step → Logger → Logger × List Record
run o [] s = (s, [])
run o (x ∷ xs) s = let (t, r) = step o x s in let (u, rs) = run o xs t in (u, record_of r ++ rs)
