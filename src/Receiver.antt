-- ===== src/Receiver.antt =====
-- The queue between the network thread and the processing thread of `Receiver`
-- (src/receiver.cpp): the read handler writes it, `process` reads it. Each atomic load or store of an
-- index, with the plain work beside it, is one step, and the steps of the two threads may interleave.
pub mod Queue
pub mod Fifo
mod Tests
use single_exchange_triangul.Common.{
  ℕ, ◌+◌, ◌-◌, ◌*◌, ◌%◌, ◌^◌, Bool, true, false, ◌==◌, ltb, leb, Option, none, some, List, [], ◌∷◌,
  if◌then◌else◌, get_elem?, set, replicate, length, inc64,
}
use single_exchange_triangul.Decimal.{Text}

abbrev pub queue_capacity : ℕ
queue_capacity = 1024

abbrev pub max_message_bytes : ℕ
max_message_bytes = 16384

-- The source session, the kernel's timestamps and the realtime clock are not modelled.
pub record RawMessage : Type 0 where
  pub payload : Text
  pub received_ns : ℕ
  pub received_us : ℕ
  pub published_ns : ℕ
  pub sequence : ℕ
  pub text : Bool

abbrev pub blank_message : RawMessage
blank_message = record {
  payload = [];
  received_ns = 0;
  received_us = 0;
  published_ns = 0;
  sequence = 0;
  text = true;
}

-- `a - b` on a `std::uint64_t`.
abbrev pub sub64 : ℕ → ℕ → ℕ
sub64 a b = (a + 2 ^ 64 - b) % 2 ^ 64

-- The shared members, and where each thread stands: `arrived` is the message of a read handler with
-- the read index that it has loaded; `taken` is the message of a round of `process` that has begun.
pub record Channel : Type 0 where
  pub queue : List RawMessage
  pub write_index : ℕ
  pub read_index : ℕ
  pub wire_received : ℕ
  pub queue_full : ℕ
  pub oversized : ℕ
  pub high_water : ℕ
  pub arrived : Option (RawMessage × ℕ)
  pub taken : Option RawMessage

abbrev pub new_channel : Channel
new_channel = record {
  queue = replicate queue_capacity blank_message;
  write_index = 0;
  read_index = 0;
  wire_received = 0;
  queue_full = 0;
  oversized = 0;
  high_water = 0;
  arrived = none;
  taken = none;
}

-- What a step tells the outside.
pub data Output : Type 0 where
  quiet : Output
  dropped : Output
  queued : RawMessage → Output
  handled : RawMessage → Output

-- The read handler up to the load of `read_index`, with the message that it has read.
unfoldable pub arrive : RawMessage → Channel → Channel × Output
arrive m c = elim c.arrived [
  | some busy ↦ (c, quiet)
  | none ↦ (
    record c {
      wire_received = inc64 c.wire_received;
      arrived = some (record m { sequence = inc64 c.wire_received }, c.read_index);
    },
    quiet,
  )
]

-- The rest of the read handler, with the index loaded before.
unfoldable pub publish : Channel → Channel × Output
publish c = elim c.arrived [
  | none ↦ (c, quiet)
  | some (m, read) ↦
      let depth = sub64 (c.write_index + 1) read in
      if ltb max_message_bytes (length m.payload)
      then (record c { oversized = inc64 c.oversized; arrived = none }, dropped)
      else if sub64 c.write_index read == queue_capacity
      then (record c { queue_full = inc64 c.queue_full; arrived = none }, dropped)
      else (
        record c {
          queue = set c.queue (c.write_index % queue_capacity) m;
          write_index = inc64 c.write_index;
          high_water = if ltb c.high_water depth then depth else c.high_water;
          arrived = none;
        },
        queued m,
      )
]

-- A round of the loop of `process` up to the choice of the slot.
unfoldable pub take : Channel → Channel × Output
take c = elim c.taken [
  | some busy ↦ (c, quiet)
  | none ↦
      if c.read_index == c.write_index
      then (c, quiet)
      else (record c { taken = get_elem? c.queue (c.read_index % queue_capacity) }, quiet)
]

-- The rest of the round: what it has handled is what the slot holds by then.
unfoldable pub release : Channel → Channel × Output
release c = elim c.taken [
  | none ↦ (c, quiet)
  | some m ↦ (
    record c { read_index = inc64 c.read_index; taken = none },
    elim (get_elem? c.queue (c.read_index % queue_capacity)) [
      | none ↦ quiet
      | some now ↦ handled now
    ],
  )
]

pub data Step : Type 0 where
  arriving : RawMessage → Step
  publishing : Step
  taking : Step
  releasing : Step

unfoldable pub step : Step → Channel → Channel × Output
unfolding arrive publish take release
step (arriving m) c = arrive m c
step publishing c = publish c
step taking c = take c
step releasing c = release c

-- The steps of a run in their order, and what they told, in the same order.
unfoldable pub run : List Step → Channel → Channel × List Output
run [] c = (c, [])
run (s ∷ ss) c = let (d, o) = step s c in let (e, os) = run ss d in (e, o ∷ os)
