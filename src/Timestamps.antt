-- ===== src/Timestamps.antt =====
-- `TimestampStream` (include/triangular/timestamp_stream.hpp): the kernel's timestamps of the reads
-- below TLS, and the window of them that belongs to a message. The system calls are parameters: each
-- operation takes what they answer.
pub mod History
pub mod Windows
mod Tests
use single_exchange_triangul.Common.{
  ℕ, ◌+◌, Bool, true, false, not, ◌&&◌, ◌||◌, ltb, ◌==◌, Option, none, some, List, [], ◌∷◌, ◌++◌,
  length, if◌then◌else◌, inc64, ◌%◌, ◌^◌,
}
use single_exchange_triangul.Receiver.{sub64}

pub record KernelRxBatch : Type 0 where
  pub serial : ℕ
  pub begin : ℕ
  pub end : ℕ
  pub timestamp : ℕ

-- `batches` are the first `count` of the array of 64.
pub record KernelRxWindow : Type 0 where
  pub batches : List KernelRxBatch
  pub no_new_read : Bool
  pub history_truncated : Bool
  pub missing : ℕ
  pub control_truncated : ℕ

pub record TimestampStream : Type 0 where
  pub rx_enabled : Bool
  pub tx_enabled : Bool
  pub timestamp_error : ℕ
  pub rx_reads : ℕ
  pub rx_bytes : ℕ
  pub tx_bytes : ℕ
  pub rx : List KernelRxBatch
  pub rx_missing : ℕ
  pub control_truncated : ℕ

abbrev pub new_stream : TimestampStream
new_stream = record {
  rx_enabled = false;
  tx_enabled = false;
  timestamp_error = 0;
  rx_reads = 0;
  rx_bytes = 0;
  tx_bytes = 0;
  rx = [];
  rx_missing = 0;
  control_truncated = 0;
}

-- What an operation reports: `again` stands for EAGAIN, EWOULDBLOCK and EINTR.
pub data Error : Type 0 where
  success again eof timed_out : Error
  errno : ℕ → Error

-- A control message: a timestamp in nanoseconds, or one that the code passes over.
pub data Control : Type 0 where
  stamping : ℕ → Control
  other_control : Control

-- The answer of `recvmsg`.
pub data Answer : Type 0 where
  refused : Error → Answer
  closed : Answer
  got : ℕ → Bool → List Control → Answer

-- The last timestamp of the control messages.
unfoldable pub stamp_of : ℕ → List Control → ℕ
stamp_of stamp [] = stamp
stamp_of stamp (stamping ns ∷ cs) = stamp_of ns cs
stamp_of stamp (other_control ∷ cs) = stamp_of stamp cs

-- `erase(begin())` on a history that is full.
unfoldable pub without_first : List KernelRxBatch → List KernelRxBatch
without_first [] = []
without_first (b ∷ bs) = bs

-- `receive`, for buffers of which `count` are not empty: the bytes and the error of the answer.
unfoldable pub receive : ℕ → Answer → TimestampStream → TimestampStream × (ℕ × Error)
unfolding stamp_of without_first
receive count (refused e) s = if count == 0 then (s, (0, success)) else (s, (0, e))
receive count closed s = if count == 0 then (s, (0, success)) else (s, (0, eof))
receive count (got bytes truncated controls) s =
    let stamp = stamp_of 0 controls in
    let past = if length s.rx == 64 then without_first s.rx else s.rx in
    let batch : KernelRxBatch = record {
      serial = inc64 s.rx_reads;
      begin = s.rx_bytes;
      end = (s.rx_bytes + bytes) % 2 ^ 64;
      timestamp = stamp;
    } in
    let noted : TimestampStream = record s {
      control_truncated = if truncated then inc64 s.control_truncated else s.control_truncated;
    } in
    let kept : TimestampStream = record noted {
      rx_missing = if stamp == 0 then inc64 s.rx_missing else s.rx_missing;
      rx_reads = inc64 s.rx_reads;
      rx = past ++ (batch ∷ []);
    } in
    let t : TimestampStream = if s.rx_enabled then kept else noted in
    if count == 0
    then (s, (0, success))
    else (record t { rx_bytes = (s.rx_bytes + bytes) % 2 ^ 64 }, (bytes, success))

-- `enable`, with the error of `setsockopt` if it fails.
unfoldable pub enable : Bool → Bool → Option ℕ → TimestampStream → TimestampStream
enable rx tx answer s = if not rx && not tx then s else elim answer [
  | some code ↦ record s { timestamp_error = code }
  | none ↦ record s { rx_enabled = rx; tx_enabled = tx }
]

-- What a write adds to `tx_bytes`.
unfoldable pub write_some : ℕ → TimestampStream → TimestampStream
write_some bytes s = record s { tx_bytes = (s.tx_bytes + bytes) % 2 ^ 64 }

unfoldable pub later_than : ℕ → List KernelRxBatch → List KernelRxBatch
later_than before [] = []
later_than before (b ∷ bs) =
    if ltb before b.serial then b ∷ later_than before bs else later_than before bs

unfoldable pub rx_window : ℕ → TimestampStream → KernelRxWindow
unfolding later_than
rx_window before s = record {
  batches = later_than before s.rx;
  no_new_read = s.rx_reads == before;
  history_truncated = ltb 64 (sub64 s.rx_reads before);
  missing = s.rx_missing;
  control_truncated = s.control_truncated;
}

-- The answers of `poll` in the inner loop of `read_some`.
pub data Poll : Type 0 where
  ready expired interrupted : Poll
  broken : ℕ → Poll

-- The inner loop: `none` while the answers do not suffice; the error, or success to read again.
unfoldable pub wait_ready : List Poll → Option Error
wait_ready [] = none
wait_ready (interrupted ∷ ps) = wait_ready ps
wait_ready (ready ∷ ps) = some success
wait_ready (expired ∷ ps) = some timed_out
wait_ready (broken code ∷ ps) = some (errno code)

-- `read_some` of an enabled stream, along the answers of `recvmsg`, each with the answers of `poll`
-- behind it; the outer `none` is a read that still waits.
unfoldable pub read_some :
    ℕ → List (Answer × List Poll) → TimestampStream → Option (TimestampStream × (ℕ × Error))
unfolding receive wait_ready
read_some count [] s = none
read_some count ((a, ps) ∷ more) s =
    let (t, (bytes, e)) = receive count a s in
    let later = read_some count more t in
    elim e [
      | again ↦ elim (wait_ready ps) [
        | none ↦ none
        | some success ↦ later
        | some failure ↦ some (t, (0, failure))
      ]
      | other ↦ some (t, (bytes, other))
    ]

-- The operations of a stream; a read of the layer above is one or more of `receiving`.
pub data Step : Type 0 where
  enabling : Bool → Bool → Option ℕ → Step
  receiving : ℕ → Answer → Step
  writing : ℕ → Step

unfoldable pub step : Step → TimestampStream → TimestampStream
unfolding enable receive write_some
step (enabling rx tx answer) s = enable rx tx answer s
step (receiving count a) s = (receive count a s).0
step (writing bytes) s = write_some bytes s

unfoldable pub run : List Step → TimestampStream → TimestampStream
unfolding step
run [] s = s
run (x ∷ xs) s = run xs (step x s)
