-- ===== src/Connection.antt =====
-- The sessions of `Receiver` with the exchange (src/receiver.cpp): how they are opened, fail, are tried
-- again and are stopped. Every handler of the network thread is one step. A member of the network
-- thread keeps `Impl` alive, so `owner.lock()` succeeds; the sockets themselves are not modelled.
pub mod Live
pub mod Steady
pub mod Runs
pub mod Stopped
mod Tests
use single_exchange_triangul.Common.{
  ℕ, ◌+◌, ◌*◌, ◌-◌, String, Bool, true, false, not, ◌&&◌, ◌||◌, ltb, ◌==◌, Option, none, some, List,
  [], ◌∷◌, ◌++◌, length, get_elem?, set, if◌then◌else◌,
}

-- The asynchronous operation that a session waits for.
pub data Operation : Type 0 where
  resolving connecting tls_handshaking handshaking reading : Operation

pub record Session : Type 0 where
  pub phase : Operation
  pub ended : Bool

-- What the outside sees of the network thread: a session that is made, one whose streams are open, a
-- message that is read, and a warning "connection_lost" with its stage and the seconds until the retry.
pub data Note : Type 0 where
  opened : Note
  connected : Note
  received : Note
  connection_lost : String → ℕ → Note

-- `sessions` are all that were made, by their number. `waits` counts the waits for `retry` whose handler
-- has not run; one that is canceled may have its handler queued without an error already. The log has
-- the last note first.
pub record Network : Type 0 where
  pub started : Bool
  pub stopped : Bool
  pub processing_stopped : Bool
  pub sessions : List Session
  pub session : Option ℕ
  pub waits : ℕ
  pub retry_seconds : ℕ
  pub log : List Note

abbrev pub new_network : Network
new_network = record {
  started = false;
  stopped = false;
  processing_stopped = false;
  sessions = [];
  session = none;
  waits = 0;
  retry_seconds = 1;
  log = [];
}

-- `std::min(30U, retry_seconds * 2)`.
abbrev pub backed_off : ℕ → ℕ
backed_off n = if ltb (n * 2) 30 then n * 2 else 30

unfoldable pub disconnected : String → Network → Network
disconnected stage s = if s.stopped then s else record s {
  session = none;
  waits = s.waits + 1;
  retry_seconds = backed_off s.retry_seconds;
  log = connection_lost stage s.retry_seconds ∷ s.log;
}

-- `Session::cancel` of a session.
unfoldable pub cancel : ℕ → Network → Network
cancel k s = elim (get_elem? s.sessions k) [
  | none ↦ s
  | some x ↦ record s { sessions = set s.sessions k (record x { ended = true }) }
]

-- `Session::fail`.
unfoldable pub fail : ℕ → String → Network → Network
unfolding disconnected cancel
fail k stage s = elim (get_elem? s.sessions k) [
  | none ↦ s
  | some x ↦ if x.ended then s else disconnected stage (cancel k s)
]

-- `connect`, with the answer of `SSL_set_tlsext_host_name` in `Session::start`.
unfoldable pub connect : Bool → Network → Network
unfolding fail
connect named s =
    let n = length s.sessions in
    let made : Network = record s {
      sessions = s.sessions ++ (record { phase = resolving; ended = false } ∷ []);
      session = some n;
      log = opened ∷ s.log;
    } in
    if s.stopped then s else if named then made else fail n "tls_sni" made

-- A session goes on to its next operation.
unfoldable pub advance : ℕ → Operation → Network → Network
advance k phase s = elim (get_elem? s.sessions k) [
  | none ↦ s
  | some x ↦ record s { sessions = set s.sessions k (record x { phase = phase }) }
]

-- What the operation of a phase does when it succeeds. `read` throws nothing away here: the queue is
-- the module Receiver.
unfoldable pub succeed : ℕ → Operation → Network → Network
unfolding advance cancel
succeed k resolving s = advance k connecting s
succeed k connecting s = advance k tls_handshaking s
succeed k tls_handshaking s = advance k handshaking s
succeed k handshaking s = let t = advance k reading s in record t { log = connected ∷ s.log }
succeed k reading s =
    if s.stopped then cancel k s else record s { retry_seconds = 1; log = received ∷ s.log }

abbrev pub stage_of : Operation → String
stage_of resolving = "dns"
stage_of connecting = "tcp"
stage_of tls_handshaking = "tls"
stage_of handshaking = "websocket"
stage_of reading = "read"

-- The handler of the operation that a session waits for.
unfoldable pub completion : ℕ → Bool → Network → Network
unfolding succeed fail
completion k ok s = elim (get_elem? s.sessions k) [
  | none ↦ s
  | some x ↦ if x.ended then s else if ok then succeed k x.phase s else fail k (stage_of x.phase) s
]

-- The handler of a wait for `retry`.
unfoldable pub retry_fired : Bool → Network → Network
unfolding connect
retry_fired named s =
    let t : Network = record s { waits = s.waits - 1 } in
    if s.waits == 0 then s else if s.stopped then t else connect named t

-- `Receiver::start`.
unfoldable pub start_receiver : Bool → Network → Network
unfolding connect
start_receiver named s =
    if s.started || s.processing_stopped then s else connect named (record s { started = true })

-- `Receiver::stop`, where the network thread has begun with the handler that it posts.
unfoldable pub stop_receiver : Network → Network
unfolding cancel
stop_receiver s =
    let t : Network = elim s.session [ some k ↦ cancel k s | none ↦ s ] in
    if s.processing_stopped
    then s
    else if s.started
    then record t { stopped = true; session = none; processing_stopped = true }
    else record s { processing_stopped = true }

-- The handlers: `timed_out` is that of `deadline`, `control_failed` the call of `fail` that `process`
-- posts; both may come to a session at any time.
pub data Event : Type 0 where
  starting : Bool → Event
  completed : ℕ → Bool → Event
  timed_out : ℕ → Event
  control_failed : ℕ → Bool → Event
  retried : Bool → Event
  stopping : Event

unfoldable pub step : Event → Network → Network
unfolding start_receiver completion fail retry_fired stop_receiver
step (starting named) s = start_receiver named s
step (completed k ok) s = completion k ok s
step (timed_out k) s = fail k "connect_timeout" s
step (control_failed k shutdown) s =
    fail k (if shutdown then "serverShutdown" else "stream_control_error") s
step (retried named) s = retry_fired named s
step stopping s = stop_receiver s

unfoldable pub run : List Event → Network → Network
unfolding step
run [] s = s
run (e ∷ es) s = run es (step e s)
