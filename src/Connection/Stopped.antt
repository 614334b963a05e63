-- ===== src/Connection/Stopped.antt =====
-- The sessions of a run (src/receiver.cpp), and that none is made behind `stop`.
use single_exchange_triangul.Common.{
  ℕ, ◌≡◌, refl, ◌∙◌, inl, inr, String, true, List, [], ◌∷◌, arith, length, get_elem?, length-set,
  Option-cases, if◌then◌else◌,
}
use single_exchange_triangul.Connection.{
  Operation, resolving, connecting, tls_handshaking, handshaking, reading, Network, new_network,
  disconnected, cancel, fail, connect, advance, succeed, stage_of, completion, retry_fired,
  start_receiver, stop_receiver, Event, starting, completed, timed_out, control_failed, retried,
  stopping, step, run,
}
use single_exchange_triangul.Connection.Steady.{Steady, new_network-Steady}
use single_exchange_triangul.Connection.Runs.{run-Steady}

-- Once the network is stopped it makes no session.
abbrev Closed : Network → Network → Type 0
Closed s t = (t.stopped ≡ true) × (length t.sessions ≡ length s.sessions)

cancel-Closed : (k : ℕ) (s : Network) → s.stopped ≡ true → Closed s (cancel k s)
unfolding cancel
cancel-Closed k s over = elim (Option-cases (get_elem? s.sessions k)) [
  | inl missing ↦ ground arith
  | inr (x, there) ↦ ground (arith, length-set s.sessions k (record x { ended = true }))
]

advance-Closed : (k : ℕ) (p : Operation) (s : Network) → s.stopped ≡ true → Closed s (advance k p s)
unfolding advance
advance-Closed k p s over = elim (Option-cases (get_elem? s.sessions k)) [
  | inl missing ↦ ground arith
  | inr (x, there) ↦ ground (arith, length-set s.sessions k (record x { phase = p }))
]

fail-Closed : (k : ℕ) (stage : String) (s : Network) → s.stopped ≡ true → Closed s (fail k stage s)
unfolding fail disconnected
fail-Closed k stage s over = ground (arith, cancel-Closed k s over)

succeed-Closed : (k : ℕ) (p : Operation) (s : Network) → s.stopped ≡ true → Closed s (succeed k p s)
unfolding succeed
succeed-Closed k resolving s over = advance-Closed k connecting s over
succeed-Closed k connecting s over = advance-Closed k tls_handshaking s over
succeed-Closed k tls_handshaking s over = advance-Closed k handshaking s over
succeed-Closed k handshaking s over = advance-Closed k reading s over
succeed-Closed k reading s over = ground (arith, cancel-Closed k s over)

step-Closed : (e : Event) (s : Network) → s.stopped ≡ true → Closed s (step e s)
unfolding step start_receiver completion retry_fired connect stop_receiver
step-Closed (starting named) s over = ground arith
step-Closed (completed k ok) s over = elim (Option-cases (get_elem? s.sessions k)) [
  | inl missing ↦ ground arith
  | inr (x, there) ↦
      ground (arith, succeed-Closed k x.phase s over, fail-Closed k (stage_of x.phase) s over)
]
step-Closed (timed_out k) s over = fail-Closed k "connect_timeout" s over
step-Closed (control_failed k shutdown) s over =
    fail-Closed k (if shutdown then "serverShutdown" else "stream_control_error") s over
step-Closed (retried named) s over = ground arith
step-Closed stopping s over = elim (Option-cases s.session) [
  | inl no_session ↦ ground arith
  | inr (k, there) ↦ ground (arith, cancel-Closed k s over)
]

run-Closed : (es : List Event) (s : Network) → s.stopped ≡ true → Closed s (run es s)
unfolding run
run-Closed [] s over = (over, refl)
run-Closed (e ∷ es) s over =
    let (still, same) = step-Closed e s over in
    let (at_end, size) = run-Closed es (step e s) still in (at_end, size ∙ same)

-- In any run of the handlers of the network thread: between `start` and `stop` there is either one
-- session, which `session` names, or one wait for a retry, never both, so that no session is leaked and
-- the receiver always tries again; the delay before a retry is 1 second at first, doubles with each
-- failure up to 30 seconds, and is 1 again after a message; behind `stop` every session is ended, and
-- whatever handlers still run make no other.
pub sessions-Steady :
    (es fs : List Event)
    → let s = run es new_network in
      Steady s × (s.stopped ≡ true → length (run fs s).sessions ≡ length s.sessions)
sessions-Steady es fs =
    let s = run es new_network in
    (run-Steady es new_network new_network-Steady, λ over. (run-Closed fs s over).1)
