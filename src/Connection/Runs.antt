-- ===== src/Connection/Runs.antt =====
-- Any run of the handlers of the network thread (src/receiver.cpp).
use mathlib.Core.Path.{subst}
use single_exchange_triangul.Common.{
  ℕ, ◌-◌, ◌≡◌, refl, inl, inr, Bool, true, false, ◌||◌, ◌==◌, none, some, List, [], ◌∷◌, arith,
  get_elem?, set, Option-cases, Bool-cases, if◌then◌else◌,
}
use single_exchange_triangul.Connection.{
  Operation, resolving, connecting, tls_handshaking, handshaking, reading, Session, connected,
  received, Network, cancel, fail, connect, advance, succeed, stage_of, completion, retry_fired,
  start_receiver, stop_receiver, Event, starting, completed, timed_out, control_failed, retried,
  stopping, step, run,
}
use single_exchange_triangul.Connection.Live.{live, live-set, live_pos}
use single_exchange_triangul.Connection.Steady.{
  Linked, Steady, fail-Steady, connect-Steady, moved, moved-Steady,
}

succeed-Steady :
    (k : ℕ) (phase : Operation) (x : Session) (s : Network)
    → get_elem? s.sessions k ≡ some x
    → x.ended ≡ false
    → Steady s
    → Steady (succeed k phase s)
unfolding succeed advance
succeed-Steady k resolving x s there alive g =
    let out : moved k x connecting s.log s ≡ succeed k resolving s = ground arith in
    subst Steady out (moved-Steady k x connecting s.log s there g.linked.ladder g.linked.next g)
succeed-Steady k connecting x s there alive g =
    let out : moved k x tls_handshaking s.log s ≡ succeed k connecting s = ground arith in
    subst Steady out
      (moved-Steady k x tls_handshaking s.log s there g.linked.ladder g.linked.next g)
succeed-Steady k tls_handshaking x s there alive g =
    let out : moved k x handshaking s.log s ≡ succeed k tls_handshaking s = ground arith in
    subst Steady out (moved-Steady k x handshaking s.log s there g.linked.ladder g.linked.next g)
succeed-Steady k handshaking x s there alive g =
    let out : moved k x reading (connected ∷ s.log) s ≡ succeed k handshaking s = ground arith in
    subst Steady out
      (moved-Steady k x reading (connected ∷ s.log) s there g.linked.ladder g.linked.next g)
succeed-Steady k reading x s there alive g =
    let busy = live_pos s.sessions k {x = x} there alive in
    let going : s.stopped ≡ false = ground arith in
    let t : Network = record s { retry_seconds = 1; log = received ∷ s.log } in
    let out : t ≡ succeed k reading s = ground arith in
    subst Steady out (record {
      linked = record {
        current = g.linked.current;
        idle = g.linked.idle;
        ladder = g.linked.ladder;
        next = refl;
        range = omega arith;
      };
      unstarted = g.unstarted;
      halted = g.halted;
      one = g.one;
    })

completion-Steady : (k : ℕ) (ok : Bool) (s : Network) → Steady s → Steady (completion k ok s)
unfolding completion
completion-Steady k ok s g = elim (Option-cases (get_elem? s.sessions k)) [
  | inl missing ↦ let out : s ≡ completion k ok s = ground arith in subst Steady out g
  | inr (x, there) ↦ elim (Bool-cases x.ended) [
    | inl over ↦ let out : s ≡ completion k ok s = ground arith in subst Steady out g
    | inr alive ↦ elim (Bool-cases ok) [
      | inl well ↦
          let out : succeed k x.phase s ≡ completion k ok s = ground arith in
          subst Steady out (succeed-Steady k x.phase x s there alive g)
      | inr failed ↦
          let out : fail k (stage_of x.phase) s ≡ completion k ok s = ground arith in
          subst Steady out (fail-Steady k (stage_of x.phase) s g)
    ]
  ]
]

retry_fired-Steady : (named : Bool) (s : Network) → Steady s → Steady (retry_fired named s)
unfolding retry_fired
retry_fired-Steady named s g =
    let t : Network = record s { waits = s.waits - 1 } in
    let linked : Linked t = record {
      current = g.linked.current;
      idle = g.linked.idle;
      ladder = g.linked.ladder;
      next = g.linked.next;
      range = g.linked.range;
    } in
    elim (Bool-cases (s.waits == 0)) [
      | inl none_waits ↦ let out : s ≡ retry_fired named s = ground arith in subst Steady out g
      | inr some_waits ↦ elim (Bool-cases s.stopped) [
        | inl over ↦
            let out : t ≡ retry_fired named s = ground arith in
            subst Steady out (record {
              linked = linked;
              unstarted = λ e. ground arith;
              halted = g.halted;
              one = λ a b. absurd (ground arith);
            })
        | inr going ↦
            let begun : s.started ≡ true = ground arith in
            let single = g.one begun going in
            let out : connect named t ≡ retry_fired named s = ground arith in
            subst Steady out
              (connect-Steady named t linked begun going (ground arith) (ground arith))
      ]
    ]

start_receiver-Steady : (named : Bool) (s : Network) → Steady s → Steady (start_receiver named s)
unfolding start_receiver
start_receiver-Steady named s g = elim (Bool-cases (s.started || s.processing_stopped)) [
  | inl refused ↦ let out : s ≡ start_receiver named s = ground arith in subst Steady out g
  | inr first ↦
      let t : Network = record s { started = true } in
      let out : connect named t ≡ start_receiver named s = ground arith in
      subst Steady out (
        connect-Steady named t
          (record {
            current = g.linked.current;
            idle = g.linked.idle;
            ladder = g.linked.ladder;
            next = g.linked.next;
            range = g.linked.range;
          })
          refl (ground arith) (ground arith) (ground arith))
]

-- The network after the handler that `stop` posts.
abbrev at_rest : List Session → Network → Network
at_rest sessions s = record s {
  sessions = sessions;
  stopped = true;
  session = none;
  processing_stopped = true;
}

at_rest-Steady :
    (sessions : List Session) (s : Network)
    → live sessions ≡ 0
    → s.started ≡ true
    → Steady s
    → Steady (at_rest sessions s)
at_rest-Steady sessions s quiet begun g = record {
  linked = record {
    current = λ k e. cc;
    idle = λ e. quiet;
    ladder = g.linked.ladder;
    next = g.linked.next;
    range = g.linked.range;
  };
  unstarted = λ e. absurd (ground arith);
  halted = λ e. (quiet, refl, refl);
  one = λ a b. absurd (ground arith);
}

stop_receiver-Steady : (s : Network) → Steady s → Steady (stop_receiver s)
unfolding stop_receiver cancel
stop_receiver-Steady s g = elim (Bool-cases s.processing_stopped) [
  | inl over ↦ let out : s ≡ stop_receiver s = ground arith in subst Steady out g
  | inr open_still ↦ elim (Bool-cases s.started) [
    | inr unstarted ↦
        let t : Network = record s { processing_stopped = true } in
        let out : t ≡ stop_receiver s = ground arith in
        subst Steady out (record {
          linked = record {
            current = g.linked.current;
            idle = g.linked.idle;
            ladder = g.linked.ladder;
            next = g.linked.next;
            range = g.linked.range;
          };
          unstarted = g.unstarted;
          halted = λ e. ground arith;
          one = g.one;
        })
    | inl begun ↦ elim (Option-cases s.session) [
      | inl no_session ↦
          let out : at_rest s.sessions s ≡ stop_receiver s = ground arith in
          subst Steady out (at_rest-Steady s.sessions s (g.linked.idle no_session) begun g)
      | inr (k, there) ↦
          let (x, at, alive) = g.linked.current k there in
          let going : s.stopped ≡ false = ground arith in
          let single = g.one begun going in
          let after : List Session = set s.sessions k (record x { ended = true }) in
          let busy = live_pos s.sessions k {x = x} at alive in
          let quiet : live after ≡ 0 =
            ground (arith, live-set s.sessions k (record x { ended = true }) {x = x} at) in
          let out : at_rest after s ≡ stop_receiver s = ground arith in
          subst Steady out (at_rest-Steady after s quiet begun g)
    ]
  ]
]

step-Steady : (e : Event) (s : Network) → Steady s → Steady (step e s)
unfolding step
step-Steady (starting named) s g = start_receiver-Steady named s g
step-Steady (completed k ok) s g = completion-Steady k ok s g
step-Steady (timed_out k) s g = fail-Steady k "connect_timeout" s g
step-Steady (control_failed k shutdown) s g =
    fail-Steady k (if shutdown then "serverShutdown" else "stream_control_error") s g
step-Steady (retried named) s g = retry_fired-Steady named s g
step-Steady stopping s g = stop_receiver-Steady s g

pub run-Steady : (es : List Event) (s : Network) → Steady s → Steady (run es s)
unfolding run
run-Steady [] s g = g
run-Steady (e ∷ es) s g = run-Steady es (step e s) (step-Steady e s g)
