-- ===== src/Connection/Steady.antt =====
-- One session or one wait at a time, and the delays between them (src/receiver.cpp).
use mathlib.Core.Path.{subst}
use mathlib.Core.Option.{some-injective}
use single_exchange_triangul.Common.{
  ℕ, zero, suc, ◌+◌, ◌≤◌, ◌≡◌, ◌≢◌, refl, sym, ap, ◌∙◌, inl, inr, String, Bool, true, false, ◌==◌,
  none, some, List, [], ◌∷◌, ◌++◌, arith, length, get_elem?, set, get_elem?-last,
  get_elem?-set_self, get_elem?-set_ne, get_elem?-bound, Option-cases, Bool-cases,
}
use single_exchange_triangul.Connection.{
  Operation, resolving, Session, Note, opened, received, connection_lost, Network, new_network,
  backed_off, disconnected, cancel, fail, connect,
}
use single_exchange_triangul.Connection.Live.{live, live-set, live-append, live_pos}

-- The failures since the last message, or since the start.
abbrev pub failures : List Note → ℕ
failures [] = 0
failures (connection_lost stage d ∷ ns) = suc (failures ns)
failures (received ∷ ns) = 0
failures (_ ∷ ns) = failures ns

-- The seconds to wait after `n` failures in a row: 1, 2, 4, 8, 16, and then 30.
abbrev pub delay_after : ℕ → ℕ
delay_after zero = 1
delay_after (suc zero) = 2
delay_after (suc (suc zero)) = 4
delay_after (suc (suc (suc zero))) = 8
delay_after (suc (suc (suc (suc zero)))) = 16
delay_after (suc (suc (suc (suc (suc n))))) = 30

-- The delay that the next failure has to announce.
abbrev pub due : List Note → ℕ
due ns = delay_after (failures ns)

backed_off-delay_after : (n : ℕ) → backed_off (delay_after n) ≡ delay_after (suc n)
backed_off-delay_after zero = refl
backed_off-delay_after (suc zero) = refl
backed_off-delay_after (suc (suc zero)) = refl
backed_off-delay_after (suc (suc (suc zero))) = refl
backed_off-delay_after (suc (suc (suc (suc zero)))) = refl
backed_off-delay_after (suc (suc (suc (suc (suc n))))) = refl

-- Every failure announced the delay that was due.
abbrev pub Ladder : List Note → Type 0
Ladder [] = Unit
Ladder (connection_lost stage d ∷ ns) = (d ≡ due ns) × Ladder ns
Ladder (_ ∷ ns) = Ladder ns

-- The members that `session` and the delays rest on.
pub record Linked (s : Network) : Type 0 where
  pub current :
      (k : ℕ)
      → s.session ≡ some k
      → (x : Session) × (get_elem? s.sessions k ≡ some x) × (x.ended ≡ false)
  pub idle : s.session ≡ none → live s.sessions ≡ 0
  pub ladder : Ladder s.log
  pub next : s.retry_seconds ≡ due s.log
  pub range : (1 ≤ s.retry_seconds) × (s.retry_seconds ≤ 30)

pub record Steady (s : Network) : Type 0 where
  pub linked : Linked s
  pub unstarted : s.started ≡ false → (live s.sessions ≡ 0) × (s.waits ≡ 0) × (s.stopped ≡ false)
  pub halted :
      s.stopped ≡ true → (live s.sessions ≡ 0) × (s.session ≡ none) × (s.processing_stopped ≡ true)
  pub one : s.started ≡ true → s.stopped ≡ false → live s.sessions + s.waits ≡ 1

pub new_network-Steady : Steady new_network
new_network-Steady = record {
  linked = record {
    current = λ k e. cc;
    idle = λ e. refl;
    ladder = _;
    next = refl;
    range = omega arith;
  };
  unstarted = λ e. (refl, refl, refl);
  halted = λ e. cc;
  one = λ e. cc;
}

-- A live session that is canceled, behind one more failure.
abbrev lost : ℕ → String → Session → Network → Network
lost k stage x s = record s {
  sessions = set s.sessions k (record x { ended = true });
  session = none;
  waits = s.waits + 1;
  retry_seconds = backed_off s.retry_seconds;
  log = connection_lost stage s.retry_seconds ∷ s.log;
}

-- `fail` of the only live session.
pub fail-Steady : (k : ℕ) (stage : String) (s : Network) → Steady s → Steady (fail k stage s)
unfolding fail disconnected cancel
fail-Steady k stage s g = elim (Option-cases (get_elem? s.sessions k)) [
  | inl missing ↦ let out : s ≡ fail k stage s = ground arith in subst Steady out g
  | inr (x, there) ↦ elim (Bool-cases x.ended) [
    | inl over ↦ let out : s ≡ fail k stage s = ground arith in subst Steady out g
    | inr alive ↦
        let busy = live_pos s.sessions k {x = x} there alive in
        let going : s.stopped ≡ false = ground arith in
        let begun : s.started ≡ true = ground arith in
        let single = g.one begun going in
        let out : lost k stage x s ≡ fail k stage s = ground arith in
        let gone : live (set s.sessions k (record x { ended = true })) ≡ 0 =
          ground (arith, live-set s.sessions k (record x { ended = true }) {x = x} there) in
        subst Steady out (record {
          linked = record {
            current = λ i e. cc;
            idle = λ e. gone;
            ladder = (g.linked.next, g.linked.ladder);
            next = ap backed_off g.linked.next ∙ backed_off-delay_after (failures s.log);
            range = ground arith;
          };
          unstarted = λ e. absurd (ground arith);
          halted = λ e. absurd (ground arith);
          one = λ a b. omega (arith, gone);
        })
  ]
]

-- The state of a session that is just made.
abbrev pub made : Network → Network
made s = record s {
  sessions = s.sessions ++ (record { phase = resolving; ended = false } ∷ []);
  session = some (length s.sessions);
  log = opened ∷ s.log;
}

pub connect-Steady :
    (named : Bool) (s : Network)
    → Linked s
    → s.started ≡ true
    → s.stopped ≡ false
    → live s.sessions ≡ 0
    → s.waits ≡ 0
    → Steady (connect named s)
unfolding connect
connect-Steady named s linked begun going quiet waits =
    let young : Session = record { phase = resolving; ended = false } in
    let ready : Steady (made s) = record {
      linked = record {
        current = λ k e. (
          young,
          subst (λ n. get_elem? (s.sessions ++ (young ∷ [])) n ≡ some young) (some-injective _ _ e)
              (get_elem?-last s.sessions young),
          refl,
        );
        idle = λ e. cc;
        ladder = linked.ladder;
        next = linked.next;
        range = linked.range;
      };
      unstarted = λ e. absurd (ground arith);
      halted = λ e. absurd (ground arith);
      one = λ a b. omega (arith, live-append s.sessions young);
    } in
    elim (Bool-cases named) [
      | inl yes_named ↦ let out : made s ≡ connect named s = ground arith in subst Steady out ready
      | inr unnamed ↦
          let n = length s.sessions in
          let out : fail n "tls_sni" (made s) ≡ connect named s = ground arith in
          subst Steady out (fail-Steady n "tls_sni" (made s) ready)
    ]

-- The only live session in another phase, and what is noted, which brings no delay.
abbrev pub moved : ℕ → Session → Operation → List Note → Network → Network
moved k x phase log s = record s {
  sessions = set s.sessions k (record x { phase = phase });
  log = log;
}

pub moved-Steady :
    (k : ℕ) (x : Session) (phase : Operation) (log : List Note) (s : Network)
    → get_elem? s.sessions k ≡ some x
    → Ladder log
    → s.retry_seconds ≡ due log
    → Steady s
    → Steady (moved k x phase log s)
moved-Steady k x phase log s there ladder next g =
    let y : Session = record x { phase = phase } in
    let same : live (set s.sessions k y) ≡ live s.sessions =
      omega (arith, live-set s.sessions k y {x = x} there) in
    record {
      linked = record {
        current = λ i e. elim (Bool-cases (k == i)) [
          | inl here ↦
              let (z, at, alive) = g.linked.current i e in
              let i_k : k ≡ i = ground arith in
              let z_x : x ≡ z =
                some-injective _ _ (sym there ∙ ap (get_elem? s.sessions) i_k ∙ at) in
              (
                y,
                ap (get_elem? (set s.sessions k y)) (sym i_k)
                    ∙ get_elem?-set_self s.sessions k y (get_elem?-bound s.sessions k there),
                ground arith,
              )
          | inr other ↦
              let (z, at, alive) = g.linked.current i e in
              let apart : k ≢ i = ground arith in
              (z, get_elem?-set_ne s.sessions {i = k} {j = i} y apart ∙ at, alive)
        ];
        idle = λ e. same ∙ g.linked.idle e;
        ladder = ladder;
        next = next;
        range = g.linked.range;
      };
      unstarted = λ e. let (a, b, d) = g.unstarted e in (same ∙ a, b, d);
      halted = λ e. let (a, b, d) = g.halted e in (same ∙ a, b, d);
      one = λ a b. omega (arith, same, g.one a b);
    }
