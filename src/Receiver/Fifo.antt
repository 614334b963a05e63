-- ===== src/Receiver/Fifo.antt =====
-- The queue of the receiver is a bounded first-in first-out queue (src/receiver.cpp).
use single_exchange_triangul.Common.{append_nil, append_assoc}
use mathlib.Core.Path.{subst}
use mathlib.Core.Option.{some-injective}
use single_exchange_triangul.Common.{
  ℕ, suc, ◌+◌, ◌%◌, ◌<◌, ◌≡◌, refl, sym, ap, ◌∙◌, ◌≢◌, inl, inr, Option, none, some, List, [], ◌∷◌,
  ◌++◌, arith, get_elem?, set, length, Option-cases, Bool-cases, ◌==◌, ltb, inc64, if◌then◌else◌,
}
use single_exchange_triangul.Receiver.{
  RawMessage, Channel, new_channel, sub64, Output, quiet, dropped, queued, handled, Step, arriving,
  publishing, taking, releasing, arrive, publish, take, release, step, run,
}
use single_exchange_triangul.Receiver.Queue.{
  Holds, Good, Holds-same, Holds-push, Holds-pop, new_channel-Good,
}

abbrev pub all_queued : List Output → List RawMessage
all_queued [] = []
all_queued (queued m ∷ os) = m ∷ all_queued os
all_queued (_ ∷ os) = all_queued os

abbrev pub all_handled : List Output → List RawMessage
all_handled [] = []
all_handled (handled m ∷ os) = m ∷ all_handled os
all_handled (_ ∷ os) = all_handled os

-- After a step, some contents fit, and the messages that went in and out account for the change.
abbrev After : List RawMessage → Channel × Output → Type 0
After q (c, o) =
    (q' : List RawMessage) × Good c q' × (q ++ all_queued (o ∷ []) ≡ all_handled (o ∷ []) ++ q')

stays : {c : Channel} {q : List RawMessage} → Good c q → After q (c, quiet)
stays {c} {q} g = (q, g, append_nil q)

arrive-After :
    (m : RawMessage) (c : Channel) (q : List RawMessage) → Good c q → After q (arrive m c)
unfolding arrive
arrive-After m c q g = elim (Option-cases c.arrived) [
  | inr (busy, e) ↦
      let out : arrive m c ≡ (c, quiet) = ground arith in subst (After q) (sym out) (stays g)
  | inl free ↦
      let n : RawMessage = record m { sequence = inc64 c.wire_received } in
      let d : Channel = record c {
        wire_received = inc64 c.wire_received;
        arrived = some (n, c.read_index);
      } in
      let out : arrive m c ≡ (d, quiet) = ground arith in
      let h = g.holds in
      subst (After q) (sym out) (
        q,
        record {
          holds = Holds-same d refl refl refl h;
          lags = λ x read e.
              let loaded : read ≡ c.read_index = fresh_index n x c.read_index read e in
              (
                0,
                omega (arith, loaded, h.read_word),
                omega (arith, loaded, h.read_word),
                omega (arith, h.bounded),
              );
          takes = g.takes;
        },
        append_nil q,
      )
]
  where
    fresh_index :
        (n x : RawMessage) (i read : ℕ)
        → ◌≡◌ {A = Option (RawMessage × ℕ)} (some (n, i)) (some (x, read))
        → read ≡ i
    fresh_index n x i read e = ap (λ p. p.1) (sym (some-injective _ _ e))

-- A message that is dropped leaves the queue as it is.
drop-After :
    (c d : Channel) (q : List RawMessage)
    → d.queue ≡ c.queue
    → d.read_index ≡ c.read_index
    → d.write_index ≡ c.write_index
    → d.arrived ≡ none
    → d.taken ≡ c.taken
    → Good c q
    → After q (d, dropped)
drop-After c d q same_queue same_read same_write free same_taken g = (
  q,
  record {
    holds = Holds-same d same_queue same_read same_write g.holds;
    lags = λ x read e. absurd (ground arith);
    takes = λ m e. g.takes m (sym same_taken ∙ e);
  },
  append_nil q,
)

publish-After : (c : Channel) (q : List RawMessage) → Good c q → After q (publish c)
unfolding publish
publish-After c q g = elim (Option-cases c.arrived) [
  | inl free ↦
      let out : publish c ≡ (c, quiet) = ground arith in subst (After q) (sym out) (stays g)
  | inr ((m, read), there) ↦
      let (lag, read_word, behind, room) = g.lags m read there in
      let h = g.holds in
      elim (Bool-cases (ltb 16384 (length m.payload))) [
        | inl big ↦
            let d : Channel = record c { oversized = inc64 c.oversized; arrived = none } in
            let out : publish c ≡ (d, dropped) = ground arith in
            subst (After q) (sym out) (drop-After c d q refl refl refl refl refl g)
        | inr fits ↦ elim (Bool-cases (sub64 c.write_index read == 1024)) [
          | inl full ↦
              let d : Channel = record c { queue_full = inc64 c.queue_full; arrived = none } in
              let out : publish c ≡ (d, dropped) = ground arith in
              subst (After q) (sym out) (drop-After c d q refl refl refl refl refl g)
          | inr space ↦
              let distance : sub64 c.write_index read ≢ 1024 = ground arith in
              let under : length q < 1024 =
                omega (arith, h.written, behind, room, read_word, distance) in
              let depth = sub64 (c.write_index + 1) read in
              let d : Channel = record c {
                queue = set c.queue (c.write_index % 1024) m;
                write_index = inc64 c.write_index;
                high_water = if ltb c.high_water depth then depth else c.high_water;
                arrived = none;
              } in
              let out : publish c ≡ (d, queued m) = ground arith in
              subst (After q) (sym out) (
                q ++ (m ∷ []),
                record {
                  holds = Holds-same d refl refl refl (Holds-push c q m h under);
                  lags = λ x i e. absurd (ground arith);
                  takes = λ n e.
                      let (rest, head) = g.takes n e in
                      (rest ++ (m ∷ []), ap (λ xs. xs ++ (m ∷ [])) head);
                },
                refl,
              )
        ]
      ]
]

take-After : (c : Channel) (q : List RawMessage) → Good c q → After q (take c)
unfolding take
take-After c q g = elim (Option-cases c.taken) [
  | inr (busy, e) ↦
      let out : take c ≡ (c, quiet) = ground arith in subst (After q) (sym out) (stays g)
  | inl free ↦ elim (Bool-cases (c.read_index == c.write_index)) [
    | inl empty ↦
        let out : take c ≡ (c, quiet) = ground arith in subst (After q) (sym out) (stays g)
    | inr more ↦
        let h = g.holds in
        let d : Channel = record c { taken = get_elem? c.queue (c.read_index % 1024) } in
        let out : take c ≡ (d, quiet) = ground arith in
        subst (After q) (sym out) (
          q,
          record {
            holds = Holds-same d refl refl refl h;
            lags = g.lags;
            takes = λ m e. first q h m (ground arith) e;
          },
          append_nil q,
        )
  ]
]
  where
    first :
        (q : List RawMessage)
        → Holds c q
        → (m : RawMessage) → c.read_index ≢ c.write_index
        → get_elem? c.queue (c.read_index % 1024) ≡ some m
        → (rest : List RawMessage) × (q ≡ m ∷ rest)
    first [] h m more e = absurd (more (omega (arith, h.written, h.read_word)))
    first (x ∷ q) h m more e =
        let head : get_elem? c.queue ((c.read_index + 0) % 1024) ≡ some x =
          h.content 0 (omega arith) in
        let place : (c.read_index + 0) % 1024 ≡ c.read_index % 1024 = omega arith in
        let same : ◌≡◌ {A = Option RawMessage} (some x) (some m) =
          sym head ∙ ap (get_elem? c.queue) place ∙ e in
        (q, ap (λ y. y ∷ q) (some-injective _ _ same))

release-After : (c : Channel) (q : List RawMessage) → Good c q → After q (release c)
unfolding release
release-After c q g = elim (Option-cases c.taken) [
  | inl free ↦
      let out : release c ≡ (c, quiet) = ground arith in subst (After q) (sym out) (stays g)
  | inr (m, there) ↦
      let (rest, head) = g.takes m there in
      subst (λ xs. After xs (release c)) (sym head)
        (release_head rest m there (subst (Good c) head g))
]
  where
    release_head :
        (rest : List RawMessage) (m : RawMessage)
        → c.taken ≡ some m
        → Good c (m ∷ rest)
        → After (m ∷ rest) (release c)
    release_head rest m there g' =
        let h = g'.holds in
        let d : Channel = record c { read_index = inc64 c.read_index; taken = none } in
        let place : c.read_index % 1024 ≡ (c.read_index + 0) % 1024 = omega arith in
        let slot : get_elem? c.queue (c.read_index % 1024) ≡ some m =
          ap (get_elem? c.queue) place ∙ h.content 0 (omega arith) in
        let out : release c ≡ (d, handled m) = ground arith in
        subst (After (m ∷ rest)) (sym out) (
          rest,
          record {
            holds = Holds-same d refl refl refl (Holds-pop c m rest h);
            lags = λ x read e.
                let (lag, read_word, behind, room) = g'.lags x read e in
                (suc lag, read_word, omega (arith, behind), omega (arith, room));
            takes = λ x e. absurd (ground arith);
          },
          ap (◌∷◌ m) (append_nil rest),
        )

step-After : (s : Step) (c : Channel) (q : List RawMessage) → Good c q → After q (step s c)
unfolding step
step-After (arriving m) c q g = arrive-After m c q g
step-After publishing c q g = publish-After c q g
step-After taking c q g = take-After c q g
step-After releasing c q g = release-After c q g

all_queued-cons :
    (o : Output) (os : List Output) → all_queued (o ∷ os) ≡ all_queued (o ∷ []) ++ all_queued os
all_queued-cons o os = ground arith

all_handled-cons :
    (o : Output) (os : List Output) → all_handled (o ∷ os) ≡ all_handled (o ∷ []) ++ all_handled os
all_handled-cons o os = ground arith

run-Good :
    (ss : List Step) (c : Channel) (q : List RawMessage)
    → Good c q
    → let (d, os) = run ss c in
      (q' : List RawMessage) × Good d q' × (q ++ all_queued os ≡ all_handled os ++ q')
unfolding run
run-Good [] c q g = (q, g, append_nil q)
run-Good (s ∷ ss) c q g =
    let (d, o) = step s c in
    let (q₁, g₁, e₁) = step-After s c q g in
    let (q₂, g₂, e₂) = run-Good ss d q₁ g₁ in
    let os = (run ss d).1 in
    (
      q₂,
      g₂,
      ap (◌++◌ q) (all_queued-cons o os)
          ∙ sym (append_assoc q (all_queued (o ∷ [])) (all_queued os))
          ∙ ap (λ xs. xs ++ all_queued os) e₁
          ∙ append_assoc (all_handled (o ∷ [])) q₁ (all_queued os)
          ∙ ap (◌++◌ (all_handled (o ∷ []))) e₂
          ∙ sym (append_assoc (all_handled (o ∷ [])) (all_handled os) q₂)
          ∙ ap (λ xs. xs ++ q₂) (sym (all_handled-cons o os)),
    )

-- However the steps of the two threads interleave, the messages that `process` has handled, followed
-- by those that the queue still holds, at most 1024, are the messages that the read handler queued,
-- in their order: none is lost, repeated or overwritten while it is handled.
pub queue_fifo :
    (ss : List Step)
    → let (c, os) = run ss new_channel in
      (q : List RawMessage) × Holds c q × (all_queued os ≡ all_handled os ++ q)
queue_fifo ss = let (q, g, e) = run-Good ss new_channel [] new_channel-Good in (q, g.holds, e)
