-- ===== src/Logger/Order.antt =====
-- The rows that the logger writes along any run (src/logger.cpp).
use single_exchange_triangul.Common.{append_nil, append_assoc}
use mathlib.Core.Path.{subst}
use single_exchange_triangul.Common.{
  ◌+◌, ◌%◌, ◌^◌, ◌≡◌, refl, sym, ap, ◌∙◌, String, true, false, none, some, List, [], ◌∷◌, ◌++◌,
  arith, length, if◌then◌else◌, ◌⊎◌, inl, inr, Bool-cases, leb, ltb, ◌||◌, ◌==◌, ◌&&◌, inc64,
}
use single_exchange_triangul.Logger.{
  Record, LoggerOptions, Logger, Phase, waiting, writing, diagnosing, closing, ended, new_logger,
  log, stop, hand_over, write_returns, write_throws, Step, logged, stop_called, handed_over,
  write_returned, write_threw, step, run, record_of,
}

abbrev pub batch_of : Phase → List Record
batch_of (writing b) = b
batch_of _ = []

-- What the worker's phase says of the other members.
abbrev pub Closed : Phase → Logger → Type 0
Closed closing s = (s.stopping ≡ true) × (s.pending ≡ []) × (s.failed ≡ false)
Closed ended s = (s.failed ≡ true) ⊎ ((s.stopping ≡ true) × (s.pending ≡ []))
Closed _ s = s.failed ≡ false

-- `rs` are the records accepted so far.
pub record Kept (s : Logger) (rs : List Record) : Type 0 where
  pub in_order : s.failed ≡ false → s.rows ++ (batch_of s.phase ++ s.pending) ≡ rs
  pub in_part : s.failed ≡ true → (lost : List Record) × (s.rows ++ lost ≡ rs)
  pub closed : Closed s.phase s

nil_of_length : {A : Type 0} (xs : List A) → length xs ≡ 0 → xs ≡ []
nil_of_length [] h = refl
nil_of_length (x ∷ xs) h = absurd (omega (arith, h))

log-Kept :
    (o : LoggerOptions) (level event : String) (s : Logger) (rs : List Record)
    → Kept s rs
    → let (t, r) = log o level event s in Kept t (rs ++ record_of r)
unfolding log
log-Kept o level event s rs k =
    let r : Record = record {
      sequence = (s.accepted + 1) % 2 ^ 64;
      level = level;
      event = event;
    } in
    elim (Bool-cases (s.stopping || s.failed || leb o.capacity (length s.pending))) [
      | inl refused ↦
          let d = record s { submitted = inc64 s.submitted; dropped = inc64 s.dropped } in
          let out : log o level event s ≡ (d, none) = ground arith in
          let same : Kept d rs = record {
            in_order = k.in_order;
            in_part = k.in_part;
            closed = ground arith;
          } in
          subst (λ x. Kept (x.0) (rs ++ record_of (x.1))) (sym out)
            (subst (Kept d) (sym (append_nil rs)) same)
      | inr taken ↦
          let held = length s.pending + 1 in
          let d = record s {
            submitted = inc64 s.submitted;
            accepted = inc64 s.accepted;
            pending = s.pending ++ (r ∷ []);
            high_water = if ltb s.high_water held then held else s.high_water;
          } in
          let out : log o level event s ≡ (d, some r) = ground arith in
          let sound : s.failed ≡ false = ground arith in
          subst (λ x. Kept (x.0) (rs ++ record_of (x.1))) (sym out)
            (record {
              in_order = λ _.
                  ap (◌++◌ s.rows) (sym (append_assoc (batch_of s.phase) s.pending (r ∷ [])))
                  ∙ sym (append_assoc s.rows (batch_of s.phase ++ s.pending) (r ∷ []))
                  ∙ ap (λ xs. xs ++ (r ∷ [])) (k.in_order sound);
              in_part = λ h. absurd (ground arith);
              closed = ground arith;
            })
    ]

hand_over-Kept : (s : Logger) (rs : List Record) → Kept s rs → Kept (hand_over s) rs
unfolding hand_over
hand_over-Kept s rs k = go s.phase refl
  where
    same : hand_over s ≡ s → Kept (hand_over s) rs
    same e = subst (λ x. Kept x rs) (sym e) k

    go : (p : Phase) → s.phase ≡ p → Kept (hand_over s) rs
    go (writing b) at = same (ground arith)
    go diagnosing at = same (ground arith)
    go closing at = same (ground arith)
    go ended at = same (ground arith)
    go waiting at = elim (Bool-cases (length s.pending == 0 && s.stopping)) [
      | inl done ↦
          let empty = nil_of_length s.pending (ground arith) in
          let d = record s { pending = []; in_flight = length s.pending; phase = closing } in
          let out : hand_over s ≡ d = ground arith in
          subst (λ x. Kept x rs) (sym out)
            (record { in_order = λ h. ground arith; in_part = k.in_part; closed = ground arith })
      | inr more ↦
          let d = record s {
            pending = [];
            in_flight = length s.pending;
            phase = writing s.pending;
          } in
          let out : hand_over s ≡ d = ground arith in
          let whole = append_nil s.pending in
          subst (λ x. Kept x rs) (sym out)
            (record { in_order = λ h. ground arith; in_part = k.in_part; closed = ground arith })
    ]

write_returns-Kept : (s : Logger) (rs : List Record) → Kept s rs → Kept (write_returns s) rs
unfolding write_returns
write_returns-Kept s rs k = go s.phase refl
  where
    go : (p : Phase) → s.phase ≡ p → Kept (write_returns s) rs
    go (writing b) at =
        let joined = append_assoc s.rows b s.pending in
        let none_there = nil_of_length b in ground arith
    go diagnosing at = ground arith
    go closing at = ground arith
    go ended at = ground arith
    go waiting at = ground arith

write_throws-Kept : (s : Logger) (rs : List Record) → Kept s rs → Kept (write_throws s) rs
unfolding write_throws
write_throws-Kept s rs k = go s.phase refl
  where
    same : write_throws s ≡ s → Kept (write_throws s) rs
    same e = subst (λ x. Kept x rs) (sym e) k

    lose :
        s.failed ≡ false
        → (write_throws s).rows ≡ s.rows
        → (write_throws s).failed ≡ true
        → (write_throws s).phase ≡ ended
        → Kept (write_throws s) rs
    lose sound rows broken over = record {
      in_order = λ h. absurd (ground arith);
      in_part = λ h. (
        batch_of s.phase ++ s.pending,
        ap (λ xs. xs ++ (batch_of s.phase ++ s.pending)) rows ∙ k.in_order sound,
      );
      closed = ground arith;
    }

    go : (p : Phase) → s.phase ≡ p → Kept (write_throws s) rs
    go (writing b) at = lose (ground arith) (ground arith) (ground arith) (ground arith)
    go diagnosing at = lose (ground arith) (ground arith) (ground arith) (ground arith)
    go closing at = lose (ground arith) (ground arith) (ground arith) (ground arith)
    go ended at = same (ground arith)
    go waiting at = same (ground arith)

step-Kept :
    (o : LoggerOptions) (x : Step) (s : Logger) (rs : List Record)
    → Kept s rs
    → Kept (step o x s).0 (rs ++ record_of (step o x s).1)
unfolding step
step-Kept o (logged level event) s rs k = log-Kept o level event s rs k
step-Kept o stop_called s rs k = subst (Kept (stop s)) (sym (append_nil rs)) (stopped k)
  where
    stopped : Kept s rs → Kept (stop s) rs
    stopped i = record { in_order = i.in_order; in_part = i.in_part; closed = ground arith }
step-Kept o handed_over s rs k =
    subst (Kept (hand_over s)) (sym (append_nil rs)) (hand_over-Kept s rs k)
step-Kept o write_returned s rs k =
    subst (Kept (write_returns s)) (sym (append_nil rs)) (write_returns-Kept s rs k)
step-Kept o write_threw s rs k =
    subst (Kept (write_throws s)) (sym (append_nil rs)) (write_throws-Kept s rs k)

run-Kept :
    (o : LoggerOptions) (xs : List Step) (s : Logger) (rs : List Record)
    → Kept s rs
    → let (t, more) = run o xs s in Kept t (rs ++ more)
unfolding run
run-Kept o [] s rs k = subst (Kept s) (sym (append_nil rs)) k
run-Kept o (x ∷ xs) s rs k =
    let (t, r) = step o x s in
    subst (Kept (run o xs t).0) (append_assoc rs (record_of r) (run o xs t).1)
      (run-Kept o xs t (rs ++ record_of r) (step-Kept o x s rs k))

-- Along any interleaving of producers and worker the file's records are the accepted ones in their
-- order, up to some point; without a failed write the rest of them is in the worker's batch and in the
-- queue, and once the worker is over the file has them all.
pub rows_in_order :
    (o : LoggerOptions) (xs : List Step)
    → let (s, rs) = run o xs new_logger in
      ((lost : List Record) × (s.rows ++ lost ≡ rs))
      × (s.failed ≡ false → s.rows ++ (batch_of s.phase ++ s.pending) ≡ rs)
      × (s.failed ≡ false → s.phase ≡ ended → s.rows ≡ rs)
rows_in_order o xs =
    let (s, rs) = run o xs new_logger in
    let k =
      run-Kept o xs new_logger []
        (record { in_order = λ h. refl; in_part = λ h. absurd (ground arith); closed = refl }) in
    (
      elim (Bool-cases s.failed) [
        | inl broken ↦ k.in_part broken
        | inr sound ↦ (batch_of s.phase ++ s.pending, k.in_order sound)
      ],
      k.in_order,
      λ sound over.
          let empty : s.pending ≡ [] = ground arith in
          let none_left : batch_of s.phase ++ s.pending ≡ [] = ground arith in
          sym (append_nil s.rows) ∙ sym (ap (◌++◌ s.rows) none_left) ∙ k.in_order sound,
    )
