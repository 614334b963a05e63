-- ===== src/Timestamps/History.antt =====
-- The reads that `TimestampStream` keeps (include/triangular/timestamp_stream.hpp).
use mathlib.Core.Path.{subst}
use single_exchange_triangul.Common.{
  ℕ, zero, suc, ◌+◌, ◌-◌, ◌<◌, ◌≤◌, ◌≡◌, refl, sym, ap, ◌∙◌, inl, inr, not, ◌||◌, ltb, ◌==◌, List,
  [], ◌∷◌, ◌++◌, arith, length, length-append, append_nil, append_assoc, drop, drop-append,
  length-drop, drop_nil, inc64, ◌%◌, ◌^◌, if◌then◌else◌, Bool-cases,
}
use single_exchange_triangul.Timestamps.{
  KernelRxBatch, TimestampStream, new_stream, refused, closed, got, stamp_of, without_first,
  receive, enable, write_some, Step, enabling, receiving, writing, step, run,
}

-- What a step adds to the history: the read of an enabled stream, by its number, its first byte, the byte
-- behind it and its timestamp.
abbrev pub added : Step → TimestampStream → List KernelRxBatch
added (receiving count (got bytes truncated controls)) s =
    if count == 0 || not s.rx_enabled
    then []
    else record {
      serial = inc64 s.rx_reads;
      begin = s.rx_bytes;
      end = (s.rx_bytes + bytes) % 2 ^ 64;
      timestamp = stamp_of 0 controls;
    }
      ∷ []
added _ s = []

-- All the reads of a run.
abbrev pub history : List Step → TimestampStream → List KernelRxBatch
history [] s = []
history (x ∷ xs) s = added x s ++ history xs (step x s)

-- The reads are numbered in their order, from k + 1 on.
abbrev pub Serials : ℕ → List KernelRxBatch → Type 0
Serials k [] = Unit
Serials k (b ∷ bs) = (b.serial ≡ suc k) × Serials (suc k) bs

Serials-append :
    (k : ℕ) (bs cs : List KernelRxBatch)
    → Serials k bs
    → Serials (k + length bs) cs
    → Serials k (bs ++ cs)
Serials-append k [] cs h g = subst (λ n. Serials n cs) (omega arith) g
Serials-append k (b ∷ bs) cs (h, hs) g =
    (h, Serials-append (suc k) bs cs hs (subst (λ n. Serials n cs) (omega arith) g))

-- After the reads `all`: the stream has counted them, and keeps the last 64.
pub record Keeps (all : List KernelRxBatch) (s : TimestampStream) : Type 0 where
  pub reads : s.rx_reads ≡ length all
  pub kept : s.rx ≡ drop (length all - 64) all
  pub serials : Serials 0 all

pub new_stream-Keeps : Keeps [] new_stream
new_stream-Keeps = record { reads = refl; kept = sym (drop_nil (0 - 64)); serials = _ }

without_first-drop : (n : ℕ) (xs : List KernelRxBatch) → without_first (drop n xs) ≡ drop (suc n) xs
unfolding without_first
without_first-drop zero [] = refl
without_first-drop zero (x ∷ xs) = refl
without_first-drop (suc n) [] = refl
without_first-drop (suc n) (x ∷ xs) = without_first-drop n xs

-- One more read moves the window of 64.
kept_next :
    (all : List KernelRxBatch) (b : KernelRxBatch)
    → let past = drop (length all - 64) all in
      (if length past == 64 then without_first past else past) ++ (b ∷ [])
      ≡ drop (length (all ++ (b ∷ [])) - 64) (all ++ (b ∷ []))
kept_next all b =
    let n = length all in
    let past = drop (n - 64) all in
    let one : List KernelRxBatch = b ∷ [] in
    let size = length-append all one in
    let held = length-drop (n - 64) all in
    elim (Bool-cases (ltb n 64)) [
      | inl few ↦
          let start : n - 64 ≡ 0 = ground arith in
          let now : length (all ++ one) - 64 ≡ 0 = ground (arith, size) in
          let stays : (if length past == 64 then without_first past else past) ≡ past =
            ground (arith, held) in
          ap (λ p. p ++ one) stays
          ∙ ap (λ k. drop k all ++ one) start
          ∙ sym (ap (λ k. drop k (all ++ one)) now)
      | inr many ↦
          let full : 64 ≤ n = ground arith in
          let moves : (if length past == 64 then without_first past else past)
              ≡ without_first past =
            ground (arith, held) in
          let next : suc (n - 64) ≡ length (all ++ one) - 64 = omega (arith, size) in
          ap (λ p. p ++ one) (moves ∙ without_first-drop (n - 64) all)
          ∙ sym (drop-append (suc (n - 64)) all one (omega arith))
          ∙ ap (λ k. drop k (all ++ one)) next
    ]

-- A step that reads nothing, or of a stream that is not enabled.
quiet-Keeps :
    (all : List KernelRxBatch) (s t : TimestampStream)
    → t.rx_reads ≡ s.rx_reads
    → t.rx ≡ s.rx
    → Keeps all s
    → Keeps (all ++ []) t
quiet-Keeps all s t same_reads same_rx k =
    subst (λ l. Keeps l t) (sym (append_nil all))
      (record { reads = same_reads ∙ k.reads; kept = same_rx ∙ k.kept; serials = k.serials })

push-Keeps :
    (all : List KernelRxBatch) (b : KernelRxBatch) (s t : TimestampStream)
    → length (all ++ (b ∷ [])) < 2 ^ 64
    → b.serial ≡ inc64 s.rx_reads
    → t.rx_reads ≡ inc64 s.rx_reads
    → t.rx ≡ (if length s.rx == 64 then without_first s.rx else s.rx) ++ (b ∷ [])
    → Keeps all s
    → Keeps (all ++ (b ∷ [])) t
push-Keeps all b s t word serial reads rx k =
    let size = length-append all (b ∷ []) in
    record {
      reads = omega (arith, reads, k.reads, size, word);
      kept =
          rx
          ∙ ap (λ l. (if length l == 64 then without_first l else l) ++ (b ∷ [])) k.kept
          ∙ kept_next all b;
      serials =
          Serials-append 0 all (b ∷ []) k.serials (omega (arith, serial, k.reads, size, word), _);
    }

pub step-Keeps :
    (x : Step) (all : List KernelRxBatch) (s : TimestampStream)
    → length (all ++ added x s) < 2 ^ 64
    → Keeps all s
    → Keeps (all ++ added x s) (step x s)
unfolding step receive enable write_some
step-Keeps (enabling rx tx answer) all s word k =
    quiet-Keeps all s (enable rx tx answer s) (ground arith) (ground arith) k
step-Keeps (writing bytes) all s word k = quiet-Keeps all s (write_some bytes s) refl refl k
step-Keeps (receiving count (refused e)) all s word k =
    quiet-Keeps all s _ (ground arith) (ground arith) k
step-Keeps (receiving count closed) all s word k =
    quiet-Keeps all s _ (ground arith) (ground arith) k
step-Keeps (receiving count (got bytes truncated controls)) all s word k =
    let b : KernelRxBatch = record {
      serial = inc64 s.rx_reads;
      begin = s.rx_bytes;
      end = (s.rx_bytes + bytes) % 2 ^ 64;
      timestamp = stamp_of 0 controls;
    } in
    let x = receiving count (got bytes truncated controls) in
    elim (Bool-cases (count == 0 || not s.rx_enabled)) [
      | inl unread ↦
          let nothing : added x s ≡ [] = ground arith in
          subst (λ l. Keeps (all ++ l) (step x s)) (sym nothing)
            (quiet-Keeps all s (step x s) (ground arith) (ground arith) k)
      | inr read ↦
          let batch : added x s ≡ b ∷ [] = ground arith in
          subst (λ l. Keeps (all ++ l) (step x s)) (sym batch)
            (push-Keeps all b s (step x s) (subst (λ l. length (all ++ l) < 2 ^ 64) batch word) refl
              (ground arith) (ground arith) k)
    ]

pub run-Keeps :
    (xs : List Step) (all : List KernelRxBatch) (s : TimestampStream)
    → length (all ++ history xs s) < 2 ^ 64
    → Keeps all s
    → Keeps (all ++ history xs s) (run xs s)
unfolding run
run-Keeps [] all s word k = subst (λ l. Keeps l s) (sym (append_nil all)) k
run-Keeps (x ∷ xs) all s word k =
    let now = added x s in
    let later = history xs (step x s) in
    let assoc = append_assoc all now later in
    let size = length-append (all ++ now) later in
    subst (λ l. Keeps l (run xs (step x s))) assoc
      (run-Keeps xs (all ++ now) (step x s) (subst (λ l. length l < 2 ^ 64) (sym assoc) word)
        (step-Keeps x all s (omega (arith, size, ap length assoc)) k))
