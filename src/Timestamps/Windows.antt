-- ===== src/Timestamps/Windows.antt =====
-- The reads that belong to a message (include/triangular/timestamp_stream.hpp).
use mathlib.Core.Path.{subst}
use single_exchange_triangul.Common.{
  ℕ, zero, suc, ◌+◌, ◌-◌, ◌<◌, ◌≤◌, ◌≡◌, sym, ap, ◌∙◌, inl, inr, ltb, ◌==◌, List, [], ◌∷◌, arith,
  length, drop, length-drop, drop-drop, drop_nil, ◌^◌, if◌then◌else◌, Bool-cases,
}
use single_exchange_triangul.Timestamps.{
  KernelRxBatch, new_stream, later_than, rx_window, Step, run,
}
use single_exchange_triangul.Timestamps.History.{history, Serials, new_stream-Keeps, run-Keeps}

Serials-drop :
    (k n : ℕ) (bs : List KernelRxBatch) → n ≤ length bs → Serials k bs → Serials (k + n) (drop n bs)
Serials-drop k zero bs h g = subst (λ i. Serials i bs) (omega arith) g
Serials-drop k (suc n) [] h g = _
Serials-drop k (suc n) (b ∷ bs) h (g, gs) =
    subst (λ i. Serials i (drop n bs)) (omega arith) (Serials-drop (suc k) n bs (omega arith) gs)

later_than-Serials :
    (k before : ℕ) (bs : List KernelRxBatch)
    → Serials k bs
    → later_than before bs ≡ drop (before - k) bs
unfolding later_than
later_than-Serials k before [] g = sym (drop_nil (before - k))
later_than-Serials k before (b ∷ bs) (g, gs) =
    let rest = later_than-Serials (suc k) before bs gs in
    elim (Bool-cases (ltb before b.serial)) [
      | inl new ↦
          let start : before - k ≡ 0 = ground arith in
          let next : before - suc k ≡ 0 = ground arith in
          let taken : later_than before (b ∷ bs) ≡ b ∷ later_than before bs = ground arith in
          taken
          ∙ ap (◌∷◌ b) (rest ∙ ap (λ n. drop n bs) next)
          ∙ sym (ap (λ n. drop n (b ∷ bs)) start)
      | inr old ↦
          let start : before - k ≡ suc (before - suc k) = ground arith in
          let passed : later_than before (b ∷ bs) ≡ later_than before bs = ground arith in
          passed ∙ rest ∙ sym (ap (λ n. drop n (b ∷ bs)) start)
    ]

-- For any run of a stream, with fewer than 2 ^ 64 reads, and any earlier value of `rx_reads()`: the window
-- has exactly the reads since then, in order, but no more than the last 64, which is what the array
-- holds; it says that the history is truncated exactly when there were more, and that there was no new
-- read exactly when there was none.
pub window_exact :
    (xs : List Step) (before : ℕ)
    → let s = run xs new_stream in
      let all = history xs new_stream in
      let lost = length all - 64 in
      let w = rx_window before s in
      length all < 2 ^ 64
      → before ≤ length all
      → (w.batches ≡ drop (if ltb before lost then lost else before) all)
        × (length w.batches ≤ 64)
        × (w.history_truncated ≡ ltb 64 (length all - before))
        × (w.no_new_read ≡ (length all == before))
unfolding rx_window
window_exact xs before word seen =
    let s = run xs new_stream in
    let all = history xs new_stream in
    let n = length all in
    let k = run-Keeps xs [] new_stream word new_stream-Keeps in
    let first = if ltb before (n - 64) then n - 64 else before in
    let tail : List KernelRxBatch = drop (n - 64) all in
    let numbered : Serials (n - 64) tail =
      subst (λ i. Serials i tail) (omega arith)
        (Serials-drop 0 (n - 64) all (omega arith) k.serials) in
    let batches : later_than before s.rx ≡ drop first all =
      ap (later_than before) k.kept
      ∙ later_than-Serials (n - 64) before tail numbered
      ∙ drop-drop (before - (n - 64)) (n - 64) all
      ∙ ap (λ i. drop i all) (ground arith) in
    (
      batches,
      ground (arith, ap length batches, length-drop first all),
      ground (arith, k.reads),
      ground (arith, k.reads),
    )
