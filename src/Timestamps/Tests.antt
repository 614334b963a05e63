-- ===== src/Timestamps/Tests.antt =====
-- A stream with three reads (include/triangular/timestamp_stream.hpp).
use single_exchange_triangul.Common.{
  ◌-◌, ◌≡◌, ◌≤◌, refl, true, false, ltb, ◌==◌, none, some, List, [], ◌∷◌, length, drop, arith,
  if◌then◌else◌,
}
use single_exchange_triangul.Timestamps.{
  again, success, refused, got, stamping, other_control, ready, interrupted, new_stream, Step,
  enabling, receiving, writing, run, step, read_some, rx_window, TimestampStream,
}
use single_exchange_triangul.Timestamps.History.{history}
use single_exchange_triangul.Timestamps.Windows.{window_exact}

abbrev reads : List Step
reads =
    enabling true false none
    ∷ receiving 1 (got 100 false (other_control ∷ stamping 7 ∷ []))
    ∷ receiving 1 (refused again)
    ∷ receiving 2 (got 20 true [])
    ∷ writing 9
    ∷ receiving 1 (got 30 false (stamping 8 ∷ []))
    ∷ []

-- A read that is refused at first, and waits through an interruption.
abbrev enabled : TimestampStream
enabled = record new_stream { rx_enabled = true }

waits :
    read_some 1 ((refused again, interrupted ∷ ready ∷ []) ∷ (got 5 false [], []) ∷ []) enabled
    ≡ some (
      record enabled {
        rx_bytes = 5;
        rx_reads = 1;
        rx_missing = 1;
        rx = record { serial = 1; begin = 0; end = 5; timestamp = 0 } ∷ [];
      },
      (5, success),
    )
unfolding read_some
waits = refl

window_exact_example :
    let s = run reads new_stream in
    let all = history reads new_stream in
    let w = rx_window 1 s in
    (w.batches ≡ drop (if ltb 1 (length all - 64) then length all - 64 else 1) all)
    × (length w.batches ≤ 64)
    × (w.history_truncated ≡ ltb 64 (length all - 1))
    × (w.no_new_read ≡ (length all == 1))
unfolding step
window_exact_example = window_exact reads 1 (omega arith) (omega arith)
