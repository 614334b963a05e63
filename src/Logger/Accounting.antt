-- ===== src/Logger/Accounting.antt =====
-- The logger's statistics along any run (src/logger.cpp).
use single_exchange_triangul.Common.{
  ℕ, ◌+◌, ◌%◌, ◌^◌, ◌≤◌, ◌≡◌, String, List, [], ◌∷◌, arith, length, length-append,
}
use single_exchange_triangul.Logger.{
  Record, LoggerOptions, Logger, Phase, writing, new_logger, log, hand_over, write_returns,
  write_throws, Step, logged, stop_called, handed_over, write_returned, write_threw, step, run,
}

abbrev pub batch_size : Phase → ℕ
batch_size (writing b) = length b
batch_size _ = 0

pub record Balanced (o : LoggerOptions) (s : Logger) : Type 0 where
  pub asked : s.submitted ≡ (s.accepted + s.dropped) % 2 ^ 64
  pub taken : s.accepted ≡ (s.written + s.in_flight + length s.pending + s.write_lost) % 2 ^ 64
  pub bounded : length s.pending ≤ o.capacity
  pub marked : s.high_water ≤ o.capacity
  pub flight : s.in_flight ≡ batch_size s.phase

new_logger-Balanced : (o : LoggerOptions) → Balanced o new_logger
new_logger-Balanced o = ground arith

log-Balanced :
    (o : LoggerOptions) (level event : String) (s : Logger)
    → Balanced o s
    → Balanced o (log o level event s).0
unfolding log
log-Balanced o level event s b =
    let r : Record = record {
      sequence = (s.accepted + 1) % 2 ^ 64;
      level = level;
      event = event;
    } in
    ground (arith, length-append s.pending (r ∷ []))

hand_over-Balanced : (o : LoggerOptions) (s : Logger) → Balanced o s → Balanced o (hand_over s)
unfolding hand_over
hand_over-Balanced o s b = ground arith

write_returns-Balanced :
    (o : LoggerOptions) (s : Logger) → Balanced o s → Balanced o (write_returns s)
unfolding write_returns
write_returns-Balanced o s b = ground arith

write_throws-Balanced :
    (o : LoggerOptions) (s : Logger) → Balanced o s → Balanced o (write_throws s)
unfolding write_throws
write_throws-Balanced o s b = ground arith

step-Balanced :
    (o : LoggerOptions) (x : Step) (s : Logger) → Balanced o s → Balanced o (step o x s).0
unfolding step
step-Balanced o (logged level event) s b = log-Balanced o level event s b
step-Balanced o stop_called s b = ground arith
step-Balanced o handed_over s b = hand_over-Balanced o s b
step-Balanced o write_returned s b = write_returns-Balanced o s b
step-Balanced o write_threw s b = write_throws-Balanced o s b

run-Balanced :
    (o : LoggerOptions) (xs : List Step) (s : Logger) → Balanced o s → Balanced o (run o xs s).0
unfolding run
run-Balanced o [] s b = b
run-Balanced o (x ∷ xs) s b = run-Balanced o xs (step o x s).0 (step-Balanced o x s b)

-- Along any interleaving of producers and worker, failed writes included: the records submitted are
-- those accepted and those dropped; those accepted are written, in flight, queued or counted as lost
-- (as `std::uint64_t`); and the queue and its high-water mark stay within the capacity.
pub records_accounted : (o : LoggerOptions) (xs : List Step) → Balanced o (run o xs new_logger).0
records_accounted o xs = run-Balanced o xs new_logger (new_logger-Balanced o)
