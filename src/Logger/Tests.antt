-- ===== src/Logger/Tests.antt =====
-- Runs of the logger's model (src/logger.cpp).
use single_exchange_triangul.Common.{◌≡◌, false, List, [], ◌∷◌, ◌++◌}
use single_exchange_triangul.Logger.{
  Record, LoggerOptions, new_logger, ended, Step, logged, stop_called, handed_over, write_returned,
  write_threw, run,
}
use single_exchange_triangul.Logger.Order.{batch_of, rows_in_order}
use single_exchange_triangul.Logger.Accounting.{Balanced, records_accounted}

abbrev options : LoggerOptions
options = record { capacity = 2; batch_threshold = 1 }

-- The third record finds the queue full, and the last batch is lost.
abbrev steps : List Step
steps =
    logged "INFO" "a"
    ∷ handed_over
    ∷ write_returned
    ∷ logged "INFO" "b"
    ∷ logged "INFO" "c"
    ∷ logged "INFO" "d"
    ∷ write_returned
    ∷ handed_over
    ∷ write_threw
    ∷ stop_called
    ∷ []

records_accounted_example : Balanced options (run options steps new_logger).0
records_accounted_example = records_accounted options steps

rows_in_order_example :
    ((lost : List Record) × ((run options steps new_logger).0.rows ++ lost
        ≡ (run options steps new_logger).1))
    × ((run options steps new_logger).0.failed ≡ false
        → (run options steps new_logger).0.rows
            ++ (batch_of (run options steps new_logger).0.phase
                ++ (run options steps new_logger).0.pending)
          ≡ (run options steps new_logger).1)
    × ((run options steps new_logger).0.failed ≡ false
        → (run options steps new_logger).0.phase ≡ ended
        → (run options steps new_logger).0.rows ≡ (run options steps new_logger).1)
rows_in_order_example = rows_in_order options steps
