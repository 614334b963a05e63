-- ===== src/Receiver/Tests.antt =====
-- Runs of the receiver's queue (src/receiver.cpp).
use single_exchange_triangul.Common.{◌≡◌, List, [], ◌∷◌, ◌++◌}
use single_exchange_triangul.Receiver.{
  RawMessage, blank_message, new_channel, arriving, publishing, taking, releasing, Step, run,
}
use single_exchange_triangul.Receiver.Queue.{Holds}
use single_exchange_triangul.Receiver.Fifo.{queue_fifo, all_queued, all_handled}

-- The second message arrives while the first one is handled.
abbrev steps : List Step
steps =
    arriving blank_message
    ∷ publishing
    ∷ taking
    ∷ arriving blank_message
    ∷ releasing
    ∷ publishing
    ∷ []

queue_fifo_example :
    (q : List RawMessage) × Holds (run steps new_channel).0 q
    × (all_queued (run steps new_channel).1 ≡ all_handled (run steps new_channel).1 ++ q)
queue_fifo_example = queue_fifo steps
