-- ===== src/Connection/Tests.antt =====
-- A run with two failures, a message and a stop (src/receiver.cpp).
use single_exchange_triangul.Common.{◌≡◌, true, false, List, [], ◌∷◌, length}
use single_exchange_triangul.Connection.{
  Event, starting, completed, timed_out, control_failed, retried, stopping, new_network, run,
}
use single_exchange_triangul.Connection.Steady.{Steady}
use single_exchange_triangul.Connection.Stopped.{sessions-Steady}

-- The first session fails at the name, the second at the clock, and the third gets a message.
abbrev events : List Event
events =
    starting true
    ∷ completed 0 false
    ∷ retried true
    ∷ timed_out 1
    ∷ retried true
    ∷ completed 2 true
    ∷ completed 2 true
    ∷ completed 2 true
    ∷ completed 2 true
    ∷ completed 2 true
    ∷ control_failed 1 true
    ∷ stopping
    ∷ []

abbrev late : List Event
late = retried true ∷ completed 2 true ∷ []

sessions-Steady_example :
    Steady (run events new_network)
    × ((run events new_network).stopped ≡ true
        → length (run late (run events new_network)).sessions
          ≡ length (run events new_network).sessions)
sessions-Steady_example = sessions-Steady events late
