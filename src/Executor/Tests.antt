-- ===== src/Executor/Tests.antt =====
-- Runs of the executor's model (src/execution/execution.cpp).
use single_exchange_triangul.Executor.Cleanup.{protected_asset, exit_leg, clear_by, clear_at}
use single_exchange_triangul.Executor.Sizing.{fresh, price_of, prepare_from_book}
use single_exchange_triangul.Decimal.{decimal_text}
use single_exchange_triangul.Common.Dict.{insert, lookup, find_or}
use single_exchange_triangul.Common.{
  ℕ, ◌≡◌, refl, true, false, none, some, List, [], ◌∷◌, ◌++◌, ◌≤◌, ◌<◌, ◌^◌, ◌⊎◌, arith,
}
use single_exchange_triangul.Common.Int.{ℤ, pos}
use single_exchange_triangul.Samples.{
  whole, digits, same_whole, config, markets, books, opportunity,
}
use single_exchange_triangul.Executor.Defs.{
  OrderReport, CycleId, startup, numbered, filled, idle, leg_pending, halted, Setup, Env, Exec,
}
use single_exchange_triangul.Executor.Cycle.{preflight_leg}
use single_exchange_triangul.Executor.Defs.{OrderRequest, empty_report}
use single_exchange_triangul.Executor.Report.{callback}
use single_exchange_triangul.Executor.Invariant.Run.{AllProper, run-fresh_exec-Inv}
use single_exchange_triangul.Executor.Safety.{idle_is_free, Freed, timed_out_cycle_released}
use single_exchange_triangul.Executor.Halting.{orders, halt_is_final, stop_is_final}
use single_exchange_triangul.Executor.Clearing.History.{
  clear_submissions, AllIntoUsdt, AllPlaced, cleanup_orders_safe, orders_placed,
}
use single_exchange_triangul.Executor.Machine.{
  cleanup_waited, Event, cleanup_started, try_started, begun, called_back, timed_out, stopped, run,
  fresh_exec, stop,
}

abbrev setup : Setup ℤ ℤ
setup = record {
  config = config;
  markets = markets;
  options = record {
    max_book_age = 1;
    execution_timeout = 1;
    initial_cleanup_wait = 1;
    max_initial_clear_orders = 2;
    max_cycles = 1;
  };
}

-- Each handler reads the clock at 9, and holds 3 BTC and 8 USDT.
abbrev world : Env ℤ
world = record {
  clock = λ _. 9;
  wall = 100;
  snapshot = books;
  balances = ("BTC", pos 3) ∷ ("USDT", pos 8) ∷ [];
  submit_error = none;
}

abbrev filled_report : CycleId → ℕ → ℕ → OrderReport ℤ
filled_report cycle quantity quote = record {
  client_id = record { cycle = cycle; number = 1 };
  revision = 1;
  status = filled;
  filled_qty = pos quantity;
  filled_quote = pos quote;
  commissions = [];
  accounting_complete = true;
  failure = none;
}

-- The clean-up sells the BTC, and a cycle buys with 8 USDT.
abbrev history : List (Env ℤ × Event ℤ ℤ)
history =
    (world, cleanup_started)
    ∷ (world, called_back (filled_report (startup 100) 3 6))
    ∷ (world, try_started opportunity)
    ∷ (world, begun)
    ∷ []

-- The state that a history ends in.
abbrev after : List (Env ℤ × Event ℤ ℤ) → Exec ℤ ℤ
after es = elim (run setup es fresh_exec) [ none ↦ fresh_exec | some s ↦ s ]

history_runs : run setup history fresh_exec ≡ some (after history)
unfolding run fresh_exec protected_asset exit_leg clear_by fresh clear_at price_of prepare_from_book
    decimal_text insert lookup find_or preflight_leg
history_runs = refl

-- The callback of the cycle's order.
abbrev answer : OrderReport ℤ
answer = filled_report (numbered 100 1) 4 8

abbrev answered : List (Env ℤ × Event ℤ ℤ)
answered = history ++ ((world, called_back answer) ∷ [])

answered_runs : run setup answered fresh_exec ≡ some (after answered)
unfolding run fresh_exec protected_asset exit_leg clear_by fresh clear_at price_of prepare_from_book
    decimal_text insert lookup find_or preflight_leg
answered_runs = refl

answered_idle : (after answered).state ≡ idle
unfolding run fresh_exec protected_asset exit_leg clear_by fresh clear_at price_of prepare_from_book
    decimal_text insert lookup find_or preflight_leg
answered_idle = refl

-- The cycle times out while the gateway still works on its order.
abbrev late : List (Env ℤ × Event ℤ ℤ)
late = history ++ ((world, timed_out) ∷ [])

late_runs : run setup late fresh_exec ≡ some (after late)
unfolding run fresh_exec protected_asset exit_leg clear_by fresh clear_at price_of prepare_from_book
    decimal_text insert lookup find_or preflight_leg
late_runs = refl

abbrev first_order : OrderRequest
first_order = record {
  client_id = record { cycle = numbered 100 1; number = 1 };
  symbol_index = 0;
  buy = true;
  price = b'2' ∷ [];
  quantity = b'4' ∷ [];
  initial_clear = false;
}

late_members :
    ((after late).state ≡ leg_pending)
    × ((after late).waiting_gateway ≡ true)
    × ((after late).gateway_busy ≡ true)
    × ((after late).pending ≡ some first_order)
    × ((after late).accounted ≡ empty_report)
unfolding run fresh_exec protected_asset exit_leg clear_by fresh clear_at price_of prepare_from_book
    decimal_text insert lookup find_or preflight_leg
late_members = (refl, refl, refl, refl, refl)

abbrev halted_history : List (Env ℤ × Event ℤ ℤ)
halted_history = (world, cleanup_started) ∷ (world, stopped) ∷ []

halted_after : (after halted_history).state ≡ halted
unfolding run fresh_exec protected_asset exit_leg clear_by fresh clear_at price_of prepare_from_book
    decimal_text insert lookup find_or preflight_leg
halted_after = refl

-- Late events.
abbrev leftovers : List (Env ℤ × Event ℤ ℤ)
leftovers =
    (world, called_back (filled_report (startup 100) 3 6))
    ∷ (world, cleanup_waited)
    ∷ (world, begun)
    ∷ []

abbrev end_of : Exec ℤ ℤ → Exec ℤ ℤ
end_of s = elim (run setup leftovers s) [ none ↦ s | some t ↦ t ]

leftovers-run : run setup leftovers (after halted_history) ≡ some (end_of (after halted_history))
unfolding run fresh_exec protected_asset exit_leg clear_by fresh clear_at price_of prepare_from_book
    decimal_text insert lookup find_or preflight_leg
leftovers-run = refl

leftovers-run_stopped :
    run setup leftovers (stop (after history)) ≡ some (end_of (stop (after history)))
unfolding run fresh_exec protected_asset exit_leg clear_by fresh clear_at price_of prepare_from_book
    decimal_text insert lookup find_or preflight_leg
leftovers-run_stopped = refl

history-AllProper : AllProper setup history
history-AllProper = ground arith

answered-AllProper : AllProper setup answered
answered-AllProper = ground arith

late-AllProper : AllProper setup late
late-AllProper = ground arith

few : 1 < 2 ^ 64
few = omega arith

idle_is_free_example :
    ((after answered).gateway_busy ≡ false)
    × ((after answered).pending ≡ none)
    × ((after answered).waiting_gateway ≡ false)
idle_is_free_example =
    idle_is_free setup answered few answered-AllProper answered_runs answered_idle

timed_out_cycle_released_example :
    (t : Exec ℤ ℤ) × (callback setup world answer (after late) ≡ some t) × Freed setup false t
timed_out_cycle_released_example =
    timed_out_cycle_released setup world answer first_order (after late)
      (run-fresh_exec-Inv setup late few late-AllProper late_runs) (late_members.0) (late_members.1)
      (late_members.3) refl (ground arith) (ground arith)

halt_is_final_example :
    ((end_of (after halted_history)).state ≡ halted)
    × (orders (end_of (after halted_history)).log ≡ orders (after halted_history).log)
halt_is_final_example =
    halt_is_final setup leftovers (after halted_history) halted_after leftovers-run

stop_is_final_example :
    (((end_of (stop (after history))).state ≡ idle)
      ⊎ ((end_of (stop (after history))).state ≡ halted))
    × (orders (end_of (stop (after history))).log ≡ orders (after history).log)
stop_is_final_example =
    stop_is_final setup leftovers (after history)
      (run-fresh_exec-Inv setup history few history-AllProper history_runs) leftovers-run_stopped

cleanup_orders_safe_example :
    (clear_submissions (after history).log ≤ 2) × AllIntoUsdt setup (after history).log
cleanup_orders_safe_example = cleanup_orders_safe setup history (ground arith) history_runs

orders_placed_example : AllPlaced setup (after history).log
orders_placed_example = orders_placed setup history (ground arith) history_runs
