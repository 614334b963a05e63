-- ===== src/Executor/Machine.antt =====
-- The executor as a state machine: each public method, callback and timer of
-- src/execution/execution.cpp is an event, and `step` runs its handler.
use single_exchange_triangul.Common.{
  true, false, ◌||◌, Option, none, some, List, [], ◌∷◌, ◌>>=◌, if◌then◌else◌,
}
use single_exchange_triangul.Decimal.{Arith, Wire, Widen}
use single_exchange_triangul.Trading.{ArbitrageOpportunity, thrice}
use single_exchange_triangul.Executor.Defs.{
  OrderReport, Setup, Env, Exec, blank, idle, is_idle, is_halted, empty_report,
  canceled_cleanup_wait, halt, fail_cycle,
}
use single_exchange_triangul.Executor.Cycle.{start, begin}
use single_exchange_triangul.Executor.Cleanup.{clear_initial_position, start_initial_cleanup}
use single_exchange_triangul.Executor.Report.{report, callback}

-- `stream_report` is `on_report`, which no part of the program calls.
pub data Event (D F : Type 0) : Type 0 where
  cleanup_started : Event D F
  try_started : ArbitrageOpportunity F → Event D F
  begun : Event D F
  called_back : OrderReport D → Event D F
  stream_report : OrderReport D → Event D F
  timed_out : Event D F
  cleanup_waited : Event D F
  stopped : Event D F

module _ {D F : Type 0} where
  -- The handler of `arm_timeout`. A timer may still fire after it was canceled, so the step is
  -- allowed in every state.
  unfoldable pub timeout_fired : Exec D F → Exec D F
  unfolding halt fail_cycle
  timeout_fired s = if is_idle s.state || is_halted s.state then s else elim s.pending [
    | none ↦ fail_cycle "Execution timeout" s
    | some p ↦
        if p.initial_clear then halt "Execution timeout" s else fail_cycle "Execution timeout" s
  ]

  unfoldable pub stop : Exec D F → Exec D F
  unfolding halt
  stop s =
      let t = record s { stopping = true; log = canceled_cleanup_wait ∷ s.log } in
      if is_idle s.state || is_halted s.state then t else halt "Stopped during execution" t

module _ {D F : Type 0} ⦃a : Arith D⦄ ⦃f : Arith F⦄ ⦃w : Wire D⦄ ⦃c : Widen F D⦄ where
  unfoldable pub step : Setup D F → Env D → Event D F → Exec D F → Option (Exec D F)
  unfolding start begin start_initial_cleanup clear_initial_position report callback timeout_fired
      stop
  step u v cleanup_started s = start_initial_cleanup u v s
  step u v (try_started o) s = some (start u v o s).0
  step u v begun s = begin u v s
  step u v (called_back r) s = callback u v r s
  step u v (stream_report r) s = report u v r s
  step u v timed_out s = some (timeout_fired s)
  step u v cleanup_waited s = clear_initial_position u v s
  step u v stopped s = some (stop s)

  -- A history: each event with what its handler reads. `none` once a handler has thrown.
  unfoldable pub run : Setup D F → List (Env D × Event D F) → Exec D F → Option (Exec D F)
  unfolding step
  run u [] s = some s
  run u ((v, e) ∷ es) s = step u v e s >>= run u es

  -- The members as the constructor leaves them.
  unfoldable pub fresh_exec : Exec D F
  fresh_exec = record {
    cleanup_started = false;
    cleanup_done = false;
    cleanup_deadline_ns = 0;
    cleanup_processed = [];
    startup_orders_submitted = 0;
    cleanup_results = [];
    state = idle;
    stopping = false;
    failed = false;
    cycle_submitted = false;
    gateway_busy = false;
    waiting_gateway = false;
    rejection = none;
    order_failure = none;
    reason = "";
    cycle = blank;
    next_cycle = 0;
    accepted = 0;
    submitted_cycles = 0;
    completed = 0;
    failures = 0;
    rejected_busy = 0;
    rejected_limit = 0;
    order_number = 0;
    clear_orders = 0;
    leg_number = 0;
    opportunity = record {
      group_index = 0;
      path = thrice (record { index = 0; buy = false });
      prices = thrice f.nought;
      quantities = thrice f.nought;
      book_update_ids = thrice 0;
      received_steady_ns = thrice 0;
      receive_sequences = thrice 0;
      input_usdt = f.nought;
      output_usdt = f.nought;
      profit_usdt = f.nought;
      net_return = f.nought;
    };
    holdings = [];
    dust = [];
    budget = a.nought;
    cycle_started_ns = 0;
    previous_report_ns = 0;
    pending = none;
    accounted = empty_report;
    log = [];
  }
