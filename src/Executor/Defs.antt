-- ===== src/Executor/Defs.antt =====
-- The requests, reports and options of include/triangular/execution/execution.hpp, the members of
-- `ArbitrageExecutor::Impl` (src/execution/execution.cpp), and its helpers that only set them.
use Prim.Native.String.{◌++◌ as str_append}
use single_exchange_triangul.Common.{
  arith, ◌≡◌, ℕ, ◌+◌, ◌%◌, ◌^◌, String, Bool, true, false, not, ◌&&◌, ◌||◌, Option, none, some,
  List, [], ◌∷◌, ◌==◌, if◌then◌else◌, inc64, length,
}
use single_exchange_triangul.Common.Dict.{Dict}
use single_exchange_triangul.Decimal.{Arith, Text}
use single_exchange_triangul.Trading.{ArbitrageOpportunity, Config, Market, Snapshot, items}

pub data OrderStatus : Type 0 where
  opened partially_filled filled canceled expired rejected unknown : OrderStatus

pub data State : Type 0 where
  idle validating leg_pending clearing_initial_position halted : State

-- The member `cycle`: blank at first, "startup-<us>" of the clean-up, "<us>-<n>" of a cycle.
pub data CycleId : Type 0 where
  blank : CycleId
  startup : ℕ → CycleId
  numbered : ℕ → ℕ → CycleId

-- "<cycle>-<n>": equal texts are equal in both parts.
pub record ClientId : Type 0 where
  pub cycle : CycleId
  pub number : ℕ

abbrev pub same_cycle : CycleId → CycleId → Bool
same_cycle blank blank = true
same_cycle (startup a) (startup b) = a == b
same_cycle (numbered a m) (numbered b n) = a == b && m == n
same_cycle _ _ = false

abbrev pub same_id : ClientId → ClientId → Bool
same_id a b = same_cycle a.cycle b.cycle && a.number == b.number

pub same_id_refl : (a : ClientId) → same_id a a ≡ true
same_id_refl a = ground arith

pub same_id-eq : (a b : ClientId) → same_id a b ≡ true → a ≡ b
same_id-eq a b h = ground arith

pub record OrderRequest : Type 0 where
  pub client_id : ClientId
  pub symbol_index : ℕ
  pub buy : Bool
  pub price : Text
  pub quantity : Text
  pub initial_clear : Bool

-- `failure` is `none` for the empty diagnostic object.
pub record OrderReport (D : Type 0) : Type 0 where
  pub client_id : ClientId
  pub revision : ℕ
  pub status : OrderStatus
  pub filled_qty : D
  pub filled_quote : D
  pub commissions : Dict D
  pub accounting_complete : Bool
  pub failure : Option String

-- Times are in milliseconds, as in the source.
pub record Options : Type 0 where
  pub max_book_age : ℕ
  pub execution_timeout : ℕ
  pub initial_cleanup_wait : ℕ
  pub max_initial_clear_orders : ℕ
  pub max_cycles : ℕ

-- The diagnostic object `rejection`, by the fields that every refusal sets.
pub record Rejection : Type 0 where
  pub stage : String
  pub leg : Option ℕ
  pub code : Option String

-- What the executor does to the world, in order: a call of `gateway.submit` is `submitted` where it
-- returned, and `submit_threw` where it threw; `event` is a call of `event_observer` by its name.
pub data Effect : Type 0 where
  published : Effect
  event : String → Effect
  submitted submit_threw : OrderRequest → Effect
  posted_begin : Effect
  armed_timeout : Effect
  canceled_timeout : Effect
  armed_cleanup_wait : Effect
  canceled_cleanup_wait : Effect

-- The members that the constructor sets and no handler changes.
pub record Setup (D F : Type 0) : Type 0 where
  pub config : Config F
  pub markets : List (Market D)
  pub options : Options

-- What one handler reads of the world. `clock k` is the handler's reading `k` of `steady_time_ns`,
-- `wall` is `wall_time_us`, and `submit_error` is the exception of its one `gateway.submit`, if any.
pub record Env (D : Type 0) : Type 0 where
  pub clock : ℕ → ℕ
  pub wall : ℕ
  pub snapshot : Snapshot
  pub balances : Dict D
  pub submit_error : Option String

-- The members that change, and the log of the effects, the last one first.
pub record Exec (D F : Type 0) : Type 0 where
  pub cleanup_started : Bool
  pub cleanup_done : Bool
  pub cleanup_deadline_ns : ℕ
  pub cleanup_processed : List String
  pub startup_orders_submitted : ℕ
  pub cleanup_results : Dict String
  pub state : State
  pub stopping : Bool
  pub failed : Bool
  pub cycle_submitted : Bool
  pub gateway_busy : Bool
  pub waiting_gateway : Bool
  pub rejection : Option Rejection
  pub order_failure : Option String
  pub reason : String
  pub cycle : CycleId
  pub next_cycle : ℕ
  pub accepted : ℕ
  pub submitted_cycles : ℕ
  pub completed : ℕ
  pub failures : ℕ
  pub rejected_busy : ℕ
  pub rejected_limit : ℕ
  pub order_number : ℕ
  pub clear_orders : ℕ
  pub leg_number : ℕ
  pub opportunity : ArbitrageOpportunity F
  pub holdings : Dict D
  pub dust : Dict D
  pub budget : D
  pub cycle_started_ns : ℕ
  pub previous_report_ns : ℕ
  pub pending : Option OrderRequest
  pub accounted : OrderReport D
  pub log : List Effect

abbrev pub is_idle : State → Bool
is_idle idle = true
is_idle _ = false

abbrev pub is_validating : State → Bool
is_validating validating = true
is_validating _ = false

abbrev pub is_halted : State → Bool
is_halted halted = true
is_halted _ = false

abbrev pub is_unknown : OrderStatus → Bool
is_unknown unknown = true
is_unknown _ = false

abbrev pub is_filled : OrderStatus → Bool
is_filled filled = true
is_filled _ = false

-- `terminal`.
unfoldable pub terminal : OrderStatus → Bool
terminal filled = true
terminal canceled = true
terminal expired = true
terminal rejected = true
terminal _ = false

-- `accounted = {}`.
abbrev pub empty_report : {D : Type 0} ⦃a : Arith D⦄ → OrderReport D
empty_report ⦃a⦄ = record {
  client_id = record { cycle = blank; number = 0 };
  revision = 0;
  status = unknown;
  filled_qty = a.nought;
  filled_quote = a.nought;
  commissions = [];
  accounting_complete = true;
  failure = none;
}

module _ {D F : Type 0} where
  -- The tests of the constructor, which throws where they fail.
  unfoldable pub options_ok : Setup D F → Bool
  options_ok u =
      length u.markets == length u.config.symbols
      && not (u.options.max_book_age == 0)
      && not (u.options.execution_timeout == 0)
      && not (u.options.initial_cleanup_wait == 0)
      && not (u.options.max_initial_clear_orders == 0)

  unfoldable pub halt : String → Exec D F → Exec D F
  halt why s = record s {
    state = halted;
    reason = why;
    failures = inc64 s.failures;
    log = published ∷ canceled_cleanup_wait ∷ canceled_timeout ∷ s.log;
  }

  unfoldable pub fail_cycle : String → Exec D F → Exec D F
  fail_cycle why s = record s {
    failed = true;
    reason = why;
    failures = if s.waiting_gateway then s.failures else inc64 s.failures;
    waiting_gateway = s.gateway_busy;
    pending = if s.gateway_busy then s.pending else none;
    state = if s.gateway_busy then s.state else idle;
    log = published ∷ canceled_cleanup_wait ∷ canceled_timeout ∷ s.log;
  }

  -- The two ends of an order that went wrong.
  unfoldable pub give_up : OrderRequest → String → Exec D F → Exec D F
  unfolding halt fail_cycle
  give_up p why s = if p.initial_clear then halt why s else fail_cycle why s

  unfoldable pub finish : Exec D F → Exec D F
  finish s = record s {
    pending = none;
    failures = if s.failed then inc64 s.failures else s.failures;
    completed =
        if s.failed
        then s.completed
        else if s.leg_number == length (items s.opportunity.path)
        then inc64 s.completed
        else s.completed;
    state = idle;
    log = published ∷ canceled_timeout ∷ s.log;
  }

  -- `first_leg_event` on the log.
  unfoldable pub first_leg_event : String → OrderRequest → Exec D F → List Effect → List Effect
  first_leg_event name p s log =
      if not p.initial_clear && s.leg_number == 0 then event name ∷ log else log

  -- `send` behind `gateway.submit`: it returned, or it threw.
  unfoldable pub submitted_order : OrderRequest → Exec D F → Exec D F
  unfolding first_leg_event
  submitted_order p s = record s {
    startup_orders_submitted =
        if p.initial_clear then inc64 s.startup_orders_submitted else s.startup_orders_submitted;
    cycle_submitted = not p.initial_clear || s.cycle_submitted;
    submitted_cycles =
        if p.initial_clear || s.cycle_submitted
        then s.submitted_cycles
        else inc64 s.submitted_cycles;
    log = published ∷ first_leg_event "arbitrage_first_leg_submitted" p s (submitted p ∷ s.log);
  }

  unfoldable pub submit_failed : OrderRequest → String → Exec D F → Exec D F
  unfolding first_leg_event give_up
  submit_failed p error s = give_up p (str_append "Order submission failed: " error) (record s {
    gateway_busy = false;
    log = first_leg_event "arbitrage_first_leg_submit_failed" p s (submit_threw p ∷ s.log);
  })

  -- `send`. The request's `latency` object is not modelled.
  unfoldable pub send : ⦃a : Arith D⦄ → Env D → OrderRequest → Exec D F → Exec D F
  unfolding submitted_order submit_failed first_leg_event
  send v order s =
      let number : ℕ = (s.order_number + 1) % 2 ^ 32 in
      let p : OrderRequest = record order {
        client_id = record { cycle = s.cycle; number = number };
      } in
      let ready : Exec D F = record s {
        order_number = number;
        pending = some p;
        accounted = empty_report;
        state = if p.initial_clear then clearing_initial_position else leg_pending;
        gateway_busy = true;
        log = first_leg_event "arbitrage_first_leg_submit_attempt" p s (published ∷ s.log);
      } in
      elim v.submit_error [
        | none ↦ submitted_order p ready
        | some error ↦ submit_failed p error ready
      ]
