-- ===== src/Startup/Tests.antt =====
-- A start in the mode "paper" (src/main.cpp).
use mathlib.Core.Path.{subst}
use single_exchange_triangul.Common.{
  ◌≡◌, ◌⊎◌, refl, true, false, none, some, List, [], ◌∷◌, All, arith, ap, sym,
}
use single_exchange_triangul.Common.Int.{ℤ, pos, negsuc}
use single_exchange_triangul.Decimal.{Text}
use single_exchange_triangul.Samples.{
  whole, whole-StrictOrder, digits, same_whole, digit, undigit, config, group, markets,
}
use single_exchange_triangul.Json.Samples.{Json, json_document, digit_parser, info}
use single_exchange_triangul.Arbitrage.{validate_arbitrage}
use single_exchange_triangul.Markets.{load_markets}
use single_exchange_triangul.Books.{new_books}
use single_exchange_triangul.Paper.{paper_ok, balances_ok}
use single_exchange_triangul.Executor.Defs.{Setup, options_ok}
use single_exchange_triangul.Triangles.{load_groups}
use single_exchange_triangul.Settings.{
  disabled, paper, Execution, Amounts, Endpoints, Settings, amount_ok, commission_ok, load_config,
}
use single_exchange_triangul.Intake.{Intake, Effect, process, new_intake}
use single_exchange_triangul.Intake.Reads.{opportunities}
use single_exchange_triangul.Intake.Run.{books_in}
use single_exchange_triangul.Intake.Samples.{
  Part, settings, part_message, part_parsing, part_fields, string_of, raws, empty_books,
}
use single_exchange_triangul.Executor.Cycle.{acceptable}
use single_exchange_triangul.Books.{update_all, groups_ok, group_ok}
use single_exchange_triangul.Startup.Runs.{program_runs}
use single_exchange_triangul.Startup.{
  Program, config_of, setup_of, executor_of, make_executor, gateway_ok, exchange_of, wallet_of,
  start_program,
}
use single_exchange_triangul.Startup.Returns.{Tame, start_program_returns}

abbrev file : Text → Text
file t = b'/' ∷ t

abbrev amounts : Amounts ℤ
amounts = record { max_arbitrage_usdt = pos 8; commission_taker = pos 0; edge_threshold = pos 0 }

abbrev ends : Endpoints
ends = record {
  host = b'h' ∷ [];
  port = b'1' ∷ [];
  rest_host = b'a' ∷ b'-' ∷ b'1' ∷ [];
  rest_port = b'4' ∷ b'4' ∷ b'3' ∷ [];
  ca_file = [];
}

abbrev execution : Execution
execution = record {
  mode = paper;
  latency_timestamps = false;
  tls_keylog_file = [];
  live_test_mode = false;
  max_cycles = 0;
  hmac_api_key_file = [];
  hmac_secret_key_file = [];
  timeout_ms = 1000;
}

abbrev read : Settings ℤ
read = record {
  execution = execution;
  amounts = amounts;
  names = record { symbols = config.symbols; symbol_indices = config.symbol_indices };
  triangle_indices = config.triangle_indices;
  endpoints = record {
    host = b'h' ∷ [];
    port = b'9' ∷ b'4' ∷ b'4' ∷ b'3' ∷ [];
    rest_host = b'a' ∷ b'-' ∷ b'1' ∷ [];
    rest_port = b'4' ∷ b'4' ∷ b'3' ∷ [];
    ca_file = [];
  };
}

reads : load_config Part file string_of amounts ends settings ≡ some read
unfolding load_config load_groups
reads = refl

finds : validate_arbitrage (config_of read []) info ≡ some (group ∷ [])
unfolding validate_arbitrage config_of
finds = refl

loads : load_markets (config_of read (group ∷ [])) info ≡ some markets
unfolding load_markets config_of
loads = refl

no_commission : (x : ℤ) → commission_ok x ≡ true → x ≡ pos 0
unfolding commission_ok
no_commission (pos n) h = ap pos (ground (arith, h))
no_commission (negsuc n) h = ground (arith, h)

not_negative : (x : ℤ) → amount_ok x ≡ true → whole.lt x (pos 0) ≡ false
unfolding amount_ok
not_negative (pos n) h = ground (arith, h)
not_negative (negsuc n) h = ground (arith, h)

tame : Tame whole whole digits same_whole
tame = record {
  remainder = λ x h.
      subst
        (λ y.
          (true ≡ true)
          × (whole.le (whole.minus (pos 1) y) (pos 0) ≡ false)
          × (whole.lt (pos 1) (whole.minus (pos 1) y) ≡ false))
        (sym (no_commission x h)) (refl, refl, refl);
  commission = λ x h.
      subst
        (λ y.
          (true ≡ true)
          × (whole.lt (undigit (digit y)) (pos 0) ≡ false)
          × (whole.le (pos 1) (undigit (digit y)) ≡ false))
        (sym (no_commission x h)) (refl, refl, refl);
  amount = λ x h. (refl, not_negative x h);
}

start_program_returns_example :
    (q : Program ℤ ℤ) × (start_program Part Json file string_of amounts ends false settings info
      ≡ some q)
    × (q.config ≡ config_of read (group ∷ []))
    × (new_books q.config ≡ some q.books)
    × ((read.execution.mode ≡ disabled) × (q.executor ≡ none)
        ⊎ ((u : Setup ℤ ℤ) × (q.executor ≡ some u) × (u.config ≡ q.config)))
start_program_returns_example =
    start_program_returns Part Json file string_of amounts ends tame false settings info reads finds
      (λ _. (markets, loads)) (λ e. cc)

made : new_books (config_of read (group ∷ [])) ≡ some empty_books
unfolding new_books groups_ok group_ok config_of
made = refl

abbrev program : Program ℤ ℤ
program = record {
  config = config_of read (group ∷ []);
  books = empty_books;
  executor = some (setup_of read (config_of read (group ∷ [])) markets);
}

runs : executor_of false read program.config info ≡ some program.executor
unfolding executor_of make_executor load_markets config_of gateway_ok exchange_of wallet_of paper_ok
    balances_ok options_ok setup_of
runs = refl

started : start_program Part Json file string_of amounts ends false settings info ≡ some program
unfolding start_program
started = ground (arith, reads, finds, made, runs)

program_runs_example :
    (t : Intake ℤ) × (es : List (Effect ℤ)) × (process Part string_of program.config.symbols raws
        (new_intake program.config empty_books)
      ≡ some (t, es))
    × (update_all (books_in Part string_of program.config.symbol_indices raws) empty_books
        ≡ some t.books)
    × ((u : Setup ℤ ℤ)
        → program.executor ≡ some u
        → All (λ x. acceptable u x ≡ true) (opportunities es))
program_runs_example =
    program_runs Part Json file string_of amounts ends whole-StrictOrder false settings info
      {q = program} started raws
