-- ===== src/Startup.antt =====
-- The start of `main` (src/main.cpp): the parts are made from the configuration and the exchange's
-- description, in this order, and any of them may throw.
pub mod Ranges
pub mod Returns
pub mod Runs
mod Tests
use single_exchange_triangul.Common.{
  ℕ, String, Bool, true, false, Option, none, some, List, [], ◌∷◌, ◌&&◌, if◌then◌else◌, ◌>>=◌,
}
use single_exchange_triangul.Common.Dict.{Dict}
use single_exchange_triangul.Decimal.{Arith, Wire, Widen, Text}
use single_exchange_triangul.Trading.{Config, Market, TradeGroup}
use single_exchange_triangul.Depth.{Message}
use single_exchange_triangul.Json.{Document, Parser}
use single_exchange_triangul.Arbitrage.{validate_arbitrage}
use single_exchange_triangul.Markets.{load_markets}
use single_exchange_triangul.Books.{Books, new_books}
use single_exchange_triangul.Paper.{Exchange, paper_ok}
use single_exchange_triangul.Executor.Defs.{Setup, options_ok}
use single_exchange_triangul.Settings.{
  Fields, Amounts, Endpoints, Mode, disabled, paper, live, Settings, load_config,
}

-- The configuration that the parts read, with the groups.
unfoldable pub config_of : {F : Type 0} → Settings F → List TradeGroup → Config F
config_of s groups = record {
  max_arbitrage_usdt = s.amounts.max_arbitrage_usdt;
  commission_taker = s.amounts.commission_taker;
  edge_threshold = s.amounts.edge_threshold;
  trading_groups = groups;
  symbols = s.names.symbols;
  symbol_indices = s.names.symbol_indices;
  triangle_indices = s.triangle_indices;
}

-- What `main` has made before its loop.
pub record Program (D F : Type 0) : Type 0 where
  pub config : Config F
  pub books : Books F
  pub executor : Option (Setup D F)

module _ {D F : Type 0} ⦃a : Arith D⦄ ⦃w : Wire D⦄ ⦃c : Widen F D⦄ where
  -- The options of the executor.
  unfoldable pub setup_of : Settings F → Config F → List (Market D) → Setup D F
  setup_of s config markets = record {
    config = config;
    markets = markets;
    options = record {
      max_book_age = 500;
      execution_timeout = s.execution.timeout_ms;
      initial_cleanup_wait = 5000;
      max_initial_clear_orders = 6;
      max_cycles = s.execution.max_cycles;
    };
  }

  -- The fee and the wallet of the paper gateway.
  unfoldable pub exchange_of : Settings F → List (Market D) → Exchange D
  exchange_of s markets = record {
    markets = markets;
    fee = w.of_text (c.dump s.amounts.commission_taker);
  }

  unfoldable pub wallet_of : Settings F → Dict D
  wallet_of s = ("USDT", c.of_float s.amounts.max_arbitrage_usdt) ∷ []

  -- The constructor of the gateway; `opens` tells whether that of BinanceGateway returns, which reads the
  -- keys and asks the exchange for the balances.
  unfoldable pub gateway_ok : Bool → Settings F → List (Market D) → Bool
  unfolding exchange_of wallet_of
  gateway_ok opens s markets = elim s.execution.mode [
    | disabled ↦ true
    | paper ↦ paper_ok (exchange_of s markets) (wallet_of s)
    | live ↦ opens
  ]

  -- The gateway and the executor.
  unfoldable pub make_executor :
      {J : Type 0} ⦃j : Document J⦄ ⦃p : Parser D⦄
      → Bool
      → Settings F
      → Config F
      → J
      → Option (Option (Setup D F))
  unfolding setup_of gateway_ok
  make_executor opens s config exchange_info = do
    markets ← load_markets config exchange_info
    let setup = setup_of s config markets
    if gateway_ok opens s markets && options_ok setup then some (some setup) else none

  -- In the mode "disabled" there is none.
  unfoldable pub executor_of :
      {J : Type 0} ⦃j : Document J⦄ ⦃p : Parser D⦄
      → Bool
      → Settings F
      → Config F
      → J
      → Option (Option (Setup D F))
  unfolding make_executor
  executor_of opens s config exchange_info = elim s.execution.mode [
    | disabled ↦ some none
    | _ ↦ make_executor opens s config exchange_info
  ]

-- Up to the loop of `main`, with the value that `fetch_exchange_info` has returned. The logger and the
-- receiver, whose files may fail to open, are left out: no other part is made from them.
module _ (J E : Type 0) {D F : Type 0} ⦃j : Message J⦄ ⦃l : Fields J F⦄ ⦃f : Arith F⦄
    ⦃e : Document E⦄ ⦃p : Parser D⦄ ⦃a : Arith D⦄ ⦃w : Wire D⦄ ⦃c : Widen F D⦄ (file : Text → Text)
    (string_of : Text → String) (d : Amounts F) (ends : Endpoints) where
  unfoldable pub start_program : Bool → J → E → Option (Program D F)
  unfolding executor_of config_of
  start_program opens json exchange_info = do
    s ← load_config J file string_of d ends json
    groups ← validate_arbitrage (config_of s []) exchange_info
    let config = config_of s groups
    books ← new_books config
    executor ← executor_of opens s config exchange_info
    some (record { config = config; books = books; executor = executor })
