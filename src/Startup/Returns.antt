-- ===== src/Startup/Returns.antt =====
-- Which parts may refuse to start (src/main.cpp).
use single_exchange_triangul.Common.{
  ◌≡◌, ◌≢◌, ◌⊎◌, inl, inr, refl, String, Bool, true, false, ◌==◌, none, some, List, [], arith,
  length, replicate,
}
use single_exchange_triangul.Decimal.{Arith, Wire, Widen, Text}
use single_exchange_triangul.Trading.{TradeGroup, Market, Config}
use single_exchange_triangul.Depth.{Message}
use single_exchange_triangul.Json.{Document, Parser}
use single_exchange_triangul.Arbitrage.{validate_arbitrage}
use single_exchange_triangul.Arbitrage.Groups.{validated_groups_ok}
use single_exchange_triangul.Markets.{load_markets}
use single_exchange_triangul.Markets.Loaded.{loaded_markets}
use single_exchange_triangul.Books.{Books, groups_ok, new_books}
use single_exchange_triangul.Paper.{paper_ok, balances_ok}
use single_exchange_triangul.Executor.Defs.{Setup, options_ok}
use single_exchange_triangul.Settings.{
  Fields, Settings, Amounts, Endpoints, Mode, disabled, paper, live, amount_ok, commission_ok,
  threshold_ok, load_config,
}
use single_exchange_triangul.Startup.{
  Program, config_of, setup_of, exchange_of, wallet_of, gateway_ok, make_executor, executor_of,
  start_program,
}
use single_exchange_triangul.Startup.Ranges.{InRange, load_config-Loaded}

-- What the number types do at the values that `load_config` lets pass.
pub record Tame {D F : Type 0} (f : Arith F) (a : Arith D) (w : Wire D) (c : Widen F D)
    : Type 0 where
  -- 1 less a commission is above 0 and not above 1.
  pub remainder :
      (x : F)
      → commission_ok ⦃f = f⦄ x ≡ true
      → (f.finite (f.minus f.one x) ≡ true)
        × (f.le (f.minus f.one x) f.nought ≡ false)
        × (f.lt f.one (f.minus f.one x) ≡ false)
  -- The text of a commission reads as a commission, and an amount is one as a Decimal.
  pub commission :
      (x : F)
      → commission_ok ⦃f = f⦄ x ≡ true
      → (a.finite (w.of_text (c.dump x)) ≡ true)
        × (a.lt (w.of_text (c.dump x)) a.nought ≡ false)
        × (a.le a.one (w.of_text (c.dump x)) ≡ false)
  pub amount :
      (x : F)
      → amount_ok ⦃f = f⦄ x ≡ true
      → (a.finite (c.of_float x) ≡ true) × (a.lt (c.of_float x) a.nought ≡ false)

Mode-cases : (m : Mode) → (m ≡ disabled) ⊎ (m ≢ disabled)
Mode-cases disabled = inl refl
Mode-cases paper = inr (λ e. cc)
Mode-cases live = inr (λ e. cc)

module _ {D F : Type 0} ⦃f : Arith F⦄ ⦃a : Arith D⦄ ⦃w : Wire D⦄ ⦃c : Widen F D⦄
    (tame : Tame f a w c) (s : Settings F) (range : InRange s.amounts) where
  new_books-returns :
      (groups : List TradeGroup)
      → groups_ok (length s.names.symbols) groups ≡ true
      → (b : Books F) × (new_books (config_of s groups) ≡ some b)
  unfolding new_books config_of amount_ok threshold_ok
  new_books-returns groups ok =
      let fee = f.minus f.one s.amounts.commission_taker in
      let b : Books F = record {
        indices = s.names.symbol_indices;
        orderbooks = replicate (length s.names.symbols) none;
        groups = groups;
        max_arbitrage_usdt = s.amounts.max_arbitrage_usdt;
        fee_multiplier = fee;
        edge_threshold = s.amounts.edge_threshold;
        populated = 0;
        received = 0;
      } in
      let fee_ok = tame.remainder s.amounts.commission_taker range.commission in
      (b, ground (arith, fee_ok, range.amount, range.threshold))

  paper_returns :
      (markets : List (Market D)) → paper_ok (exchange_of s markets) (wallet_of s) ≡ true
  unfolding paper_ok balances_ok exchange_of wallet_of
  paper_returns markets = ground (
    arith,
    tame.commission s.amounts.commission_taker range.commission,
    tame.amount s.amounts.max_arbitrage_usdt range.amount,
  )

  gateway_returns :
      (opens : Bool) (markets : List (Market D))
      → (s.execution.mode ≡ live → opens ≡ true)
      → gateway_ok opens s markets ≡ true
  unfolding gateway_ok
  gateway_returns opens markets h = ground (arith, h, paper_returns markets)

  options_return :
      (config : Config F) (markets : List (Market D))
      → (s.execution.timeout_ms == 0) ≡ false
      → length markets ≡ length config.symbols
      → options_ok (setup_of s config markets) ≡ true
  unfolding options_ok setup_of
  options_return config markets timeout size = ground arith

module _ (J E : Type 0) {D F : Type 0} ⦃j : Message J⦄ ⦃l : Fields J F⦄ ⦃f : Arith F⦄
    ⦃e : Document E⦄ ⦃p : Parser D⦄ ⦃a : Arith D⦄ ⦃w : Wire D⦄ ⦃c : Widen F D⦄ (file : Text → Text)
    (string_of : Text → String) (d : Amounts F) (ends : Endpoints) where
  -- The gateway and the executor, where the mode asks for them.
  make_executor-returns :
      Tame f a w c
      → (s : Settings F) (opens : Bool) (config : Config F) (info : E) {ms : List (Market D)}
      → InRange s.amounts
      → (s.execution.timeout_ms == 0) ≡ false
      → load_markets config info ≡ some ms
      → (s.execution.mode ≡ live → opens ≡ true)
      → make_executor opens s config info ≡ some (some (setup_of s config ms))
  unfolding make_executor
  make_executor-returns tame s opens config info {ms} range timeout loaded h =
      let (symbols, _, size, _) = loaded_markets config info {ms = ms} loaded in
      let gate = gateway_returns tame s range opens ms h in
      let options = options_return tame s range config ms timeout size in
      ground (arith, loaded, gate, options)

  -- A configuration that `load_config` takes, of which `validate_arbitrage` finds the groups and, but in
  -- the mode "disabled", `load_markets` the markets, makes a program: neither the order books nor the
  -- paper gateway nor the executor refuses it, and the live gateway alone may, for its keys or the
  -- exchange. The books and the executor have the same configuration. That the number types round
  -- the values as `Tame` says is assumed.
  pub start_program_returns :
      Tame f a w c
      → (opens : Bool) (json : J) (info : E) {s : Settings F} {groups : List TradeGroup}
      → load_config J file string_of d ends json ≡ some s
      → validate_arbitrage (config_of s []) info ≡ some groups
      → (s.execution.mode ≢ disabled
          → (ms : List (Market D)) × (load_markets (config_of s groups) info ≡ some ms))
      → (s.execution.mode ≡ live → opens ≡ true)
      → (q : Program D F) × (start_program J E file string_of d ends opens json info ≡ some q)
        × (q.config ≡ config_of s groups)
        × (new_books q.config ≡ some q.books)
        × ((s.execution.mode ≡ disabled) × (q.executor ≡ none)
            ⊎ ((u : Setup D F) × (q.executor ≡ some u) × (u.config ≡ q.config)))
  unfolding start_program executor_of
  start_program_returns tame opens json info {s} {groups} loaded found listed opened =
      let known = load_config-Loaded J file string_of d ends json {s = s} loaded in
      let ok = validated_groups_ok (config_of s []) info {groups = groups} found in
      let (b, made) = new_books-returns tame s known.amounts groups (unfold config_of in ok) in
      let config = config_of s groups in
      elim (Mode-cases s.execution.mode) [
        | inl off ↦
            let q : Program D F = record { config = config; books = b; executor = none } in
            (q, ground (arith, loaded, found, made, off), refl, made, inl (off, refl))
        | inr on ↦
            let (ms, read) = listed on in
            let u = setup_of s config ms in
            let q : Program D F = record { config = config; books = b; executor = some u } in
            let executor =
              make_executor-returns tame s opens config info {ms = ms} known.amounts known.timeout
                read opened in
            (
              q,
              ground (arith, loaded, found, made, on, executor),
              refl,
              made,
              inr (u, refl, unfold setup_of in refl),
            )
      ]
