-- ===== src/Executor/Cleanup.antt =====
-- The clearing of the initial position (src/execution/execution.cpp): `clear_initial_position` and
-- `start_initial_cleanup`. `none` is an exception of `at`.
use text.Mathlib.Text.{◌==◌ as str_eq}
use single_exchange_triangul.Common.{
  ℕ, suc, ◌+◌, ◌*◌, ◌%◌, ◌^◌, String, Bool, true, false, not, ◌&&◌, ◌||◌, Option, none, some, List,
  [], ◌∷◌, ltb, leb, if◌then◌else◌, get_elem?, ◌>>=◌,
}
use single_exchange_triangul.Common.Dict.{Dict, insert}
use single_exchange_triangul.Decimal.{Arith, Wire}
use single_exchange_triangul.Trading.{TradeLeg, OrderBook, Market}
use single_exchange_triangul.Executor.Defs.{
  OrderRequest, Setup, Env, Exec, startup, idle, clearing_initial_position, is_idle, is_halted,
  published, event, armed_timeout, canceled_timeout, armed_cleanup_wait, canceled_cleanup_wait,
  send,
}
use single_exchange_triangul.Executor.Sizing.{
  refused, prepared, fresh, price_of, down, prepare_from_book,
}

unfoldable pub contains : String → List String → Bool
contains k [] = false
contains k (j ∷ js) = str_eq j k || contains k js

unfoldable pub protected_asset : String → Bool
protected_asset asset = str_eq asset "USDT" || str_eq asset "BNB"

-- The search for `exit_leg`, from market `index` on: the first market that sells the asset for USDT,
-- or else the last one that buys USDT with it.
unfoldable pub exit_leg :
    {D : Type 0} → String → ℕ → List (Market D) → Option TradeLeg → Option TradeLeg
exit_leg asset index [] best = best
exit_leg asset index (m ∷ ms) best =
    if str_eq m.base asset && str_eq m.quote "USDT"
    then some (record { index = index; buy = false })
    else exit_leg asset (suc index) ms (
        if str_eq m.base "USDT" && str_eq m.quote asset
        then some (record { index = index; buy = true })
        else best)

-- What one round of the loop decides for its asset. A skip has the code; `dusted` is the skip that
-- also notes the balance as dust.
pub data Clearing : Type 0 where
  skip : String → Clearing
  dusted : Clearing
  wait : Clearing
  submit : OrderRequest → Clearing

-- The readings of the clock that follow the first one.
abbrev pub behind : {D : Type 0} → Env D → Env D
behind v = record v { clock = λ k. v.clock (suc k) }

module _ {D F : Type 0} ⦃a : Arith D⦄ ⦃w : Wire D⦄ where
  -- The round behind a fresh book.
  unfoldable pub clear_at :
      Setup D F → Env D → ℕ → TradeLeg → Market D → OrderBook → D → ℕ → Option Clearing
  clear_at u v now leg m book amount clear_orders =
      let price = price_of book leg.buy in
      let quantity = down (if leg.buy then a.over amount price else amount) m.step in
      if a.le price a.nought
      then some (skip "nonpositive_price")
      else if a.eq quantity a.nought
          || a.lt quantity m.min_qty
          || a.lt (a.times price quantity) m.min_notional
      then some dusted
      else if leb u.options.max_initial_clear_orders clear_orders
      then some (skip "startup_order_limit")
      else prepare_from_book u now leg amount true v.snapshot >>= (λ answer.
        some (elim answer [ refused code ↦ skip code | prepared order ↦ submit order ]))

  -- The round behind the choice of the leg. `fresh` and the test of the deadline read the clock in
  -- turn, and so does `prepare_from_book`.
  unfoldable pub clear_by : Setup D F → Env D → ℕ → TradeLeg → D → Exec D F → Option Clearing
  clear_by u v k leg amount s = do
    m ← get_elem? u.markets leg.index
    slot ← get_elem? v.snapshot leg.index
    let late = ltb (v.clock (3 * k + 1)) s.cleanup_deadline_ns
    elim slot [
      | none ↦ some (if late then wait else skip "missing_orderbook")
      | some book ↦
          if fresh u.options (v.clock (3 * k)) book
          then clear_at u v (v.clock (3 * k + 2)) leg m book amount s.clear_orders
          else some (if late then wait else skip "stale_orderbook")
    ]

  -- The round of an asset that is held and not yet processed.
  unfoldable pub clear_asset : Setup D F → Env D → ℕ → String → D → Exec D F → Option Clearing
  clear_asset u v k asset amount s =
      if protected_asset asset
      then some (skip "protected_asset")
      else elim (exit_leg asset 0 u.markets none) [
        | none ↦ some (skip "no_usdt_market")
        | some leg ↦ clear_by u v k leg amount s
      ]

  -- `skip`.
  unfoldable pub skip_asset : String → String → Exec D F → Exec D F
  skip_asset asset code s = record s {
    cleanup_processed = asset ∷ s.cleanup_processed;
    cleanup_results = insert asset code s.cleanup_results;
    log = event "startup_cleanup_skipped" ∷ s.log;
  }

  unfoldable pub clear_order : Env D → String → OrderRequest → Exec D F → Exec D F
  unfolding send
  clear_order v asset order s = send v order (record s {
    cleanup_processed = asset ∷ s.cleanup_processed;
    clear_orders = (s.clear_orders + 1) % 2 ^ 32;
    cleanup_results = insert asset "submit_attempt" s.cleanup_results;
    log = armed_timeout ∷ s.log;
  })

  unfoldable pub cleanup_finished : Exec D F → Exec D F
  cleanup_finished s = record s {
    cleanup_done = true;
    state = idle;
    pending = none;
    holdings = [];
    log =
        published
        ∷ event "startup_cleanup_finished"
        ∷ canceled_cleanup_wait
        ∷ canceled_timeout
        ∷ s.log;
  }

  -- The loop over the holdings, from asset `k` on, and what follows it.
  unfoldable pub clear_from : Setup D F → Env D → ℕ → Dict D → Bool → Exec D F → Option (Exec D F)
  unfolding contains clear_asset skip_asset clear_order cleanup_finished
  clear_from u v k [] waiting s =
      some (if waiting then record s { log = armed_cleanup_wait ∷ s.log } else cleanup_finished s)
  clear_from u v k ((asset, amount) ∷ rest) waiting s =
      let next = clear_from u v (suc k) rest in
      if a.le amount a.nought || contains asset s.cleanup_processed
      then next waiting s
      else clear_asset u v k asset amount s >>= (λ c. elim c [
        | skip code ↦ next waiting (skip_asset asset code s)
        | dusted ↦
            next waiting (skip_asset asset "dust" (record s { dust = insert asset amount s.dust }))
        | wait ↦ next true s
        | submit order ↦ some (clear_order v asset order s)
      ])

  unfoldable pub clear_initial_position : Setup D F → Env D → Exec D F → Option (Exec D F)
  unfolding clear_from
  clear_initial_position u v s = elim s.pending [
    | some p ↦ some s
    | none ↦
        if s.stopping || is_halted s.state || s.cleanup_done
        then some s
        else clear_from u v 0 s.holdings false s
  ]

  -- The members that `start_initial_cleanup` sets; the clock's reading 0 sets the deadline.
  unfoldable pub open_cleanup : Setup D F → Env D → Exec D F → Exec D F
  open_cleanup u v s = record s {
    cleanup_started = true;
    state = clearing_initial_position;
    cycle = startup v.wall;
    holdings = v.balances;
    cleanup_deadline_ns = v.clock 0 + u.options.initial_cleanup_wait * 1_000_000;
    log = published ∷ event "startup_cleanup_started" ∷ s.log;
  }

  unfoldable pub start_initial_cleanup : Setup D F → Env D → Exec D F → Option (Exec D F)
  unfolding open_cleanup clear_initial_position
  start_initial_cleanup u v s =
      if s.cleanup_started || s.stopping || not (is_idle s.state)
      then some s
      else clear_initial_position u (behind v) (open_cleanup u v s)
