-- ===== src/Executor/Cycle.antt =====
-- The handlers of an arbitrage cycle up to its first order (src/execution/execution.cpp): `start`,
-- `begin`, `start_arbitrage`, `preflight` and `next_leg`. `none` is an exception of `at`.
use Prim.Native.String.{◌++◌ as str_append}
use single_exchange_triangul.Common.{
  ℕ, ◌+◌, String, Bool, true, false, not, ◌&&◌, ◌||◌, ◌⊎◌, inl, inr, Option, none, some, List, [],
  ◌∷◌, ◌==◌, leb, if◌then◌else◌, get_elem?, ◌>>=◌, inc64, length,
}
use single_exchange_triangul.Common.Dict.{Dict, lookup, insert, find_or}
use single_exchange_triangul.Decimal.{Arith, Wire, Widen}
use single_exchange_triangul.Trading.{TradeLeg, TradePath, ArbitrageOpportunity, Market, items}
use single_exchange_triangul.Executor.Defs.{
  Setup, Env, Exec, numbered, validating, is_idle, is_validating, published, posted_begin,
  armed_timeout, finish, send,
}
use single_exchange_triangul.Executor.Sizing.{
  refused, prepared, prepare_from_book, prepare_fast, accepted_price,
}

-- `m[k] += d` and `m[k] -= d`: a missing key counts from zero.
module _ {D : Type 0} ⦃a : Arith D⦄ where
  unfoldable pub add_to : String → D → Dict D → Dict D
  add_to k d m = insert k (a.plus (find_or a.nought k m) d) m

  unfoldable pub take_from : String → D → Dict D → Dict D
  take_from k d m = insert k (a.minus (find_or a.nought k m) d) m

  -- A read `m[k]` puts a zero under a missing key.
  unfoldable pub touch : String → Dict D → Dict D
  touch k m = insert k (find_or a.nought k m) m

  -- The simulated proceeds of one leg.
  unfoldable pub settle_leg : Market D → D → TradeLeg → D → D → Dict D → Dict D
  unfolding add_to take_from
  settle_leg m fee leg price quantity b =
      if leg.buy
      then add_to m.base (a.times quantity fee) (take_from m.quote (a.times price quantity) b)
      else add_to m.quote (a.times (a.times quantity price) fee) (take_from m.base quantity b)

  -- `(leg.buy && price > accepted_price) || (!leg.buy && price < accepted_price)`.
  unfoldable pub worsened : TradeLeg → D → D → Bool
  worsened leg price best = (leg.buy && a.lt best price) || (not leg.buy && a.lt price best)

-- The asset that a leg pays with.
abbrev pub spends : {D : Type 0} → Market D → Bool → String
spends m buy = if buy then m.quote else m.base

abbrev pub same_leg : TradeLeg → TradeLeg → Bool
same_leg p q = p.index == q.index && (if p.buy then q.buy else not q.buy)

-- The lambda of `known`: the two paths agree at each leg.
unfoldable pub same_path : List TradeLeg → List TradeLeg → Bool
same_path [] [] = true
same_path (p ∷ ps) (q ∷ qs) = same_leg p q && same_path ps qs
same_path _ _ = false

-- `known`.
unfoldable pub known_path : TradePath → TradePath × TradePath → Bool
unfolding same_path
known_path path (p, q) = same_path (items p) (items path) || same_path (items q) (items path)

module _ {D F : Type 0} where
  -- `failed = true; reason = why; finish()`.
  unfoldable pub fail_with : String → Exec D F → Exec D F
  unfolding finish
  fail_with why s = finish (record s { failed = true; reason = why })

  -- The refusal of `begin`.
  unfoldable pub insufficient : Exec D F → Exec D F
  unfolding fail_with
  insufficient s = fail_with "Insufficient USDT" (record s {
    rejection =
        some (record { stage = "balance_check"; leg = none; code = some "insufficient_usdt" });
  })

module _ {D F : Type 0} ⦃f : Arith F⦄ where
  -- The guards of `start` behind the state and the limit.
  unfoldable pub acceptable : Setup D F → ArbitrageOpportunity F → Bool
  unfolding known_path
  acceptable u o = elim (get_elem? u.config.trading_groups o.group_index) [
    | none ↦ false
    | some group ↦
        not (f.le o.input_usdt f.nought)
        && not (f.lt u.config.max_arbitrage_usdt o.input_usdt)
        && known_path o.path group.paths
  ]

  unfoldable pub limit_reached : Setup D F → Exec D F → Bool
  limit_reached u s = not (u.options.max_cycles == 0) && leb u.options.max_cycles s.submitted_cycles

module _ {D F : Type 0} ⦃f : Arith F⦄ ⦃c : Widen F D⦄ where
  -- `start`, the new state and its answer. The latency marks are not modelled.
  unfoldable pub start : Setup D F → Env D → ArbitrageOpportunity F → Exec D F → Exec D F × Bool
  unfolding acceptable limit_reached
  start u v o s =
      if not (is_idle s.state) || s.stopping
      then (record s { rejected_busy = inc64 s.rejected_busy }, false)
      else if limit_reached u s
      then (record s { rejected_limit = inc64 s.rejected_limit; log = published ∷ s.log }, false)
      else if not (acceptable u o)
      then (s, false)
      else (
        record s {
          cycle_started_ns = v.clock 0;
          previous_report_ns = 0;
          state = validating;
          opportunity = o;
          budget = c.of_float o.input_usdt;
          failed = false;
          cycle_submitted = false;
          reason = "";
          rejection = none;
          order_failure = none;
          pending = none;
          holdings = [];
          leg_number = 0;
          order_number = 0;
          next_cycle = inc64 s.next_cycle;
          cycle = numbered v.wall (inc64 s.next_cycle);
          accepted = inc64 s.accepted;
          log = posted_begin ∷ armed_timeout ∷ published ∷ s.log;
        },
        true,
      )

module _ {D F : Type 0} ⦃a : Arith D⦄ ⦃w : Wire D⦄ ⦃c : Widen F D⦄ where
  unfoldable pub next_leg : Setup D F → Env D → Exec D F → Option (Exec D F)
  unfolding touch fail_with finish send prepare_fast
  next_leg u v s = if s.leg_number == length (items s.opportunity.path) then some (finish s) else do
    leg ← get_elem? (items s.opportunity.path) s.leg_number
    m ← get_elem? u.markets leg.index
    let asset = spends m leg.buy
    order ← prepare_fast u s.opportunity leg (find_or a.nought asset s.holdings) s.leg_number
    let touched = record s { holdings = touch asset s.holdings }
    elim order [
      | none ↦ some (fail_with "Cannot size next leg" touched)
      | some o ↦ some (send v o touched)
    ]

  -- `Decimal(1) - Decimal(nlohmann::json(config.commission_taker).dump())`.
  abbrev fee_of : Setup D F → D
  fee_of u = a.minus a.one (w.of_text (c.dump u.config.commission_taker))

  unfoldable pub reject_leg : ℕ → String → Exec D F → Exec D F
  reject_leg i code s = record s {
    rejection = some (record { stage = "initial_preflight"; leg = some i; code = some code });
    reason = str_append "Initial preflight failed: " code;
  }

  -- One round of the loop of `preflight`: the balances behind the leg, or a refusal's code.
  unfoldable pub preflight_leg :
      Setup D F → Env D → ArbitrageOpportunity F → ℕ → TradeLeg → Dict D → Option (Dict D ⊎ String)
  unfolding worsened settle_leg prepare_from_book accepted_price
  preflight_leg u v o i leg b = do
    m ← get_elem? u.markets leg.index
    answer ←
        prepare_from_book u (v.clock i) leg (find_or a.nought (spends m leg.buy) b) false v.snapshot
    elim answer [
      | refused code ↦ some (inr code)
      | prepared order ↦ do
        scanned ← get_elem? (items o.prices) i
        let price = w.of_text order.price
        some (
            if worsened leg price (accepted_price m (c.of_float scanned))
            then inr "price_worsened"
            else inl (
                settle_leg m (fee_of u) leg price (w.of_text order.quantity)
                  (touch (spends m leg.buy) b)))
    ]

  -- The loop of `preflight`, from leg `i` on.
  unfoldable pub preflight_from :
      Setup D F → Env D → ℕ → List TradeLeg → Dict D → Exec D F → Option (Exec D F × Bool)
  unfolding reject_leg
  preflight_from u v i [] b s = some (record s { rejection = none }, true)
  preflight_from u v i (leg ∷ path) b s = preflight_leg u v s.opportunity i leg b >>= (λ answer.
      elim answer [
        | inl b' ↦ preflight_from u v (i + 1) path b' s
        | inr code ↦ some (reject_leg i code s, false)
      ])

  unfoldable pub preflight : Setup D F → Env D → Exec D F → Option (Exec D F × Bool)
  unfolding preflight_from
  preflight u v s = preflight_from u v 0 (items s.opportunity.path) s.holdings s

  unfoldable pub start_arbitrage : Setup D F → Env D → Exec D F → Option (Exec D F)
  unfolding fail_with finish next_leg preflight
  start_arbitrage u v s = do
    r ← preflight u v (record s { holdings = ("USDT", s.budget) ∷ [] })
    if r.1
        then next_leg u v (record (r.0) { leg_number = 0 })
        else some (finish (record (r.0) { failed = true }))

  unfoldable pub begin : Setup D F → Env D → Exec D F → Option (Exec D F)
  unfolding start_arbitrage insufficient
  begin u v s =
      if not (is_validating s.state) || s.stopping
      then some s
      else elim (lookup "USDT" v.balances) [
        | none ↦ some (insufficient s)
        | some usdt ↦ if a.lt usdt s.budget then some (insufficient s) else start_arbitrage u v s
      ]
