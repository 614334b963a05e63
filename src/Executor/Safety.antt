-- ===== src/Executor/Safety.antt =====
-- What any history of the executor keeps to (src/execution/execution.cpp).
use single_exchange_triangul.Common.{
  ◌≤◌, ◌<◌, ◌^◌, ◌≡◌, inl, inr, Bool, true, false, none, some, List, arith, Bool-cases, length,
  get_elem?-lt,
}
use single_exchange_triangul.Decimal.{Arith, Wire, Widen}
use single_exchange_triangul.Executor.Defs.{
  Setup, Env, Exec, OrderRequest, OrderReport, idle, leg_pending, same_id, is_unknown, give_up,
  first_leg_event,
}
use single_exchange_triangul.Executor.Report.{
  callback, accept_report, release, note_report, account, invalid_fill,
}
use single_exchange_triangul.Executor.Machine.{Event, run, fresh_exec}
use single_exchange_triangul.Executor.Invariant.{Inv}
use single_exchange_triangul.Executor.Invariant.Run.{AllProper, run-fresh_exec-Inv}

module _ {D F : Type 0} ⦃a : Arith D⦄ ⦃f : Arith F⦄ ⦃w : Wire D⦄ ⦃c : Widen F D⦄
    (u : Setup D F) where
  -- In any history without stream reports whose callbacks count revisions from 1, with a cap that is
  -- a `std::size_t`, the executor is idle only while no gateway call is outstanding, no order is
  -- pending and no timed-out cycle waits.
  pub idle_is_free :
      (es : List (Env D × Event D F)) {t : Exec D F}
      → u.options.max_cycles < 2 ^ 64
      → AllProper u es
      → run u es fresh_exec ≡ some t
      → t.state ≡ idle
      → (t.gateway_busy ≡ false) × (t.pending ≡ none) × (t.waiting_gateway ≡ false)
  idle_is_free es h q e idle_now = let i = run-fresh_exec-Inv u es h q e in ground arith

  -- The slot is free, the gateway's member is `busy`.
  abbrev pub Freed : Bool → Exec D F → Type 0
  Freed busy t =
      (t.state ≡ idle) × (t.pending ≡ none) × (t.gateway_busy ≡ busy) × (t.waiting_gateway ≡ false)

  -- A report with an outcome and a possible fill ends the wait, whatever the gateway's member is.
  accept_report_frees :
      (v : Env D) (r : OrderReport D) (p : OrderRequest) (s : Exec D F)
      → s.waiting_gateway ≡ true
      → is_unknown r.status ≡ false
      → invalid_fill (w.of_text p.quantity) r s.accounted ≡ false
      → p.symbol_index < length u.markets
      → (t : Exec D F) × (accept_report u v p r s ≡ some t) × Freed s.gateway_busy t
  unfolding accept_report
  accept_report_frees v r p s wt known good within =
      let (m, e) = get_elem?-lt u.markets p.symbol_index within in
      (release (account p r m s), ground arith, ground arith)

  accept_report-Freed :
      (v : Env D) (r : OrderReport D) (p : OrderRequest) (s : Exec D F)
      → p.initial_clear ≡ false
      → s.waiting_gateway ≡ true
      → s.gateway_busy ≡ false
      → p.symbol_index < length u.markets
      → (t : Exec D F) × (accept_report u v p r s ≡ some t) × Freed false t
  unfolding accept_report
  accept_report-Freed v r p s cycle wt free within = elim (Bool-cases (is_unknown r.status)) [
    | inl lost ↦ (
      give_up p "Order outcome unknown"
          (record s { log = first_leg_event "arbitrage_first_leg_report" p s s.log }),
      ground arith,
      ground arith,
    )
    | inr known ↦ elim (Bool-cases (invalid_fill (w.of_text p.quantity) r s.accounted)) [
      | inl bad ↦ (give_up p "Invalid cumulative fill" s, ground arith, ground arith)
      | inr good ↦
          let (t, e, done) = accept_report_frees v r p s wt known good within in
          (t, e, ground arith)
    ]
  ]

  -- In a state that keeps the invariant of the histories without stream reports, in which no report
  -- has been accounted while the gateway call is outstanding, and for an order of a market that the
  -- executor has: a cycle that timed out while its gateway call was outstanding is over as soon as the
  -- callback comes with the order's id and a revision of at least 1, whatever it reports: the handler
  -- returns, and leaves the executor idle with no order and no call outstanding.
  pub timed_out_cycle_released :
      (v : Env D) (r : OrderReport D) (p : OrderRequest) (s : Exec D F)
      → Inv u s
      → s.state ≡ leg_pending
      → s.waiting_gateway ≡ true
      → s.pending ≡ some p
      → same_id r.client_id p.client_id ≡ true
      → 1 ≤ r.revision
      → p.symbol_index < length u.markets
      → (t : Exec D F) × (callback u v r s ≡ some t) × Freed false t
  unfolding callback
  timed_out_cycle_released v r p s i lp wt out same rev within =
      let s' : Exec D F = note_report v r (record s { gateway_busy = false }) in
      let (t, e, done) =
        accept_report-Freed v r p s' (ground arith) (ground arith) (ground arith) within in
      (t, ground arith, done)
