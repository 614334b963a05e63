-- ===== src/Executor/Invariant/Cleanup.antt =====
-- The clearing of the initial position keeps the invariant (src/execution/execution.cpp).
use mathlib.Core.Path.{subst}
use mathlib.Core.Option.{some-injective}
use single_exchange_triangul.Common.{
  ℕ, suc, String, ◌≡◌, ◌≢◌, not, inl, inr, Bool, true, false, none, some, [], ◌∷◌, arith,
  Bool-cases, >>=-eq-some, ◌||◌,
}
use single_exchange_triangul.Common.Dict.{Dict, insert}
use single_exchange_triangul.Decimal.{Arith, Wire}
use single_exchange_triangul.Executor.Defs.{
  Setup, Env, Exec, halted, is_idle, OrderRequest, armed_cleanup_wait,
}
use single_exchange_triangul.Executor.Cleanup.{
  Clearing, skip, dusted, wait, submit, clear_asset, skip_asset, clear_order, cleanup_finished,
  clear_from, clear_initial_position, open_cleanup, start_initial_cleanup, contains, behind,
}
use single_exchange_triangul.Executor.Clearing.{clear_asset-submit}
use single_exchange_triangul.Executor.Invariant.{Inv, Ready}

or_false_right : (x y : Bool) → (x || y) ≡ false → y ≡ false
or_false_right x y e = ground arith

module _ {D F : Type 0} ⦃a : Arith D⦄ ⦃w : Wire D⦄ (u : Setup D F) where
  -- A rule for the loop: `P` holds along it, and `Q` of what it leaves.
  pub record LoopRule (v : Env D) (P Q : Exec D F → Type 0) : Type 0 where
    pub skips : (asset code : String) (s : Exec D F) → P s → P (skip_asset asset code s)
    pub dusts :
        (asset : String) (amount : D) (s : Exec D F)
        → P s
        → P (record s { dust = insert asset amount s.dust })
    pub sends :
        (k : ℕ) (asset : String) (amount : D) (o : OrderRequest) (s : Exec D F)
        → P s
        → contains asset s.cleanup_processed ≡ false
        → clear_asset u v k asset amount s ≡ some (submit o)
        → Q (clear_order v asset o s)
    pub waits : (s : Exec D F) → P s → Q (record s { log = armed_cleanup_wait ∷ s.log })
    pub ends : (s : Exec D F) → P s → Q (cleanup_finished s)

  pub clear_from_rule :
      (v : Env D) {P Q : Exec D F → Type 0}
      → LoopRule v P Q
      → (k : ℕ) (held : Dict D) (waiting : Bool) (s : Exec D F) {t : Exec D F} → P s
      → clear_from u v k held waiting s ≡ some t
      → Q t
  unfolding clear_from
  clear_from_rule v {Q = Q} rule k [] true s p e = subst Q (some-injective _ _ e) (rule.waits s p)
  clear_from_rule v {Q = Q} rule k [] false s p e = subst Q (some-injective _ _ e) (rule.ends s p)
  clear_from_rule v {P} {Q} rule k ((asset, amount) ∷ rest) waiting s {t} p e =
      let next = λ (b : Bool) (s' : Exec D F). clear_from_rule v rule (suc k) rest b s' {t = t} in
      elim (Bool-cases (a.le amount a.nought || contains asset s.cleanup_processed)) [
        | inl over ↦ next waiting s p (rw over at e)
        | inr held ↦
            let (x, e₁, e₂) = >>=-eq-some (clear_asset u v k asset amount s) _ (rw held at e) in
            go next x (or_false_right _ _ held) e₁ e₂
      ]
    where
      go :
          ((b : Bool) (s' : Exec D F) → P s' → clear_from u v (suc k) rest b s' ≡ some t → Q t)
          → (x : Clearing) → contains asset s.cleanup_processed ≡ false
          → clear_asset u v k asset amount s ≡ some x
          → elim x [
            | skip code ↦ clear_from u v (suc k) rest waiting (skip_asset asset code s)
            | dusted ↦
                clear_from u v
                  (suc k)
                  rest
                  waiting
                  (skip_asset asset "dust" (record s { dust = insert asset amount s.dust }))
            | wait ↦ clear_from u v (suc k) rest true s
            | submit order ↦ some (clear_order v asset order s)
          ]
            ≡ some t
          → Q t
      go next (skip code) new e₁ e₂ = next waiting _ (rule.skips asset code s p) e₂
      go next dusted new e₁ e₂ =
          next waiting _ (rule.skips asset "dust" _ (rule.dusts asset amount s p)) e₂
      go next wait new e₁ e₂ = next true s p e₂
      go next (submit order) new e₁ e₂ =
          subst Q (some-injective _ _ e₂) (rule.sends k asset amount order s p new e₁)

-- The loop runs with no order outstanding, before a halt.
pub record Clears {D F : Type 0} (u : Setup D F) (s : Exec D F) : Type 0 where
  pub inv : Inv u s
  pub running : s.state ≢ halted
  pub none_pending : s.pending ≡ none

module _ {D F : Type 0} {u : Setup D F} where
  Clears-Ready : {s : Exec D F} → Clears u s → Ready u s
  Clears-Ready {s} k = let i = k.inv in ground arith

  cleanup_finished-Inv :
      ⦃a : Arith D⦄ ⦃w : Wire D⦄ {s : Exec D F} → Clears u s → Inv u (cleanup_finished s)
  unfolding cleanup_finished
  cleanup_finished-Inv {s} k = let i = k.inv in ground (arith, Clears-Ready k)

module _ {D F : Type 0} ⦃a : Arith D⦄ ⦃w : Wire D⦄ (u : Setup D F) (v : Env D) where
  clear_order-Inv :
      (asset : String) (o : OrderRequest) (s : Exec D F)
      → Clears u s
      → o.initial_clear ≡ true
      → Inv u (clear_order v asset o s)
  unfolding clear_order
  clear_order-Inv asset o s k e = ground (arith, Clears-Ready k)

  Inv-rule : LoopRule u v (Clears u) (Inv u)
  unfolding skip_asset
  Inv-rule = record {
    skips = λ asset code s k. let i = k.inv in ground arith;
    dusts = λ asset amount s k. let i = k.inv in ground arith;
    sends = λ k asset amount o s p _ e.
        clear_order-Inv asset o s p (clear_asset-submit u v k asset amount s e).initial_clear;
    waits = λ s k. let i = k.inv in ground arith;
    ends = λ s k. cleanup_finished-Inv k;
  }

  pub clear_initial_position-Inv :
      {s t : Exec D F} → Inv u s → clear_initial_position u v s ≡ some t → Inv u t
  unfolding clear_initial_position
  clear_initial_position-Inv {s} {t} i e = ground (
    arith,
    λ (h : s.state ≢ halted) (n : s.pending ≡ none).
        clear_from_rule u v Inv-rule 0 s.holdings false s {t = t}
          (record { inv = i; running = h; none_pending = n }),
  )

module _ {D F : Type 0} ⦃a : Arith D⦄ ⦃w : Wire D⦄ (u : Setup D F) (v : Env D) where
  open_cleanup-Inv : {s : Exec D F} → is_idle s.state ≡ true → Inv u s → Inv u (open_cleanup u v s)
  unfolding open_cleanup
  open_cleanup-Inv h i = ground arith

  pub start_initial_cleanup-Inv :
      {s t : Exec D F} → Inv u s → start_initial_cleanup u v s ≡ some t → Inv u t
  unfolding start_initial_cleanup
  start_initial_cleanup-Inv {s} {t} i e =
      elim (Bool-cases (s.cleanup_started || s.stopping || not (is_idle s.state))) [
        | inl out ↦ subst (Inv u) (some-injective _ _ (rw out at e)) i
        | inr in_order ↦
            clear_initial_position-Inv u (behind v) {s = open_cleanup u v s} {t = t}
              (open_cleanup-Inv {s = s} (ground arith) i) (rw in_order at e)
      ]
