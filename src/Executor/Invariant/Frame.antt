-- ===== src/Executor/Invariant/Frame.antt =====
-- What `preflight` leaves alone (src/execution/execution.cpp): all but the diagnostics.
use mathlib.Core.Path.{subst}
use mathlib.Core.Option.{some-injective}
use single_exchange_triangul.Common.{
  ℕ, ◌+◌, String, ◌≡◌, ◌⊎◌, inl, inr, Bool, false, none, some, List, [], ◌∷◌, >>=-eq-some,
}
use single_exchange_triangul.Common.Dict.{Dict}
use single_exchange_triangul.Decimal.{Arith, Wire, Widen}
use single_exchange_triangul.Trading.{TradeLeg, items}
use single_exchange_triangul.Executor.Defs.{Setup, Env, Exec}
use single_exchange_triangul.Executor.Cycle.{preflight, preflight_from, preflight_leg, reject_leg}

module _ {D F : Type 0} ⦃a : Arith D⦄ ⦃w : Wire D⦄ ⦃c : Widen F D⦄ where
  module _ (P : Exec D F → Type 0) (u : Setup D F) (v : Env D) (s : Exec D F)
      (bad : (i : ℕ) (code : String) → P (reject_leg i code s))
      (good : P (record s { rejection = none })) where
    pub preflight_from_keeps :
        (i : ℕ) (path : List TradeLeg) (b : Dict D) {r : Exec D F × Bool}
        → preflight_from u v i path b s ≡ some r
        → P r.0
    unfolding preflight_from
    preflight_from_keeps i [] b e =
        subst (λ (x : Exec D F × Bool). P x.0) (some-injective _ _ e) good
    preflight_from_keeps i (leg ∷ path) b {r} e =
        let (x, _, e') = >>=-eq-some (preflight_leg u v s.opportunity i leg b) _ e in
        go x (λ b'. preflight_from_keeps (i + 1) path b') e'
      where
        go :
            (x : Dict D ⊎ String)
            → ((b' : Dict D) → preflight_from u v (i + 1) path b' s ≡ some r → P r.0)
            → elim x [
              | inl b' ↦ preflight_from u v (i + 1) path b' s
              | inr code ↦ some (reject_leg i code s, false)
            ]
              ≡ some r
            → P r.0
        go (inl b') rest e = rest b' e
        go (inr code) rest e =
            subst (λ (x : Exec D F × Bool). P x.0) (some-injective _ _ e) (bad i code)

    pub preflight_keeps : {r : Exec D F × Bool} → preflight u v s ≡ some r → P r.0
    unfolding preflight
    preflight_keeps e = preflight_from_keeps 0 (items s.opportunity.path) s.holdings e
