-- ===== src/Binance/Counted.antt =====
-- The revisions that one operation counts, in `BinanceGateway` (src/execution/binance_gateway.cpp).
use mathlib.Core.Path.{◌∙◌, ap, subst, sym}
use single_exchange_triangul.Common.Dict.{Dict}
use single_exchange_triangul.Common.Int.{ℤ}
use single_exchange_triangul.Trading.{Market}
use single_exchange_triangul.Common.{
  ℕ, String, ◌≡◌, refl, ◌⊎◌, inl, inr, Bool, true, false, Option, none, some, List, arith,
}
use single_exchange_triangul.Decimal.{Arith}
use single_exchange_triangul.Executor.Defs.{ClientId, OrderRequest, OrderReport}
use single_exchange_triangul.Json.{Document, Parser}
use single_exchange_triangul.Binance.{
  http_get, http_delete, Value, Method, Target, World, Access, Gateway, http_post, request,
  signed_target, checked, attempt, ◌>>=◌,
}
use single_exchange_triangul.Binance.Accounts.{
  next_revision, count_revision, apply_report, take_revision,
}
use single_exchange_triangul.Binance.Orders.{
  cancel_steps, named, submit_steps, order_parameters, query_now, note_order, fetch_trades,
  parse_order,
}
use single_exchange_triangul.Binance.Post.{
  Post, returns, >>=-Post, weaken, attempt_then, attempt-state, during_then, always_then, always,
  during-Post,
}

-- The revisions stand at `m`.
abbrev Stands : {A D : Type 0} → List (ClientId × ℕ) → A → Gateway D → Type 0
Stands m a s = s.revisions ≡ m

module _ {J D : Type 0} where
  request-revisions :
      (w : World J) (method : Method) (target : Target) (s : Gateway D)
      → (request w method target s).1.revisions ≡ s.revisions
  unfolding request
  request-revisions w method target s = ground arith

  pub signed_target-revisions :
      (x : Access D) (w : World J) (path : String) (query : Dict Value) (s : Gateway D)
      → (signed_target x w path query s).1.revisions ≡ s.revisions
  unfolding signed_target
  signed_target-revisions x w path query s = ground arith

module _ {J D : Type 0} ⦃j : Document J⦄ where
  pub checked-revisions :
      (w : World J) (method : Method) (target : Target) (placing : Bool) (s : Gateway D)
      → (checked w method target placing s).1.revisions ≡ s.revisions
  unfolding checked ◌>>=◌
  checked-revisions w method target placing s = ground (arith, request-revisions w method target s)

module _ {D : Type 0} where
  -- A report with the first revision after `m`, and the revisions counted once.
  abbrev pub Counted : ClientId → List (ClientId × ℕ) → OrderReport D → Gateway D → Type 0
  Counted id m r s =
      (s.revisions ≡ count_revision id m) × (r.revision ≡ next_revision id m) × (r.client_id ≡ id)

  apply_report-revisions :
      ⦃a : Arith D⦄ (x : Access D) (q : OrderRequest) (r : OrderReport D) (s : Gateway D)
      → (apply_report x q r s).1.revisions ≡ s.revisions
  unfolding apply_report
  apply_report-revisions x q r s = ground arith

module _ {J D : Type 0} ⦃j : Document J⦄ where
  note_order-revisions :
      (id : ClientId) (order : J) (s : Gateway D)
      → (note_order id order s).1.revisions ≡ s.revisions
  unfolding note_order ◌>>=◌ attempt
  note_order-revisions id order s = ground arith

  fetch_trades-revisions :
      (x : Access D) (w : World J) (m : Market D) (id : ℤ) (s : Gateway D)
      → (fetch_trades x w m id s).1.revisions ≡ s.revisions
  unfolding fetch_trades ◌>>=◌
  fetch_trades-revisions x w m id s =
      ground (arith, signed_target-revisions x w, checked-revisions w)

module _ {D : Type 0} where
  take_revision-Post :
      (id : ClientId) (m : List (ClientId × ℕ)) (s : Gateway D)
      → s.revisions ≡ m
      → Post
          (λ r u. (u.revisions ≡ count_revision id m) × (r ≡ next_revision id m))
          (Stands (count_revision id m))
          (take_revision id s)
  take_revision-Post id m s e = returns (ap (count_revision id) e, ap (next_revision id) e)

module _ {J D : Type 0} ⦃j : Document J⦄ ⦃p : Parser D⦄ ⦃a : Arith D⦄ where
  parse_order-Counted :
      (q : OrderRequest) (order : J) (trades : Option (List J)) (m : List (ClientId × ℕ))
      (s : Gateway D)
      → s.revisions ≡ m
      → Post
          (Counted q.client_id m)
          (Stands (count_revision q.client_id m))
          (parse_order q order trades s)
  unfolding parse_order
  parse_order-Counted q order trades m s e =
      >>=-Post _ _ _ (take_revision-Post q.client_id m s e) (λ r u (counted, first).
        attempt_then _ _ _
          (λ status e₁.
            attempt_then _ _ _
              (λ qty e₂.
                attempt_then _ _ _
                  (λ quote e₃.
                    >>=-Post _ _ _ (always _ (note_order-revisions q.client_id order u ∙ counted))
                      (λ noted t stands. >>=-Post _ _ _ (returns stands) (λ own v stands.
                        attempt_then _ _ _ (λ sums e₄. returns (stands, first, refl)) stands)))
                  counted)
              counted)
          counted)

  pub query_now-Counted :
      (x : Access D) (w : World J) (q : OrderRequest) (m : List (ClientId × ℕ)) (s : Gateway D)
      → s.revisions ≡ m
      → Post
          (Counted q.client_id m)
          (λ e t. (t.revisions ≡ m) ⊎ (t.revisions ≡ count_revision q.client_id m))
          (query_now x w q s)
  unfolding query_now
  query_now-Counted x w q m s e =
      let at_m : Gateway D → Type 0 = λ t. t.revisions ≡ m in
      attempt_then _ _ _
        (λ market e₁.
          always_then at_m _ _ _
            (signed_target-revisions x w "/api/v3/order" (named market q) s ∙ e) (λ f t i. inl i)
            (λ target t e₂.
              always_then at_m _ _ _ (checked-revisions w http_get target false t ∙ e₂)
                (λ f t i. inl i)
                (λ order t₂ e₃.
                  attempt_then _ _ _
                    (λ id e₄.
                      always_then at_m _ _ _ e₃ (λ f t i. inl i)
                        (λ noted t₃ e₅.
                          attempt_then _ _ _
                            (λ executed e₆.
                              always_then at_m _ _ _
                                (ground (arith, fetch_trades-revisions x w market id t₃))
                                (λ f t i. inl i)
                                (λ trades t₄ e₇.
                                  >>=-Post _ _ _
                                    (weaken _ (parse_order-Counted q order (some trades) m t₄ e₇)
                                      (λ r u i. i) (λ f u i. inr i))
                                    (λ r u (i, first, id_kept).
                                      always_then (λ t. t.revisions ≡ count_revision q.client_id m)
                                        _ _ _ (apply_report-revisions x q r u ∙ i) (λ f t i. inr i)
                                        (λ applied t₅ i. returns (i, first, id_kept)))))
                            (inl e₅)))
                    (inl e₃))))
        (inl e)

  pub submit_steps-Counted :
      (x : Access D) (w : World J) (q : OrderRequest) (m : List (ClientId × ℕ)) (s : Gateway D)
      → s.revisions ≡ m
      → Post
          (Counted q.client_id m)
          (λ e t. (t.revisions ≡ m) ⊎ (t.revisions ≡ count_revision q.client_id m))
          (submit_steps x w q s)
  unfolding submit_steps
  submit_steps-Counted x w q m s e =
      let at_m : Gateway D → Type 0 = λ t. t.revisions ≡ m in
      during_then at_m _ _ _ _ (subst at_m (sym (attempt-state _ s)) e) (λ f t i. inl i)
        (λ market t e₁.
          during_then at_m _ _ _ _
            (signed_target-revisions x w "/api/v3/order" (order_parameters market q) t ∙ e₁)
            (λ f t i. inl i)
            (λ target t₂ e₂.
              during_then at_m _ _ _ _ (checked-revisions w http_post target true t₂ ∙ e₂)
                (λ f t i. inl i)
                (λ order t₃ e₃.
                  >>=-Post _ _ _
                    (during-Post _ _ _ (
                      weaken _ (parse_order-Counted q order none m t₃ e₃) (λ r u i. i)
                        (λ f u i. inr i)))
                    (λ r u (e₄, first, id_kept).
                      during_then (λ t. t.revisions ≡ count_revision q.client_id m) _ _ _ _
                        (apply_report-revisions x q r u ∙ e₄) (λ f t i. inr i)
                        (λ applied t₅ i. returns (i, first, id_kept))))))

  pub cancel_steps-Counted :
      (x : Access D) (w : World J) (q : OrderRequest) (m : List (ClientId × ℕ)) (s : Gateway D)
      → s.revisions ≡ m
      → Post
          (Counted q.client_id m)
          (λ e t. (t.revisions ≡ m) ⊎ (t.revisions ≡ count_revision q.client_id m))
          (cancel_steps x w q s)
  unfolding cancel_steps
  cancel_steps-Counted x w q m s e =
      let at_m : Gateway D → Type 0 = λ t. t.revisions ≡ m in
      attempt_then _ _ _
        (λ market e₁.
          always_then at_m _ _ _
            (signed_target-revisions x w "/api/v3/order" (named market q) s ∙ e) (λ f t i. inl i)
            (λ target t e₂.
              always_then at_m _ _ _ (checked-revisions w http_delete target false t ∙ e₂)
                (λ f t i. inl i) (λ gone t₂ e₃. query_now-Counted x w q m t₂ e₃)))
        (inl e)
