-- ===== src/Binance/Reports.antt =====
-- The reports that `BinanceGateway` (src/execution/binance_gateway.cpp) posts, over any run of its
-- queue.
use mathlib.Core.Path.{◌∙◌, ap, subst, sym}
use mathlib.Core.Option.{some-injective}
use single_exchange_triangul.Common.{
  All-map, ℕ, suc, ◌≡◌, refl, inl, inr, Bool, true, false, some, List, [], ◌∷◌, arith, ◌+◌, ◌*◌,
  ◌<◌, ◌≤◌, ◌^◌, ◌%◌, All, Bool-cases, if◌then◌else◌, length,
}
use single_exchange_triangul.Decimal.{Arith}
use single_exchange_triangul.Executor.Defs.{
  ClientId, OrderReport, same_id, same_id_refl, same_id-eq,
}
use single_exchange_triangul.Json.{Document, Parser}
use single_exchange_triangul.Binance.{
  World, Access, Gateway, Result, Failure, ok, err, ◌>>=◌, attempt,
}
use single_exchange_triangul.Binance.Accounts.{
  find_id, put_id, next_revision, count_revision, value_or,
}
use single_exchange_triangul.Binance.Worker.{
  Task, Worker, WorkerEvent, called, round, destroyed, request_of, perform, run, step, work,
  open_worker, opened_worker, blank, enqueue,
}
use single_exchange_triangul.Binance.Orders.{refresh_balances}
use single_exchange_triangul.Binance.Counted.{signed_target-revisions, checked-revisions}
use single_exchange_triangul.Binance.Revisions.{Numbered, once, twice, perform-Numbered}

-- `revisions[id]`.
abbrev pub count : ClientId → List (ClientId × ℕ) → ℕ
count id m = value_or 0 (find_id id m)

find_id-put_id :
    {V : Type 0} (j id : ClientId) (v : V) (m : List (ClientId × V))
    → find_id j (put_id id v m) ≡ (if same_id id j then some v else find_id j m)
unfolding find_id put_id
find_id-put_id j id v [] = refl
find_id-put_id j id v ((k, u) ∷ m) = elim (Bool-cases (same_id k id)) [
  | inl equal ↦ let e = same_id-eq k id equal in ground arith
  | inr other ↦ elim (Bool-cases (same_id id j)) [
    | inl this ↦ let e = same_id-eq id j this in ground (arith, find_id-put_id j id v m)
    | inr that ↦ ground (arith, find_id-put_id j id v m)
  ]
]

count-count_revision :
    (j id : ClientId) (m : List (ClientId × ℕ))
    → count id m + 1 < 2 ^ 64
    → count j (count_revision id m) ≡ (if same_id id j then count id m + 1 else count j m)
unfolding count_revision next_revision
count-count_revision j id m h = ground (arith, find_id-put_id j id ((count id m + 1) % 2 ^ 64) m)

-- What a task does to the revisions: its report has a new one of its own order.
record Advances {D : Type 0} (id : ClientId) (m m' : List (ClientId × ℕ)) (r : OrderReport D)
    : Type 0 where
  client : r.client_id ≡ id
  newer : count id m < r.revision
  latest : count id m' ≡ r.revision
  bounded : r.revision ≤ count id m + 2
  others : (j : ClientId) → same_id id j ≡ false → count j m' ≡ count j m

module _ {D : Type 0} where
  Numbered-Advances :
      (id : ClientId) (m : List (ClientId × ℕ)) (r : OrderReport D × Gateway D)
      → count id m + 2 < 2 ^ 64
      → Numbered id m r
      → Advances id m r.1.revisions r.0
  unfolding next_revision
  Numbered-Advances id m (r, t) small (once client first e) =
      let at : (j : ClientId)
          → count j t.revisions ≡ (if same_id id j then count id m + 1 else count j m) =
        λ j. ap (count j) e ∙ count-count_revision j id m (omega arith) in
      record {
        client = client;
        newer = ground arith;
        latest = ground (arith, at id, same_id_refl id);
        bounded = ground arith;
        others = λ j other. ground (arith, at j);
      }
  Numbered-Advances id m (r, t) small (twice client first e) =
      let first_at = λ (j : ClientId). count-count_revision j id m (omega arith) in
      let here : count id (count_revision id m) ≡ count id m + 1 =
        ground (arith, first_at id, same_id_refl id) in
      let at : (j : ClientId)
          → count j t.revisions ≡ (if same_id id j then count id m + 2 else count j m) =
        λ j.
          ap (count j) e
          ∙ ground (
            arith,
            count-count_revision j id (count_revision id m) (omega (arith, here)),
            here,
            first_at j,
          ) in
      record {
        client = client;
        newer = ground (arith, here);
        latest = ground (arith, at id, here, same_id_refl id);
        bounded = ground (arith, here);
        others = λ j other. ground (arith, at j);
      }

  -- Of the reports of one order, each has a revision above all earlier ones, the last report first;
  -- none has the revision zero, and each is about the order of its task.
  abbrev pub Ascending : List (Task × OrderReport D) → Type 0
  Ascending [] = Unit
  Ascending ((task, r) ∷ older) =
      (1 ≤ r.revision)
      × (r.client_id ≡ (request_of task).client_id)
      × All (λ x. same_id x.1.client_id r.client_id ≡ true → x.1.revision < r.revision) older
      × Ascending older

  record Sound (n : ℕ) (k : Worker D) : Type 0 where
    ascending : Ascending k.posted
    covered : All (λ x. x.1.revision ≤ count x.1.client_id k.gateway.revisions) k.posted
    bounded : (j : ClientId) → count j k.gateway.revisions ≤ n

  -- A new report on a sound queue.
  report-Sound :
      (n : ℕ) (k : Worker D) (task : Task) (rest : List Task) (r : OrderReport D × Gateway D)
      → Sound n k
      → Advances (request_of task).client_id k.gateway.revisions r.1.revisions r.0
      → Sound (n + 2) (record k { gateway = r.1; queue = rest; posted = (task, r.0) ∷ k.posted })
  report-Sound n k task rest (r, t) sound next =
      let id = (request_of task).client_id in
      let kept : (j : ClientId) → count j k.gateway.revisions ≤ count j t.revisions = λ j.
        elim (Bool-cases (same_id id j)) [
          | inl equal ↦ ground (arith, same_id-eq id j equal, next.newer, next.latest)
          | inr other ↦ omega (arith, next.others j other)
        ] in
      record {
        ascending = (
          omega (arith, next.newer),
          next.client,
          All-map
              (λ x below same.
                let e =
                  ap (λ i. count i k.gateway.revisions)
                    (same_id-eq x.1.client_id r.client_id same ∙ next.client) in
                omega (arith, next.newer, e))
              k.posted sound.covered,
          sound.ascending,
        );
        covered = (
          omega (arith, ap (λ i. count i t.revisions) next.client, next.latest),
          All-map (λ x below. omega (arith, kept x.1.client_id)) k.posted sound.covered,
        );
        bounded = λ j. elim (Bool-cases (same_id id j)) [
          | inl equal ↦ omega (
            arith,
            ap (λ i. count i t.revisions) (same_id-eq id j equal),
            next.latest,
            next.bounded,
            sound.bounded id,
          )
          | inr other ↦ omega (arith, next.others j other, sound.bounded j)
        ];
      }

  same-Sound :
      (n : ℕ) (k k' : Worker D)
      → Sound n k
      → (k'.posted ≡ k.posted) × (k'.gateway ≡ k.gateway)
      → Sound (n + 2) k'
  same-Sound n k k' sound (e₁, e₂) = record {
    ascending = subst Ascending (sym e₁) sound.ascending;
    covered =
        subst (λ g. All (λ x. x.1.revision ≤ count x.1.client_id g.revisions) k'.posted) (sym e₂)
          (subst (All (λ x. x.1.revision ≤ count x.1.client_id k.gateway.revisions)) (sym e₁)
            sound.covered);
    bounded = λ j. omega (arith, ap (λ g. count j g.revisions) e₂, sound.bounded j);
  }

  -- The queue as the constructor leaves it.
  pub record Idle (s : Gateway D) (k : Worker D) : Type 0 where
    pub gateway_kept : k.gateway ≡ s
    pub none_queued : k.queue ≡ []
    pub none_posted : k.posted ≡ []
    pub running : (k.stopping ≡ false) × (k.dropped ≡ false) × (k.returned ≡ false)

  pub opened_worker-Idle :
      (r : Result Failure (Unit {0}) × Gateway D) (k : Worker D)
      → opened_worker r ≡ some k
      → Idle r.1 k
  opened_worker-Idle (err e, s) k h = cc
  opened_worker-Idle (ok _, s) k h = subst (Idle s) (some-injective _ _ h) (record {
    gateway_kept = refl;
    none_queued = refl;
    none_posted = refl;
    running = (refl, refl, refl);
  })

module _ {J D : Type 0} ⦃j : Document J⦄ ⦃p : Parser D⦄ ⦃a : Arith D⦄ where
  work-Sound :
      (x : Access D) (w : World J) (n : ℕ) (k : Worker D)
      → n + 2 < 2 ^ 64
      → Sound n k
      → Sound (n + 2) (work x w k)
  unfolding work
  work-Sound x w n k small sound = elim (Bool-cases k.returned) [
    | inl gone ↦ same-Sound n k _ sound (ground arith)
    | inr here ↦ go k.queue refl here
  ]
    where
      go : (queue : List Task) → k.queue ≡ queue → k.returned ≡ false → Sound (n + 2) (work x w k)
      go [] e here = same-Sound n k _ sound (ground arith)
      go (task ∷ rest) e here =
          let id = (request_of task).client_id in
          subst (Sound (n + 2)) (ground arith) (
            report-Sound n k task rest (perform x w task k.gateway) sound (
              Numbered-Advances id k.gateway.revisions (perform x w task k.gateway)
                (omega (arith, sound.bounded id)) (perform-Numbered x w task k.gateway)))

  step-Sound :
      (x : Access D) (w : World J) (e : WorkerEvent) (n : ℕ) (k : Worker D)
      → n + 2 < 2 ^ 64
      → Sound n k
      → Sound (n + 2) (step x w e k)
  unfolding step enqueue
  step-Sound x w (called task) n k small sound = same-Sound n k _ sound (ground arith)
  step-Sound x w round n k small sound = work-Sound x w n k small sound
  step-Sound x w destroyed n k small sound = same-Sound n k _ sound (ground arith)

  run-Sound :
      (x : Access D) (w : World J) (es : List WorkerEvent) (n : ℕ) (k : Worker D)
      → n + 2 * length es < 2 ^ 64
      → Sound n k
      → Sound (n + 2 * length es) (run x w es k)
  unfolding run
  run-Sound x w [] n k small sound = subst (λ m. Sound m k) (omega arith) sound
  run-Sound x w (e ∷ es) n k small sound =
      subst (λ m. Sound m (run x w es (step x w e k))) {y = n + 2 * suc (length es)} (omega arith)
        (run-Sound x w es (n + 2) (step x w e k) (omega arith)
          (step-Sound x w e n k (omega arith) sound))

  refresh_balances-revisions :
      (x : Access D) (w : World J) (s : Gateway D)
      → (refresh_balances x w s).1.revisions ≡ s.revisions
  unfolding refresh_balances ◌>>=◌ attempt
  refresh_balances-revisions x w s =
      ground (arith, signed_target-revisions x w, checked-revisions w)

  open_worker-Sound :
      (live : Bool) (x : Access D) (w : World J) (k : Worker D)
      → open_worker live x w ≡ some k
      → Sound 0 k
  unfolding open_worker find_id
  open_worker-Sound live x w k h =
      let fresh = opened_worker-Idle (refresh_balances x w blank) k (ground arith) in
      let none_counted : k.gateway.revisions ≡ [] =
        ap (λ g. g.revisions) fresh.gateway_kept ∙ refresh_balances-revisions x w blank in
      record {
        ascending = subst Ascending (sym fresh.none_posted) tt;
        covered = subst (All _) (sym fresh.none_posted) tt;
        bounded = λ id. nothing none_counted id;
      }
    where
      nothing : {m : List (ClientId × ℕ)} → m ≡ [] → (id : ClientId) → count id m ≤ 0
      nothing e id = omega (arith, ap (count id) e)

  -- The reports that a run of the gateway posts, from its constructor on and in whatever order its
  -- methods are called, number the reports of each order upwards, and each is about the order of its
  -- task; fewer than 2^63 events keep the counters from wrapping around.
  pub reports-Ascending :
      (live : Bool) (x : Access D) (w : World J) (es : List WorkerEvent) {k : Worker D}
      → open_worker live x w ≡ some k
      → length es < 2 ^ 63
      → Ascending (run x w es k).posted
  reports-Ascending live x w es {k} h few =
      (run-Sound x w es 0 k (omega arith) (open_worker-Sound live x w k h)).ascending
