-- ===== src/Fetch/Ends.antt =====
-- How `fetch_exchange_info` (src/receiver.cpp) ends.
use single_exchange_triangul.Common.{
  ℕ, suc, ◌+◌, ◌≡◌, ◌≢◌, ◌≤◌, drop, ◌⊎◌, inl, inr, refl, sym, ap, ◌∙◌, true, false, Option, none,
  some, List, [], ◌∷◌, length, replicate, arith, >>=-eq-some, if◌then◌else◌, ◌↔◌, Option-cases,
  Bool-cases,
}
use single_exchange_triangul.Decimal.{Text}
use single_exchange_triangul.Fetch.{
  FetchStage, resolving, connecting, shaking_hands, writing, reading, Fetch, Event, completed,
  expired, new_fetch, following, finish_fetch, complete_stage, expire, step, run, none_left,
  fetched,
}

-- How the operations ended that did so before the deadline.
abbrev pub in_time : {X : Type 0} → List (Event X) → List (Option X)
in_time [] = []
in_time (completed ec ∷ es) = ec ∷ in_time es
in_time (expired none ∷ es) = []
in_time (expired (some x) ∷ es) = in_time es

-- The operations from a stage on.
abbrev left : FetchStage → ℕ
left resolving = 5
left connecting = 4
left shaking_hands = 3
left writing = 2
left reading = 1

left_one : (k : FetchStage) → following k ≡ none → left k ≡ 1
unfolding following
left_one reading h = refl
left_one k h = cc

left-following : (k next : FetchStage) → following k ≡ some next → left k ≡ suc (left next)
unfolding following
left-following k next h = ground (arith, h)

abbrev handlers : {X : Type 0} → Fetch X → ℕ
handlers s = elim s.pending [ none ↦ 0 | some k ↦ left k ] + (if s.waiting then 1 else 0)

module _ {X : Type 0} (timed_out : X) where
  step-handlers :
      (e : Event X) (s : Fetch X) {t : Fetch X}
      → step timed_out e s ≡ some t
      → suc (handlers t) ≤ handlers s
  unfolding step complete_stage finish_fetch following expire
  step-handlers (completed ec) s h = ground (arith, h)
  step-handlers (expired ec) s h = ground (arith, h)

  run-handlers :
      (es : List (Event X)) (s : Fetch X) {t : Fetch X}
      → run timed_out es s ≡ some t
      → length es + handlers t ≤ handlers s
  unfolding run
  run-handlers [] s h = ground (arith, h)
  run-handlers (e ∷ es) s {t} h =
      let (u, h₁, h₂) = >>=-eq-some (step timed_out e s) _ h in
      omega (arith, step-handlers e s {t = u} h₁, run-handlers es u {t = t} h₂)

  -- Once it is done, the outcome stays.
  run-done :
      (es : List (Event X)) (s : Fetch X) {t : Fetch X}
      → s.done ≡ true
      → run timed_out es s ≡ some t
      → (t.done ≡ true) × (t.failure ≡ s.failure)
  unfolding run step complete_stage finish_fetch following expire
  run-done [] s d h = ground (arith, h)
  run-done (e ∷ es) s {t} d h =
      let (u, h₁, h₂) = >>=-eq-some (step timed_out e s) _ h in
      ground (arith, d, h₁, run-done es u {t = t}, h₂)

  run-quiet :
      (es : List (Event X)) (s : Fetch X) {t : Fetch X}
      → s.pending ≡ none
      → run timed_out es s ≡ some t
      → in_time es ≡ []
  unfolding run step complete_stage finish_fetch following expire
  run-quiet [] s p h = refl
  run-quiet (completed ec ∷ es) s p h = ground (arith, p, h)
  run-quiet (expired none ∷ es) s p h = refl
  run-quiet (expired (some x) ∷ es) s {t} p h =
      let (u, h₁, h₂) = >>=-eq-some (step timed_out (expired (some x)) s) _ h in
      run-quiet es u {t = t} (ground (arith, p, h₁)) h₂

  -- The outcome of a run in which an operation is outstanding.
  abbrev Settled : FetchStage → List (Event X) → Fetch X → Type 0
  Settled k es t =
      (t.done ≡ true)
      × (t.failure ≡ none → in_time es ≡ replicate (left k) none)
      × (in_time es ≡ replicate (left k) none → t.failure ≡ none)

  some_first :
      (k : FetchStage) (x : X) (l : List (Option X)) → (some x ∷ l) ≢ replicate (left k) none
  some_first resolving x l e = cc
  some_first k x l e = cc

  no_first : (k : FetchStage) → ◌≢◌ {A = List (Option X)} [] (replicate (left k) none)
  no_first resolving e = cc
  no_first k e = cc

  Settled-cons :
      (k next : FetchStage) (es : List (Event X)) (t : Fetch X)
      → left k ≡ suc (left next)
      → Settled next es t
      → Settled k (completed none ∷ es) t
  Settled-cons k next es t order (finished, to, from) = (
    finished,
    λ h. ap (λ l. none ∷ l) (to h) ∙ ap (λ n. replicate n none) (sym order),
    λ h. from (ap (drop 1) (h ∙ ap (λ n. replicate n none) order)),
  )

  run-Settled :
      (es : List (Event X)) (k : FetchStage) (s : Fetch X) {t : Fetch X}
      → s.done ≡ false
      → s.failure ≡ none
      → s.pending ≡ some k
      → run timed_out es s ≡ some t
      → none_left t ≡ true
      → Settled k es t
  unfolding run none_left step complete_stage finish_fetch expire
  run-Settled [] k s d f p h i = ground (arith, p, h, i)
  run-Settled (completed none ∷ es) k s {t} d f p h i =
      let (u, h₁, h₂) = >>=-eq-some (step timed_out (completed none) s) _ h in
      elim (Option-cases (following k)) [
        | inl last ↦
            let one : left k ≡ 1 = left_one k last in
            let stays = run-done es u {t = t} (ground (arith, d, f, p, h₁, last)) h₂ in
            let quiet = run-quiet es u {t = t} (ground (arith, d, f, p, h₁, last)) h₂ in
            let right : t.failure ≡ none = ground (arith, d, f, p, h₁, last, stays) in
            (
              stays.0,
              λ _. ap (λ l. none ∷ l) quiet ∙ ap (λ n. replicate n none) (sym one),
              λ _. right,
            )
        | inr (next, there) ↦ Settled-cons k next es t (left-following k next there) (
            run-Settled es next u {t = t} (ground (arith, d, p, h₁, there))
              (ground (arith, d, f, p, h₁, there)) (ground (arith, d, p, h₁, there)) h₂ i)
      ]
  run-Settled (completed (some x) ∷ es) k s {t} d f p h i =
      let (u, h₁, h₂) = >>=-eq-some (step timed_out (completed (some x)) s) _ h in
      let stays = run-done es u {t = t} (ground (arith, d, p, h₁)) h₂ in
      let wrong : t.failure ≡ some x = ground (arith, d, p, h₁, stays) in
      (stays.0, λ e. cc, λ e. absurd (some_first k x (in_time es) e))
  run-Settled (expired none ∷ es) k s {t} d f p h i =
      let (u, h₁, h₂) = >>=-eq-some (step timed_out (expired none) s) _ h in
      let stays = run-done es u {t = t} (ground (arith, d, h₁)) h₂ in
      let wrong : t.failure ≡ some timed_out = ground (arith, d, h₁, stays) in
      (stays.0, λ e. cc, λ e. absurd (no_first k e))
  run-Settled (expired (some x) ∷ es) k s {t} d f p h i =
      let (u, h₁, h₂) = >>=-eq-some (step timed_out (expired (some x)) s) _ h in
      run-Settled es k u {t = t} (ground (arith, d, h₁)) (ground (arith, f, h₁))
        (ground (arith, p, h₁)) h₂ i

  -- In whatever order the outstanding handlers of the request come, six of them come at most. When
  -- none is left, so that `io.run()` returns, the request is done, and the function returns a value
  -- exactly where all five operations succeeded before the handler of the deadline came, the status is
  -- 200 and the body is JSON; the value is that of the body.
  pub fetch_settles :
      {J : Type 0} (parse : Text → Option J) (status : ℕ) (body : Text) (es : List (Event X))
      {t : Fetch X}
      → run timed_out es new_fetch ≡ some t
      → (length es ≤ 6)
        × ((none_left t ≡ false)
            ⊎ ((t.done ≡ true)
                × ((v : J)
                    → (fetched parse status body t ≡ some v) ↔ (
                        (in_time es ≡ replicate 5 none) × (status ≡ 200) × (parse body ≡ some v)))))
  unfolding new_fetch fetched
  fetch_settles parse status body es {t} h =
      let few = run-handlers es new_fetch {t = t} h in
      (
        omega (arith, few),
        elim (Bool-cases (none_left t)) [
          | inl i ↦
              let settled = run-Settled es resolving new_fetch {t = t} refl refl refl h i in
              inr (
                settled.0,
                λ v. (
                  λ e. ground (arith, e, settled),
                  λ (run, ok, read). ground (arith, run, ok, read, settled),
                ),
              )
          | inr more ↦ inl more
        ],
      )
