-- ===== src/Binance/Post.antt =====
-- Reasoning about code that may throw (src/execution/binance_gateway.cpp): what holds after it
-- returns, and what holds after an exception.
use single_exchange_triangul.Common.{◌≡◌, refl, Option, none, some}
use single_exchange_triangul.Binance.{
  Action, Result, ok, err, Failure, thrown, Stage, Gateway, ◌>>=◌, attempt, after,
}
use single_exchange_triangul.Binance.Orders.{during, at_stage}

-- `Q` holds of the value and the members, or `R` of the exception and the members.
pub data Post {E D A : Type 0} (Q : A → Gateway D → Type 0) (R : E → Gateway D → Type 0)
    : Result E A × Gateway D → Type 0 where
  returns : {a : A} {s : Gateway D} → Q a s → Post Q R (ok a, s)
  throws : {e : E} {s : Gateway D} → R e s → Post Q R (err e, s)

module _ {E D A : Type 0} {Q : A → Gateway D → Type 0} {R : E → Gateway D → Type 0} where
  pub >>=-Post :
      {B : Type 0} {P : B → Gateway D → Type 0} (m : Action E D A) (f : A → Action E D B)
      (s : Gateway D)
      → Post Q R (m s)
      → ((a : A) (t : Gateway D) → Q a t → Post P R (f a t))
      → Post P R ((m >>= f) s)
  unfolding ◌>>=◌
  >>=-Post {P} m f s h k = after_Post (m s) h
    where
      after_Post : (r : Result E A × Gateway D) → Post Q R r → Post P R (after r f)
      after_Post (ok a, t) (returns q) = k a t q
      after_Post (err e, t) (throws r) = throws r

  pub weaken :
      {P : A → Gateway D → Type 0} {S : E → Gateway D → Type 0} (r : Result E A × Gateway D)
      → Post Q R r
      → ((a : A) (t : Gateway D) → Q a t → P a t)
      → ((e : E) (t : Gateway D) → R e t → S e t)
      → Post P S r
  weaken (ok a, t) (returns q) f g = returns (f a t q)
  weaken (err e, t) (throws r) f g = throws (g e t r)

-- What holds of the members in either case.
pub always :
    {E D A : Type 0} {P : Gateway D → Type 0} (r : Result E A × Gateway D)
    → P r.1
    → Post (λ _. P) (λ _. P) r
always (ok a, s) h = returns h
always (err e, s) h = throws h

-- By the two outcomes.
pub both-Post :
    {E D A : Type 0} {Q : A → Gateway D → Type 0} {R : E → Gateway D → Type 0}
    (r : Result E A × Gateway D)
    → ((a : A) → r.0 ≡ ok a → Q a r.1)
    → ((e : E) → r.0 ≡ err e → R e r.1)
    → Post Q R r
both-Post (ok a, s) f g = returns (f a refl)
both-Post (err e, s) f g = throws (g e refl)

module _ {E D A B : Type 0} {Q : B → Gateway D → Type 0} {R : E → Gateway D → Type 0} where
  pub always_then :
      (P : Gateway D → Type 0) (m : Action E D A) (f : A → Action E D B) (s : Gateway D)
      → P (m s).1
      → ((e : E) (t : Gateway D) → P t → R e t)
      → ((a : A) (t : Gateway D) → P t → Post Q R (f a t))
      → Post Q R ((m >>= f) s)
  always_then P m f s h r k =
      >>=-Post {Q = λ _. P} m f s (weaken (m s) (always {P = P} (m s) h) (λ a t i. i) r) k

pub attempt-state : {D A : Type 0} (o : Option A) (s : Gateway D) → (attempt o s).1 ≡ s
unfolding attempt
attempt-state none s = refl
attempt-state (some a) s = refl

module _ {D A : Type 0} {Q : A → Gateway D → Type 0} where
  pub attempt-Post :
      {R : Failure → Gateway D → Type 0} (o : Option A) (s : Gateway D)
      → ((a : A) → o ≡ some a → Q a s)
      → (o ≡ none → R thrown s)
      → Post Q R (attempt o s)
  unfolding attempt
  attempt-Post none s f r = throws (r refl)
  attempt-Post (some a) s f r = returns (f a refl)

  pub attempt_then :
      {B : Type 0} {R : Failure → Gateway D → Type 0} (o : Option B) (f : B → Action Failure D A)
      (s : Gateway D)
      → ((b : B) → o ≡ some b → Post Q R (f b s))
      → R thrown s
      → Post Q R ((attempt o >>= f) s)
  unfolding ◌>>=◌ attempt
  attempt_then none f s h r = throws r
  attempt_then (some b) f s h r = h b refl

  -- A step of `submit` in which `P` holds whatever happens.
  pub during_then :
      {B : Type 0} {R : Stage × Failure → Gateway D → Type 0} (P : Gateway D → Type 0)
      (stage : Stage) (m : Action Failure D B) (f : B → Action (Stage × Failure) D A)
      (s : Gateway D)
      → P (m s).1
      → ((e : Stage × Failure) (t : Gateway D) → P t → R e t)
      → ((b : B) (t : Gateway D) → P t → Post Q R (f b t))
      → Post Q R ((during stage m >>= f) s)
  unfolding during
  during_then P stage m f s h = always_then P (during stage m) f s (at_stage_P (m s) h)
    where
      at_stage_P : {B : Type 0} (r : Result Failure B × Gateway D) → P r.1 → P (at_stage stage r).1
      at_stage_P (ok b, t) i = i
      at_stage_P (err e, t) i = i

  pub during-Post :
      {R : Stage × Failure → Gateway D → Type 0} (stage : Stage) (m : Action Failure D A)
      (s : Gateway D)
      → Post Q (λ e. R (stage, e)) (m s)
      → Post Q R (during stage m s)
  unfolding during
  during-Post {R} stage m s h = at_stage_Post (m s) h
    where
      at_stage_Post :
          (r : Result Failure A × Gateway D)
          → Post Q (λ e. R (stage, e)) r
          → Post Q R (at_stage stage r)
      at_stage_Post (ok a, t) (returns q) = returns q
      at_stage_Post (err e, t) (throws r) = throws r
