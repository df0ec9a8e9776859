-- ===== src/Resilience/Breaker/Laws.antt =====
-- The laws of the circuit breaker (app/resilience.py).
use dev_ops_copilot.Base.{
  ℕ, ◌+◌, ◌≤◌, ◌<◌, ◌≡◌, refl, ◌∙◌, max, none, some, List, [], ◌∷◌, leb, is_some, arith, length,
  All,
}
use dev_ops_copilot.Resilience.Retry.{Attempt, returned, raised}
use dev_ops_copilot.Resilience.Breaker.{Breaker, new, circuit_open, ran, call, Called}

-- The breaker has an opening time exactly when its consecutive failures reach the threshold.
pub record IsConsistent (b : Breaker) : Type 0 where
  pub some_threshold : 1 ≤ b.failure_threshold
  pub opened : is_some b.opened_at ≡ leb b.failure_threshold b.failures

pub new-IsConsistent : (threshold timeout : ℕ) → IsConsistent (new threshold timeout)
unfolding new
new-IsConsistent threshold timeout = ground arith

-- Every call, whatever it does and whenever it is made, keeps the invariant.
pub call-IsConsistent {ℓ κ} :
    {A : Type ℓ} {E : Type κ} (b : Breaker) (now failed_at : ℕ) (attempt : Attempt A E)
    → IsConsistent b
    → IsConsistent (call b now failed_at attempt).0
unfolding call
call-IsConsistent b now failed_at (returned a) h = ground arith
call-IsConsistent b now failed_at (raised e) h = ground arith

abbrev pub failure : Attempt (Unit {0}) (Unit {0})
failure = raised tt

-- Calls that all fail, by the times at which they are made, each noticed at once.
abbrev pub fail_all : Breaker → List ℕ → Breaker
fail_all b [] = b
fail_all b (t ∷ ts) = fail_all (call b t t failure).0 ts

failures-call :
    (b : Breaker) (t : ℕ)
    → IsConsistent b
    → b.failures < b.failure_threshold
    → let c = (call b t t failure).0 in
      (c.failures ≡ b.failures + 1)
      × (c.failure_threshold ≡ b.failure_threshold)
      × (c.reset_timeout ≡ b.reset_timeout)
unfolding call
failures-call b t h few = ground arith

fail_all-failures :
    (ts : List ℕ) (b : Breaker)
    → IsConsistent b
    → b.failures + length ts ≤ b.failure_threshold
    → IsConsistent (fail_all b ts)
      × ((fail_all b ts).failures ≡ b.failures + length ts)
      × ((fail_all b ts).failure_threshold ≡ b.failure_threshold)
fail_all-failures [] b h few = (h, omega arith, refl)
fail_all-failures (t ∷ ts) b h few =
    let (more, same, _) = failures-call b t h (omega arith) in
    let (k, f, th) =
      fail_all-failures ts (call b t t failure).0 (call-IsConsistent b t t failure h)
        (omega arith) in
    (k, omega arith, th ∙ same)

-- A fresh breaker that sees only failures opens exactly when their number reaches its threshold,
-- and not before.
pub fail_all-opens :
    (threshold timeout : ℕ) (ts : List ℕ)
    → length ts ≤ max 1 threshold
    → is_some (fail_all (new threshold timeout) ts).opened_at ≡ leb (max 1 threshold) (length ts)
unfolding new
fail_all-opens threshold timeout ts few =
    let (k, f, th) =
      fail_all-failures ts (new threshold timeout) (new-IsConsistent threshold timeout)
        (omega arith) in
    k.opened ∙ ground arith

-- A call: when it is made, when its failure would be noticed, and what the function would do.
pub record Try {ℓ κ} (A : Type ℓ) (E : Type κ) : Type (ℓ ⊔ κ) where
  pub now : ℕ
  pub failed_at : ℕ
  pub attempt : Attempt A E

-- Calls one after the other, with how each ends.
abbrev pub call_all {ℓ κ} :
    {A : Type ℓ} {E : Type κ} → Breaker → List (Try A E) → Breaker × List (Called A E)
call_all b [] = (b, [])
call_all b (t ∷ ts) =
    let (b', end) = call b t.now t.failed_at t.attempt in
    let (b'', ends) = call_all b' ts in (b'', end ∷ ends)

abbrev pub all_refused {ℓ κ} : {A : Type ℓ} {E : Type κ} → List (Try A E) → List (Called A E)
all_refused [] = []
all_refused (t ∷ ts) = circuit_open ∷ all_refused ts

call_fails_fast {ℓ κ} :
    {A : Type ℓ} {E : Type κ} (b : Breaker) (t now failed_at : ℕ) (attempt : Attempt A E)
    → b.opened_at ≡ some t
    → now < t + b.reset_timeout
    → call b now failed_at attempt ≡ (b, circuit_open)
unfolding call
call_fails_fast b t now failed_at attempt o early = ground arith

-- Until the reset timeout has passed since the opening, no call of any sequence runs the function,
-- and the breaker stays as it is: no refused call prolongs the outage.
pub call_all-refused {ℓ κ} :
    {A : Type ℓ} {E : Type κ} (b : Breaker) (t : ℕ) (ts : List (Try A E))
    → b.opened_at ≡ some t
    → All (λ y. y.now < t + b.reset_timeout) ts
    → call_all b ts ≡ (b, all_refused ts)
call_all-refused b t [] o early = refl
call_all-refused b t (y ∷ ts) o (early, rest) =
    rw (call_fails_fast b t y.now y.failed_at y.attempt o early, call_all-refused b t ts o rest)
      refl

-- Once the reset timeout has passed since the opening, one probe runs. The breaker is closed after
-- it exactly when the probe returns; if the probe raises, the breaker is open from then on.
pub call_probes {ℓ κ} :
    {A : Type ℓ} {E : Type κ} (b : Breaker) (t now failed_at : ℕ) (attempt : Attempt A E)
    → IsConsistent b
    → b.opened_at ≡ some t
    → t + b.reset_timeout ≤ now
    → ((call b now failed_at attempt).1 ≡ ran attempt)
      × ((call b now failed_at attempt).0.opened_at
          ≡ (elim attempt [ returned _ ↦ none | raised _ ↦ some failed_at ]))
unfolding call
call_probes b t now failed_at (returned a) h o late = ground arith
call_probes b t now failed_at (raised e) h o late = ground arith
