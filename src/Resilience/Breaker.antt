-- ===== src/Resilience/Breaker.antt =====
-- `CircuitBreaker` (app/resilience.py).
pub mod Laws
use dev_ops_copilot.Base.{
  ℕ, zero, suc, ◌+◌, ◌-◌, ◌≤◌, ◌<◌, ◌≡◌, refl, max, Bool, true, false, Option, none, some, List, [],
  ◌∷◌, leb, if◌then◌else◌,
}
use dev_ops_copilot.Resilience.Retry.{Attempt, returned, raised}

pub record Breaker : Type 0 where
  pub failure_threshold : ℕ
  pub reset_timeout : ℕ
  pub failures : ℕ
  pub opened_at : Option ℕ

pub data CircuitState : Type 0 where
  closed open_ half_open : CircuitState

unfoldable pub new : ℕ → ℕ → Breaker
new failure_threshold reset_timeout = record {
  failure_threshold = max 1 failure_threshold;
  reset_timeout = reset_timeout;
  failures = 0;
  opened_at = none;
}

-- `clock - opened_at >= reset_timeout` without the difference, which may be negative.
unfoldable pub state : Breaker → ℕ → CircuitState
state b now = elim b.opened_at [
  | none ↦ closed
  | some t ↦ if leb (t + b.reset_timeout) now then half_open else open_
]

unfoldable pub on_success : Breaker → Breaker
on_success b = record b { failures = 0; opened_at = none }

unfoldable pub on_failure : Breaker → ℕ → Breaker
on_failure b now =
    let failures = b.failures + 1 in
    if leb b.failure_threshold failures
    then record b { failures = failures; opened_at = some now }
    else record b { failures = failures }

-- How a call through the breaker ends.
pub data Called {ℓ κ} (A : Type ℓ) (E : Type κ) : Type (ℓ ⊔ κ) where
  circuit_open : Called A E
  ran : Attempt A E → Called A E

-- A call at `now`. `fn` does what `attempt` says, and a failure is recorded at `failed_at`.
unfoldable pub call {ℓ κ} :
    {A : Type ℓ} {E : Type κ} → Breaker → ℕ → ℕ → Attempt A E → Breaker × Called A E
unfolding state on_success on_failure
call b now failed_at attempt = elim (state b now) [
  | open_ ↦ (b, circuit_open)
  | _ ↦ elim attempt [
    | returned a ↦ (on_success b, ran (returned a))
    | raised e ↦ (on_failure b failed_at, ran (raised e))
  ]
]
