-- ===== src/Resilience/Retry.antt =====
-- `is_retryable`, `backoff_delays` and `retry_call` (app/resilience.py).
pub mod Laws
use dev_ops_copilot.Base.{
  ℕ, zero, suc, ◌+◌, ◌-◌, ◌*◌, ◌^◌, ◌≤◌, ◌<◌, ◌≡◌, refl, ◌∙◌, ap, min, max, Bool, true, false, List,
  [], ◌∷◌, ◌++◌, not, ◌||◌, ltb, leb, length, take, All, arith, Bool-cases, inl, inr, if◌then◌else◌,
  String, any_of, ◌<>◌,
}
use dev_ops_copilot.Base.Text.{has_text}
use dev_ops_copilot.Base.Case.{lower_str}

-- `_RETRYABLE_MARKERS`
abbrev retryable_markers : List String
retryable_markers =
    "429" ∷ "rate limit" ∷ "overloaded" ∷ "timeout" ∷ "timed out" ∷ "503" ∷ "502" ∷ "500"
    ∷ "connection" ∷ "temporarily" ∷ "unavailable" ∷ "econnreset" ∷ "read timed out" ∷ []

-- Of an exception by the name of its type and its text, with the default markers.
unfoldable pub is_retryable : (type_name text : String) → Bool
is_retryable type_name text =
    any_of (λ marker. has_text marker (lower_str (type_name <> ": " <> text))) retryable_markers

abbrev delays_from : ℕ → ℕ → ℕ → ℕ → List ℕ
delays_from i zero base cap = []
delays_from i (suc n) base cap = min cap (base * 2 ^ i) ∷ delays_from (i + 1) n base cap

-- `[min(cap, base * (2 ** i)) for i in range(max(0, attempts - 1))]`
unfoldable pub backoff_delays : ℕ → ℕ → ℕ → List ℕ
backoff_delays attempts base cap = delays_from 0 (attempts - 1) base cap

-- What one call of the function does.
pub data Attempt {ℓ κ} (A : Type ℓ) (E : Type κ) : Type (ℓ ⊔ κ) where
  returned : A → Attempt A E
  raised : E → Attempt A E

-- How a retried call ends, how often the function was called, and the delays slept.
pub record Retried {ℓ κ} (A : Type ℓ) (E : Type κ) : Type (ℓ ⊔ κ) where
  pub outcome : Attempt A E
  pub calls : ℕ
  pub slept : List ℕ

module _ {ℓ κ} {A : Type ℓ} {E : Type κ} (fn : ℕ → Attempt A E) (retryable : E → Bool) where
  -- Whether the `i`-th failure ends the loop: `i >= attempts - 1 or not retryable(exc)`.
  abbrev gives_up : ℕ → ℕ → E → Bool
  gives_up attempts i exc = leb attempts (i + 1) || not (retryable exc)

  -- The loop from the `i`-th call on; `delays` are those that are left.
  retry_loop : ℕ → ℕ → ℕ → List ℕ → List ℕ → Retried A E
  retry_loop attempts zero i delays slept = record { outcome = fn i; calls = i + 1; slept = slept }
  retry_loop attempts (suc k) i [] slept = record { outcome = fn i; calls = i + 1; slept = slept }
  retry_loop attempts (suc k) i (d ∷ delays) slept = elim (fn i) [
    | returned a ↦ record { outcome = returned a; calls = i + 1; slept = slept }
    | raised exc ↦ elim (gives_up attempts i exc) [
      | true ↦ record { outcome = raised exc; calls = i + 1; slept = slept }
      | false ↦ retry_loop attempts k (i + 1) delays (slept ++ d ∷ [])
    ]
  ]

  unfoldable pub retry_call : ℕ → ℕ → ℕ → Retried A E
  unfolding retry_loop backoff_delays
  retry_call attempts base cap =
      retry_loop attempts (attempts - 1) 0 (backoff_delays attempts base cap) []
