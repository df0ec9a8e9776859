-- ===== src/Resilience/Retry/Laws.antt =====
-- The laws of a retried call (app/resilience.py).
use dev_ops_copilot.Base.{
  ℕ, zero, suc, ◌+◌, ◌-◌, ◌≤◌, ◌<◌, ◌≡◌, refl, ◌∙◌, ap, sym, max, Bool, true, List, [], ◌∷◌, ◌++◌,
  not, length, take, arith, Bool-cases, inl, inr,
}
use mathlib.Core.List.{append-nil, append_assoc}
use mathlib.Core.Bool.{false≢true}
use mathlib.Core.Path.{subst}
use native.Mathlib.Decide.{dec_le}
use dev_ops_copilot.Resilience.Retry.{
  Attempt, returned, raised, Retried, gives_up, retry_loop, retry_call, backoff_delays, delays_from,
}

module _ {ℓ κ} {A : Type ℓ} {E : Type κ} (fn : ℕ → Attempt A E) (retryable : E → Bool) where
  abbrev pub IsRetryable : Attempt A E → Type 0
  IsRetryable (returned a) = ⊥
  IsRetryable (raised exc) = retryable exc ≡ true

  -- The loop from call `i` on, with at most `k` calls after it: it makes `n` of them.
  record LoopSpec (k i : ℕ) (delays slept : List ℕ) (r : Retried A E) : Type (ℓ ⊔ κ) where
    n : ℕ
    bounded : n ≤ k
    counted : r.calls ≡ n + i + 1
    last : r.outcome ≡ fn (n + i)
    waited : r.slept ≡ slept ++ take n delays
    before : (j : ℕ) → i ≤ j → j < n + i → IsRetryable (fn j)
    complete : IsRetryable r.outcome → n ≡ k

  -- The loop stops at call `i` with its outcome.
  stops :
      (k i : ℕ) (delays slept : List ℕ) (o : Attempt A E)
      → fn i ≡ o
      → (IsRetryable o → 0 ≡ k)
      → LoopSpec k i delays slept (record { outcome = o; calls = i + 1; slept = slept })
  stops k i delays slept o e final = record {
    n = 0;
    bounded = omega arith;
    counted = omega arith;
    last = sym e ∙ ap fn (omega arith);
    waited = sym (append-nil slept);
    before = λ j p q. absurd (omega arith);
    complete = final;
  }

  -- The loop goes on after a failure that may be retried.
  goes_on :
      (k i : ℕ) (d : ℕ) (delays slept : List ℕ) (r : Retried A E)
      → IsRetryable (fn i)
      → LoopSpec k (i + 1) delays (slept ++ d ∷ []) r
      → LoopSpec (suc k) i (d ∷ delays) slept r
  goes_on k i d delays slept r again l = record {
    n = suc l.n;
    bounded = omega arith;
    counted = omega arith;
    last = l.last ∙ ap fn (omega arith);
    waited = l.waited ∙ append_assoc slept (d ∷ []) (take l.n delays);
    before = λ j p q. elim (dec_le (i + 1) j) [
      | yes later ↦ l.before j later (omega arith)
      | no here ↦ subst (λ m. IsRetryable (fn m)) (omega arith) again
    ];
    complete = λ c. ap suc (l.complete c);
  }

  may_retry :
      (attempts k i : ℕ) (exc : E)
      → suc k + i + 1 ≡ max 1 attempts
      → gives_up fn retryable attempts i exc ≡ not (retryable exc)
  may_retry attempts k i exc m = ground arith

  retry_loop-LoopSpec :
      (attempts k i : ℕ) (delays slept : List ℕ)
      → length delays ≡ k
      → k + i + 1 ≡ max 1 attempts
      → LoopSpec k i delays slept (retry_loop fn retryable attempts k i delays slept)
  unfolding retry_loop
  retry_loop-LoopSpec attempts zero i delays slept h m =
      stops zero i delays slept (fn i) refl (λ _. refl)
  retry_loop-LoopSpec attempts (suc k) i [] slept h m = absurd (omega arith)
  retry_loop-LoopSpec attempts (suc k) i (d ∷ delays) slept h m =
      go (fn i) refl (
        retry_loop-LoopSpec attempts k (i + 1) delays (slept ++ d ∷ []) (omega arith) (omega arith))
    where
      go :
          (o : Attempt A E)
          → fn i ≡ o
          → LoopSpec k
              (i + 1)
              delays
              (slept ++ d ∷ [])
              (retry_loop fn retryable attempts k (i + 1) delays (slept ++ d ∷ []))
          → LoopSpec
              (suc k)
              i
              (d ∷ delays)
              slept
              (retry_loop fn retryable attempts (suc k) i (d ∷ delays) slept)
      go (returned a) e rest =
          rw (e, retry_loop) (stops (suc k) i (d ∷ delays) slept (returned a) e (λ z. absurd z))
      go (raised exc) e rest = elim (Bool-cases (retryable exc)) [
        | inl again ↦
            rw (e, may_retry attempts k i exc m, again, retry_loop)
              (goes_on k i d delays slept _ (rw e again) rest)
        | inr never ↦
            rw (e, may_retry attempts k i exc m, never, retry_loop)
              (stops (suc k) i (d ∷ delays) slept (raised exc) e
                (λ r. absurd (false≢true (sym never ∙ r))))
      ]

  length-delays_from : (n i base cap : ℕ) → length (delays_from i n base cap) ≡ n
  length-delays_from zero i base cap = refl
  length-delays_from (suc n) i base cap = ap suc (length-delays_from n (i + 1) base cap)

  -- What a retried call does, for every function, every schedule and every number of attempts.
  pub record IsRetried (attempts base cap : ℕ) (r : Retried A E) : Type (ℓ ⊔ κ) where
    pub called : 1 ≤ r.calls
    pub bounded : r.calls ≤ max 1 attempts
    pub last : r.outcome ≡ fn (r.calls - 1)
    pub waited : r.slept ≡ take (r.calls - 1) (backoff_delays attempts base cap)
    pub before : (j : ℕ) → j < r.calls - 1 → IsRetryable (fn j)
    pub complete : IsRetryable r.outcome → r.calls ≡ max 1 attempts

  retry_call-IsRetried :
      (attempts base cap : ℕ)
      → IsRetried attempts base cap (retry_call fn retryable attempts base cap)
  unfolding retry_call
  retry_call-IsRetried attempts base cap =
      let l =
        retry_loop-LoopSpec attempts (attempts - 1) 0 (backoff_delays attempts base cap) []
          (length-delays_from (attempts - 1) 0 base cap) (omega arith) in
      record {
        called = omega (arith, l.counted);
        bounded = omega (arith, l.counted, l.bounded);
        last = l.last ∙ ap fn (omega (arith, l.counted));
        waited =
            l.waited
            ∙ ap (λ n. take n (backoff_delays attempts base cap)) (omega (arith, l.counted));
        before = λ j q. l.before j (omega arith) (omega (arith, l.counted));
        complete = λ c. omega (arith, l.counted, l.complete c);
      }

  -- The function is called at least once and at most `max(1, attempts)` times. The outcome is that
  -- of the last call, and each call before it was followed by its delay of the backoff schedule.
  pub retry_call-runs :
      (attempts base cap : ℕ)
      → let r = retry_call fn retryable attempts base cap in
        (1 ≤ r.calls)
        × (r.calls ≤ max 1 attempts)
        × (r.outcome ≡ fn (r.calls - 1))
        × (r.slept ≡ take (r.calls - 1) (backoff_delays attempts base cap))
  retry_call-runs attempts base cap =
      let h = retry_call-IsRetried attempts base cap in (h.called, h.bounded, h.last, h.waited)

  -- A failure that may be retried is the outcome only when the attempts are used up.
  pub retry_call-exhausts :
      (attempts base cap : ℕ)
      → IsRetryable (retry_call fn retryable attempts base cap).outcome
      → (retry_call fn retryable attempts base cap).calls ≡ max 1 attempts
  retry_call-exhausts attempts base cap = (retry_call-IsRetried attempts base cap).complete
