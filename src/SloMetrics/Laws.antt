-- ===== src/SloMetrics/Laws.antt =====
-- The counters agree with each other, and the buckets of the histogram are cumulative.
use dev_ops_copilot.Base.{
  ℕ, ◌+◌, ◌≤◌, ◌≡◌, Bool, true, false, List, [], ◌∷◌, leb, if◌then◌else◌, All, arith,
}
use dev_ops_copilot.Base.Dict.{Dict}
use dev_ops_copilot.Base.Int.{ℤ}
use dev_ops_copilot.SloMetrics.{
  SloMetrics, no_metrics, at_least_zero, one_if, count_latency, record_slo,
}

-- The bounds ascend, the counts do, and no count is above `most`.
abbrev pub IsCumulative : ℕ → Dict ℕ ℕ → Type 0
IsCumulative most [] = Unit
IsCumulative most ((b, n) ∷ bs) =
    All (λ (c, k). (b ≤ c) × (n ≤ k)) bs × (n ≤ most) × IsCumulative most bs

pub record IsConsistent (m : SloMetrics) : Type 0 where
  pub outcomes : m.investigations_success + m.investigations_failed ≡ m.investigations_total
  pub abstentions : m.investigations_abstained ≤ m.investigations_total
  pub latencies : m.latency_count ≡ m.investigations_total
  pub unbounded : m.latency_inf ≡ m.latency_count
  pub cumulative : IsCumulative m.latency_inf m.latency_buckets

one_if-le : (b c lat : ℕ) → b ≤ c → one_if (leb lat b) ≤ one_if (leb lat c)
one_if-le b c lat le = ground arith

one_if-le_one : (b : Bool) → one_if b ≤ 1
one_if-le_one true = omega arith
one_if-le_one false = omega arith

count-above :
    (lat b n : ℕ) (bs : Dict ℕ ℕ)
    → All (λ (c, k). (b ≤ c) × (n ≤ k)) bs
    → All (λ (c, k). (b ≤ c) × (n + one_if (leb lat b) ≤ k)) (count_latency lat bs)
count-above lat b n [] h = tt
count-above lat b n ((c, k) ∷ bs) ((le, less), h) =
    ((le, omega (arith, less, one_if-le b c lat le)), count-above lat b n bs h)

count-IsCumulative :
    (lat most : ℕ) (bs : Dict ℕ ℕ)
    → IsCumulative most bs
    → IsCumulative (most + 1) (count_latency lat bs)
count-IsCumulative lat most [] h = tt
count-IsCumulative lat most ((b, n) ∷ bs) (above, fits, h) = (
  count-above lat b n bs above,
  omega (arith, fits, one_if-le_one (leb lat b)),
  count-IsCumulative lat most bs h,
)

one_outcome : (success : Bool) → one_if success + (if success then 0 else 1) ≡ 1
one_outcome true = omega arith
one_outcome false = omega arith

record_slo-IsConsistent :
    (latency tokens : ℤ) (success abstained : Bool) (m : SloMetrics)
    → IsConsistent m
    → IsConsistent (record_slo latency tokens success abstained m)
unfolding record_slo
record_slo-IsConsistent latency tokens success abstained m h = record {
  outcomes = omega (arith, h.outcomes, one_outcome success);
  abstentions = omega (arith, h.abstentions, one_if-le_one abstained);
  latencies = omega (arith, h.latencies);
  unbounded = omega (arith, h.unbounded);
  cumulative =
      count-IsCumulative (at_least_zero latency) m.latency_inf m.latency_buckets h.cumulative;
}

no_metrics-IsConsistent : IsConsistent no_metrics
no_metrics-IsConsistent = record {
  outcomes = omega arith;
  abstentions = omega arith;
  latencies = omega arith;
  unbounded = omega arith;
  cumulative = ground arith;
}

-- Investigations, one after the other: each with its latency, its tokens, and how it ended.
unfoldable pub record_all : List (ℤ × ℤ × Bool × Bool) → SloMetrics → SloMetrics
record_all [] m = m
record_all ((latency, tokens, success, abstained) ∷ rs) m =
    record_all rs (record_slo latency tokens success abstained m)

record_all-keeps :
    (rs : List (ℤ × ℤ × Bool × Bool)) (m : SloMetrics)
    → IsConsistent m
    → IsConsistent (record_all rs m)
unfolding record_all
record_all-keeps [] m h = h
record_all-keeps ((latency, tokens, success, abstained) ∷ rs) m h =
    record_all-keeps rs _ (record_slo-IsConsistent latency tokens success abstained m h)

-- Whatever investigations are recorded, from no counts on, negative latencies and tokens included:
-- successes and failures add up to the total, abstentions are no more, the histogram counts each
-- once, and its buckets are cumulative, none above the unbounded one.
pub record_all-IsConsistent :
    (rs : List (ℤ × ℤ × Bool × Bool)) → IsConsistent (record_all rs no_metrics)
record_all-IsConsistent rs = record_all-keeps rs no_metrics no_metrics-IsConsistent
