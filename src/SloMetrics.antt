-- ===== src/SloMetrics.antt =====
-- The counters of the agent's own service levels (app/slo_metrics.py). A latency is in whole
-- milliseconds; the text of the exposition is left out.
pub mod Laws
use dev_ops_copilot.Base.{ℕ, ◌+◌, Bool, true, false, List, [], ◌∷◌, leb, if◌then◌else◌}
use dev_ops_copilot.Base.Dict.{Dict}
use dev_ops_copilot.Base.Int.{ℤ, pos, negsuc}

-- `_BUCKETS`, each with no latency counted yet.
abbrev pub buckets : Dict ℕ ℕ
buckets =
    (1000, 0)
    ∷ (2000, 0)
    ∷ (5000, 0)
    ∷ (10000, 0)
    ∷ (20000, 0)
    ∷ (30000, 0)
    ∷ (60000, 0)
    ∷ (120000, 0)
    ∷ []

pub record SloMetrics : Type 0 where
  pub investigations_total : ℕ
  pub investigations_success : ℕ
  pub investigations_abstained : ℕ
  pub investigations_failed : ℕ
  pub tokens_total : ℕ
  pub latency_sum : ℕ
  pub latency_count : ℕ
  pub latency_buckets : Dict ℕ ℕ
  pub latency_inf : ℕ

abbrev pub no_metrics : SloMetrics
no_metrics = record {
  investigations_total = 0;
  investigations_success = 0;
  investigations_abstained = 0;
  investigations_failed = 0;
  tokens_total = 0;
  latency_sum = 0;
  latency_count = 0;
  latency_buckets = buckets;
  latency_inf = 0;
}

-- `max(0, x)`
abbrev pub at_least_zero : ℤ → ℕ
at_least_zero (pos n) = n
at_least_zero (negsuc n) = 0

abbrev one_if : Bool → ℕ
one_if b = if b then 1 else 0

-- The loop over the buckets.
abbrev pub count_latency : ℕ → Dict ℕ ℕ → Dict ℕ ℕ
count_latency lat [] = []
count_latency lat ((b, n) ∷ bs) =
    let rest = count_latency lat bs in (b, n + one_if (leb lat b)) ∷ rest

-- `SLOMetrics.record`
unfoldable pub record_slo : ℤ → ℤ → (success abstained : Bool) → SloMetrics → SloMetrics
record_slo latency tokens success abstained m = record {
  investigations_total = m.investigations_total + 1;
  investigations_success = m.investigations_success + one_if success;
  investigations_failed = m.investigations_failed + (if success then 0 else 1);
  investigations_abstained = m.investigations_abstained + one_if abstained;
  tokens_total = m.tokens_total + at_least_zero tokens;
  latency_sum = m.latency_sum + at_least_zero latency;
  latency_count = m.latency_count + 1;
  latency_buckets = count_latency (at_least_zero latency) m.latency_buckets;
  latency_inf = m.latency_inf + 1;
}
