-- ===== src/Report/Calibration.antt =====
-- `_calibrate_confidence` (app/graph/nodes.py): the confidence that the amount of evidence allows.
use dev_ops_copilot.Base.{
  ℕ, ◌+◌, String, Bool, some, List, [], ◌∷◌, ◌++◌, ◌&&◌, ◌||◌, not, ltb, leb, length, any_of,
  if◌then◌else◌,
}
use dev_ops_copilot.Policy.{Level, low, medium, high}
use dev_ops_copilot.Report.{Report, Hypothesis, is_validated, is_given}

-- `sum(len(h.get("evidence") or []) for h in hyps)`
abbrev hyp_evidence : List Hypothesis → ℕ
hyp_evidence [] = 0
hyp_evidence (h ∷ hs) = length h.evidence + hyp_evidence hs

abbrev pub total_evidence : Report → ℕ
total_evidence r = length r.evidence + hyp_evidence r.hypotheses

abbrev pub has_validated : Report → Bool
has_validated r = any_of is_validated r.hypotheses

abbrev pub has_root_cause : Report → Bool
has_root_cause r = is_given r.root_cause

abbrev pub when : Bool → String → List String
when b s = if b then s ∷ [] else []

abbrev pub need_root_cause : String
need_root_cause = "Establish and state a single most-likely root cause."

abbrev pub need_hypothesis : String
need_hypothesis = "Validate a hypothesis against telemetry (logs/metrics/traces)."

abbrev pub need_evidence : String
need_evidence = "Gather more cited evidence (exact log lines, metric values, file:line, commits)."

abbrev pub level_for : ℕ → Bool → Bool → Level
level_for total valid cause =
    if leb 3 total && (valid && cause)
    then high
    else if leb 2 total && (valid || cause)
    then medium
    else low

abbrev pub abstains : ℕ → Bool → Bool → Bool
abstains total valid cause = ltb total 2 || (not valid && not cause)

abbrev pub needs_for : ℕ → Bool → Bool → List String
needs_for total valid cause =
    if abstains total valid cause
    then when (not cause) need_root_cause
      ++ when (not valid) need_hypothesis
      ++ when (ltb total 2) need_evidence
    else []

unfoldable pub calibrate : Report → Report
calibrate r =
    let total = total_evidence r in
    let valid = has_validated r in
    let cause = has_root_cause r in
    record r {
      calibrated_confidence = some (level_for total valid cause);
      abstained = abstains total valid cause;
      needs = needs_for total valid cause;
    }
