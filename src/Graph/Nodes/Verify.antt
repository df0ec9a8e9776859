-- ===== src/Graph/Nodes/Verify.antt =====
-- The verify node (app/graph/nodes.py): the proposed fix is assessed, the assessment is corrected
-- by what can be checked, and an unverified fix goes back to the agent a bounded number of times.
use dev_ops_copilot.Base.{
  ℕ, ◌+◌, ◌<>◌, String, Bool, true, false, Option, none, some, List, [], ◌∷◌, ◌&&◌, not, ltb, ◌==◌,
  string_eq, if◌then◌else◌,
}
use dev_ops_copilot.Base.Text.{strip}
use dev_ops_copilot.Guardrails.{join}
use dev_ops_copilot.Policy.{low, high}
use dev_ops_copilot.Report.{
  Report, sev3, Verification, FixVerdict, verified, unverified, undecided, no_fix_proposed,
}
use dev_ops_copilot.Graph.{
  AgentState, Settings, Env, investigating, done, SandboxVerdict, resolved, not_resolved,
}
use dev_ops_copilot.Graph.Fix.{Fix, extract_proposed_fix, fix_targets_cause}
use dev_ops_copilot.Graph.Nodes.{over_token_budget}

-- `_normalize_verification({…}, has_fix=False)` for a run that proposed no fix.
abbrev no_fix_verification : Verification
no_fix_verification = record {
  verdict = no_fix_proposed;
  addresses_cause = false;
  confidence = low;
  resolution_criteria = [];
  residual_risks = [];
  rationale = "No remediation was proposed to verify.";
}

-- `_parse_verification("", has_fix=True)`
abbrev fallback_verification : Verification
fallback_verification = record {
  verdict = undecided;
  addresses_cause = false;
  confidence = low;
  resolution_criteria = [];
  residual_risks = [];
  rationale = "";
}

abbrev is_verified : FixVerdict → Bool
is_verified verified = true
is_verified _ = false

abbrev is_unverified : FixVerdict → Bool
is_unverified unverified = true
is_unverified _ = false

-- A fix that does not touch what the root cause implicates is not verified.
unfoldable pub reconcile : Bool → Verification → Verification
reconcile grounded v =
    if is_verified v.verdict && not grounded
    then record v {
      verdict = undecided;
      confidence = low;
      rationale = strip (
          "[downgraded: the proposed fix does not reference the files/services implicated by the root cause] "
          <> v.rationale);
    }
    else v

-- A run of the reproducer overrides the model's opinion either way.
unfoldable pub apply_sandbox : Option SandboxVerdict → Verification → Verification
apply_sandbox (some resolved) v = record v {
  verdict = verified;
  confidence = high;
  rationale =
      strip (
        "[sandbox-proven: reproducer failed before the patch and passes after it] " <> v.rationale);
}
apply_sandbox (some not_resolved) v = record v {
  verdict = unverified;
  rationale =
      strip
        ("[sandbox-disproven: reproducer still fails after applying the patch] " <> v.rationale);
}
apply_sandbox _ v = v

-- The sandbox runs where it is enabled and the fix carries a patch.
abbrev sandbox_run : Settings → Env → Fix → Option SandboxVerdict
sandbox_run settings e fix =
    if settings.sandbox_verify && not (fix.patch == "") then some (e.sandbox fix.patch) else none

abbrev assessed : Option (Verification × ℕ) → Verification × ℕ
assessed none = (fallback_verification, 0)
assessed (some r) = r

abbrev pub judged_fix : Settings → Env → Fix → Report → Verification → Verification
judged_fix settings e fix r v =
    apply_sandbox (sandbox_run settings e fix) (reconcile (fix_targets_cause fix.text r) v)

abbrev criteria_of : List String → String
criteria_of [] = "the incident's failing signal returns to normal"
criteria_of (c ∷ cs) = join "; " (c ∷ cs)

abbrev revise_feedback : Verification → String
revise_feedback v = strip (
    "Your proposed fix does not resolve the root cause. "
    <> v.rationale
    <> " Revise the fix so it directly addresses the root cause and would satisfy: "
    <> criteria_of v.resolution_criteria
    <> ".")

unfoldable pub can_retry : Settings → AgentState → Verification → Bool
can_retry settings s v =
    is_unverified v.verdict
    && (ltb s.verify_attempts settings.verify_max_attempts
        && not (over_token_budget s.tokens_used settings))

abbrev conclude : Settings → AgentState → Report → Verification → ℕ → AgentState
conclude settings s r v tokens =
    let annotated = some (record r { verification = some v }) in
    if can_retry settings s v
    then record s {
      verification = some v;
      report = annotated;
      feedback = revise_feedback v;
      verify_attempts = s.verify_attempts + 1;
      status = investigating;
      tokens_used = s.tokens_used + tokens;
    }
    else record s {
      verification = some v;
      report = annotated;
      status = done;
      tokens_used = s.tokens_used + tokens;
    }

abbrev verify_report : Settings → Env → AgentState → Report → AgentState
verify_report settings e s r =
    let fix = extract_proposed_fix e.dump s.messages r in
    if fix.has_fix
    then conclude settings s r (judged_fix settings e fix r (assessed (e.assess r fix.text)).0)
        (assessed (e.assess r fix.text)).1
    else record s {
      verification = some no_fix_verification;
      report = some (record r { verification = some no_fix_verification });
      status = done;
    }

abbrev empty_report : Report
empty_report = record {
  summary = "";
  severity = sev3;
  confidence = low;
  root_cause = none;
  affected_services = [];
  hypotheses = [];
  evidence = [];
  recommended_actions = [];
  calibrated_confidence = none;
  abstained = false;
  needs = [];
  grounding = none;
  critique = none;
  verification = none;
}

-- `state.get("report") or {}`
abbrev report_or_empty : Option Report → Report
report_or_empty (some r) = r
report_or_empty none = empty_report

unfoldable pub verify_node : Settings → Env → AgentState → AgentState
unfolding strip join extract_proposed_fix fix_targets_cause reconcile apply_sandbox can_retry
    over_token_budget
verify_node settings e s =
    if settings.verify_fix
    then verify_report settings e s (report_or_empty s.report)
    else record s { status = done }
