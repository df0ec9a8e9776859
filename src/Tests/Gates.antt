-- ===== src/Tests/Gates.antt =====
-- The policy, the gate and the report at concrete inputs.
use dev_ops_copilot.Base.{◌≡◌, ◌≢◌, refl, true, some, List, [], ◌∷◌, ◌&&◌, not, any_of, string_eq}
use dev_ops_copilot.Policy.{low, high}
use dev_ops_copilot.Policy.Gate.{
  confidence_gate, auto_approvable, call_requires_approval, call_risk, evidence_confidence,
}
use dev_ops_copilot.Policy.Laws.{confidence_gate-blocked}
use dev_ops_copilot.Report.{Objection}
use dev_ops_copilot.Report.Corroboration.{verify_grounding, salient_tokens}
use dev_ops_copilot.Report.Calibration.{calibrate}
use dev_ops_copilot.Report.Node.{finish_report}
use dev_ops_copilot.Report.Laws.{finish_report-abstains}
use dev_ops_copilot.Tests.Fixtures.{restart, read_logs, bare_report, no_objections}

confidence_gate-blocked_example :
    (confidence_gate (read_logs ∷ restart ∷ []) 1).auto_approve_blocked
    ≡ any_of
        (λ c.
          call_requires_approval c
          && not (auto_approvable (some (call_risk c)) (some (evidence_confidence 1))))
        (read_logs ∷ restart ∷ [])
confidence_gate-blocked_example = confidence_gate-blocked (read_logs ∷ restart ∷ []) 1

finish_report-abstains_example :
    ((finish_report true no_objections bare_report "").calibrated_confidence ≡ some low)
    × ((finish_report true no_objections bare_report "").needs ≢ [])
unfolding finish_report calibrate verify_grounding salient_tokens
finish_report-abstains_example = finish_report-abstains true no_objections bare_report "" refl

abbrev objections : List Objection
objections = record { claim = "the deploy came after the errors"; severity = high } ∷ []
