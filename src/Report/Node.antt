-- ===== src/Report/Node.antt =====
-- The deterministic end of the report node (app/graph/nodes.py): calibration, grounding, and the
-- adversarial review with its two calls of a model.
use dev_ops_copilot.Base.{
  String, Bool, true, Option, none, some, List, [], ◌∷◌, ◌&&◌, if◌then◌else◌,
}
use dev_ops_copilot.Base.Text.{is_blank}
use dev_ops_copilot.Report.{Report, Objection, Rebuttal, Critique, upheld, is_given}
use dev_ops_copilot.Report.Calibration.{calibrate}
use dev_ops_copilot.Report.Corroboration.{verify_grounding}
use dev_ops_copilot.Report.Review.{judge_critique, apply_critique}

-- The two models of the review, by what is parsed from their replies; `none` where the call raises.
pub record Panel : Type 0 where
  pub prosecute : Report → Option (List Objection)
  pub defend : Report → List Objection → Option (List Rebuttal)

abbrev no_objection : Critique
no_objection = record {
  verdict = upheld;
  objections = [];
  rebuttals = [];
  standing_objections = [];
}

-- An unavailable defender leaves every objection standing.
abbrev rebuttals_or_none : Option (List Rebuttal) → List Rebuttal
rebuttals_or_none (some rs) = rs
rebuttals_or_none none = []

abbrev judged : List Objection → List Rebuttal → Critique
judged objections rebuttals =
    let j = judge_critique objections rebuttals in
    record {
      verdict = j.verdict;
      objections = objections;
      rebuttals = rebuttals;
      standing_objections = j.standing_objections;
    }

-- `(report.get("root_cause") or "").strip()` is empty.
abbrev names_no_cause : Option String → Bool
names_no_cause none = true
names_no_cause (some s) = is_blank s

unfoldable pub adversarial_critique : Panel → Report → Critique
unfolding judge_critique
adversarial_critique p r =
    if names_no_cause r.root_cause then no_objection else elim (p.prosecute r) [
      | none ↦ no_objection
      | some [] ↦ no_objection
      | some (o ∷ os) ↦ judged (o ∷ os) (rebuttals_or_none (p.defend r (o ∷ os)))
    ]

-- From the synthesized report on. `critique_on` is the setting, with the replay mode off.
unfoldable pub finish_report : Bool → Panel → Report → String → Report
unfolding calibrate verify_grounding apply_critique adversarial_critique
finish_report critique_on p r digest =
    let grounded = verify_grounding (calibrate r) digest in
    if critique_on && is_given grounded.root_cause
    then apply_critique grounded (adversarial_critique p grounded)
    else grounded
