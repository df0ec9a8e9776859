-- ===== src/Report/Parse.antt =====
-- What the model's JSON becomes (app/graph/nodes.py: _coerce_str_list, _normalize_report,
-- _parse_report, _normalize_verification, _parse_verification, _parse_objections, _parse_rebuttals).
-- `loads` is `json.loads`, `none` where it raises.
pub mod Bounds
use dev_ops_copilot.Base.{
  ℕ, zero, suc, String, Bool, true, false, Option, none, some, List, [], ◌∷◌, not, ◌==◌, string_eq,
  take, if◌then◌else◌,
}
use dev_ops_copilot.Base.Dict.{Dict, get_or, lookup}
use dev_ops_copilot.Base.Text.{strip, take_chars, is_blank}
use dev_ops_copilot.Base.Case.{lower_str, upper_str}
use dev_ops_copilot.Base.Json.{
  Json, null, boolean, number, text, array, object, Fields, end, elements, get, is_true, Printer,
  str_or_empty, reply_object,
}
use dev_ops_copilot.Policy.{Level, low, medium, high}
use dev_ops_copilot.Report.{
  Severity, sev1, sev2, sev3, sev4, info, Verdict, validated, invalidated, inconclusive, Hypothesis,
  Objection, Rebuttal, FixVerdict, verified, unverified, undecided, no_fix_proposed, Verification,
  Report,
}

-- `_SEVERITIES`, `_CONFIDENCE`, `_VERDICTS` and `_VERIFY_VERDICTS`
abbrev pub severities : Dict String Severity
severities = ("SEV1", sev1) ∷ ("SEV2", sev2) ∷ ("SEV3", sev3) ∷ ("SEV4", sev4) ∷ ("INFO", info) ∷ []

abbrev pub confidences : Dict String Level
confidences = ("high", high) ∷ ("medium", medium) ∷ ("low", low) ∷ []

abbrev pub verdicts : Dict String Verdict
verdicts =
    ("validated", validated) ∷ ("invalidated", invalidated) ∷ ("inconclusive", inconclusive) ∷ []

abbrev pub verify_verdicts : Dict String FixVerdict
verify_verdicts =
    ("verified", verified)
    ∷ ("unverified", unverified)
    ∷ ("inconclusive", undecided)
    ∷ ("no_fix_proposed", no_fix_proposed)
    ∷ []

-- `data.get(key)` if it is a text, stripped; "" otherwise.
abbrev pub text_or_empty : Option Json → String
text_or_empty (some (text s)) = strip s
text_or_empty _ = ""

abbrev non_empty : String → Option String
non_empty s = if s == "" then none else some s

abbrev cut : ℕ → Option String → Option String
cut n none = none
cut n (some s) = some (take_chars n s)

abbrev or_text : String → String → String
or_text fallback s = if s == "" then fallback else s

module _ (p : Printer) where
  abbrev item_text : Json → String
  item_text (text s) = s
  item_text v = p.dumps v

  -- The loop of `_coerce_str_list`, with the number of texts that still fit.
  abbrev pub coerce_items : ℕ → ℕ → List Json → List String
  coerce_items max_chars zero vs = []
  coerce_items max_chars (suc n) [] = []
  coerce_items max_chars (suc n) (v ∷ vs) =
      let skipped = coerce_items max_chars (suc n) vs in
      let rest = coerce_items max_chars n vs in
      if strip (item_text v) == ""
      then skipped
      else take_chars max_chars (strip (item_text v)) ∷ rest

  -- `_coerce_str_list`, for a limit above 0.
  unfoldable pub coerce_str_list : ℕ → ℕ → Option Json → List String
  coerce_str_list limit max_chars (some (text s)) = coerce_items max_chars limit (text s ∷ [])
  coerce_str_list limit max_chars (some (array vs)) = coerce_items max_chars limit (elements vs)
  coerce_str_list limit max_chars _ = []

  -- The lower-cased text under a key.
  abbrev pub word : String → Fields → String
  word key fs = lower_str (strip (str_or_empty p (get key fs)))

  abbrev pub cause_of : Json → String
  cause_of (object fs) = strip (str_or_empty p (get "cause" fs))
  cause_of _ = ""

  abbrev pub hypothesis_of : Json → Hypothesis
  hypothesis_of (object fs) = record {
    cause = take_chars 400 (strip (str_or_empty p (get "cause" fs)));
    verdict = get_or (word "verdict" fs) inconclusive verdicts;
    confidence = get_or (word "confidence" fs) low confidences;
    evidence = coerce_str_list 8 400 (get "evidence" fs);
  }
  hypothesis_of v = record { cause = ""; verdict = inconclusive; confidence = low; evidence = [] }

  -- The first hypotheses with a cause, at most as many as the number says.
  abbrev pub hypotheses_among : ℕ → List Json → List Hypothesis
  hypotheses_among zero vs = []
  hypotheses_among (suc n) [] = []
  hypotheses_among (suc n) (v ∷ vs) =
      let skipped = hypotheses_among (suc n) vs in
      let rest = hypotheses_among n vs in
      if cause_of v == "" then skipped else hypothesis_of v ∷ rest

  -- The elements under a key that holds an array.
  abbrev pub listed : Option Json → List Json
  listed (some (array vs)) = elements vs
  listed _ = []

  abbrev no_summary : String
  no_summary = "(no summary produced)"

  -- What `_parse_report` returns where there is no object.
  abbrev pub fallback_report : String → Report
  fallback_report fallback_summary = record {
    summary = or_text no_summary (take_chars 1500 (strip fallback_summary));
    severity = sev3;
    confidence = low;
    root_cause = none;
    affected_services = [];
    hypotheses = [];
    evidence = [];
    recommended_actions = [];
    calibrated_confidence = none;
    abstained = false;
    needs = [];
    grounding = none;
    critique = none;
    verification = none;
  }

  unfoldable pub normalize_report : Fields → String → Report
  unfolding coerce_str_list
  normalize_report fs fallback_summary = record {
    summary =
        or_text no_summary
          (take_chars 1500 (or_text (strip fallback_summary) (text_or_empty (get "summary" fs))));
    severity = get_or (upper_str (strip (str_or_empty p (get "severity" fs)))) sev3 severities;
    confidence = get_or (word "confidence" fs) low confidences;
    root_cause = cut 400 (non_empty (text_or_empty (get "root_cause" fs)));
    affected_services = coerce_str_list 12 80 (get "affected_services" fs);
    hypotheses = hypotheses_among 10 (listed (get "hypotheses" fs));
    evidence = coerce_str_list 20 400 (get "evidence" fs);
    recommended_actions = coerce_str_list 12 400 (get "recommended_actions" fs);
    calibrated_confidence = none;
    abstained = false;
    needs = [];
    grounding = none;
    critique = none;
    verification = none;
  }

  abbrev report_or : String → Option Fields → Report
  report_or fallback_summary none = fallback_report fallback_summary
  report_or fallback_summary (some fs) = normalize_report fs fallback_summary

  unfoldable pub parse_report : (String → Option Json) → String → String → Report
  unfolding normalize_report reply_object
  parse_report loads reply fallback_summary =
      if is_blank reply
      then fallback_report fallback_summary
      else report_or fallback_summary (reply_object loads reply)

  abbrev pub given_true : Option Json → Bool
  given_true none = false
  given_true (some v) = is_true v

  unfoldable pub normalize_verification : Fields → Bool → Verification
  unfolding coerce_str_list
  normalize_verification fs has_fix = record {
    verdict =
        get_or (word "verdict" fs) (if has_fix then undecided else no_fix_proposed) verify_verdicts;
    addresses_cause = given_true (get "addresses_cause" fs);
    confidence = get_or (word "confidence" fs) low confidences;
    resolution_criteria = coerce_str_list 8 400 (get "resolution_criteria" fs);
    residual_risks = coerce_str_list 8 400 (get "residual_risks" fs);
    rationale = take_chars 600 (text_or_empty (get "rationale" fs));
  }

  abbrev verification_or : Bool → Option Fields → Verification
  verification_or has_fix none = normalize_verification end has_fix
  verification_or has_fix (some fs) = normalize_verification fs has_fix

  unfoldable pub parse_verification : (String → Option Json) → String → Bool → Verification
  unfolding normalize_verification reply_object
  parse_verification loads reply has_fix =
      if is_blank reply
      then normalize_verification end has_fix
      else verification_or has_fix (reply_object loads reply)

  abbrev pub claim_of : Json → String
  claim_of (object fs) = strip (str_or_empty p (get "claim" fs))
  claim_of _ = ""

  abbrev pub objection_of : Json → Objection
  objection_of (object fs) = record {
    claim = take_chars 300 (strip (str_or_empty p (get "claim" fs)));
    severity = get_or (word "severity" fs) low confidences;
  }
  objection_of v = record { claim = ""; severity = low }

  abbrev pub objections_among : ℕ → List Json → List Objection
  objections_among zero vs = []
  objections_among (suc n) [] = []
  objections_among (suc n) (v ∷ vs) =
      let skipped = objections_among (suc n) vs in
      let rest = objections_among n vs in
      if claim_of v == "" then skipped else objection_of v ∷ rest

  abbrev under : String → Option Fields → List Json
  under key none = []
  under key (some fs) = listed (get key fs)

  unfoldable pub parse_objections : (String → Option Json) → String → List Objection
  unfolding reply_object
  parse_objections loads reply = objections_among 5 (under "objections" (reply_object loads reply))

  abbrev pub rebuttals_among : List Json → List Rebuttal
  rebuttals_among [] = []
  rebuttals_among (object fs ∷ vs) =
      record {
        objection = take_chars 300 (strip (str_or_empty p (get "objection" fs)));
        rebutted = given_true (get "rebutted" fs);
        evidence = take_chars 300 (strip (str_or_empty p (get "evidence" fs)));
      }
      ∷ rebuttals_among vs
  rebuttals_among (_ ∷ vs) = rebuttals_among vs

  unfoldable pub parse_rebuttals : (String → Option Json) → String → List Rebuttal
  unfolding reply_object
  parse_rebuttals loads reply = rebuttals_among (under "rebuttals" (reply_object loads reply))
