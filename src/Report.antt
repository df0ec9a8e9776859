-- ===== src/Report.antt =====
-- The structured root-cause report of a finished investigation (app/graph/nodes.py).
pub mod Calibration
pub mod Corroboration
pub mod Review
pub mod Node
pub mod Judging
pub mod Laws
pub mod Parse
pub mod Probe
use dev_ops_copilot.Base.{
  ℕ, String, Bool, true, false, Option, none, some, List, [], ◌∷◌, ◌++◌, ◌==◌, string_eq, not,
  if◌then◌else◌,
}
use dev_ops_copilot.Policy.{Level, low, medium, high}

pub data Severity : Type 0 where
  sev1 sev2 sev3 sev4 info : Severity

pub data Verdict : Type 0 where
  validated invalidated inconclusive : Verdict

pub record Hypothesis : Type 0 where
  pub cause : String
  pub verdict : Verdict
  pub confidence : Level
  pub evidence : List String

pub data ReviewVerdict : Type 0 where
  upheld weakened refuted : ReviewVerdict

pub record Objection : Type 0 where
  pub claim : String
  pub severity : Level

pub record Rebuttal : Type 0 where
  pub objection : String
  pub rebutted : Bool
  pub evidence : String

pub record Critique : Type 0 where
  pub verdict : ReviewVerdict
  pub objections : List Objection
  pub rebuttals : List Rebuttal
  pub standing_objections : List Objection

pub data FixVerdict : Type 0 where
  verified unverified undecided no_fix_proposed : FixVerdict

pub record Verification : Type 0 where
  pub verdict : FixVerdict
  pub addresses_cause : Bool
  pub confidence : Level
  pub resolution_criteria : List String
  pub residual_risks : List String
  pub rationale : String

-- The result of the grounding pass; `ratio` is the pair `grounded` of `checked`.
pub record Grounding : Type 0 where
  pub checked : ℕ
  pub grounded : ℕ
  pub ungrounded_examples : List String

-- The keys that a pass has not written yet are `none`.
pub record Report : Type 0 where
  pub summary : String
  pub severity : Severity
  pub confidence : Level
  pub root_cause : Option String
  pub affected_services : List String
  pub hypotheses : List Hypothesis
  pub evidence : List String
  pub recommended_actions : List String
  pub calibrated_confidence : Option Level
  pub abstained : Bool
  pub needs : List String
  pub grounding : Option Grounding
  pub critique : Option Critique
  pub verification : Option Verification

-- `bool(text)` for a text that may be missing.
abbrev pub is_given : Option String → Bool
is_given none = false
is_given (some s) = not (s == "")

abbrev pub is_validated : Hypothesis → Bool
is_validated h = elim h.verdict [ validated ↦ true | _ ↦ false ]

abbrev pub evidence_of : List Hypothesis → List String
evidence_of [] = []
evidence_of (h ∷ hs) = h.evidence ++ evidence_of hs
