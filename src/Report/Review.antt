-- ===== src/Report/Review.antt =====
-- `_judge_critique` and `_apply_critique` (app/graph/nodes.py): the deterministic judge of the
-- adversarial review, and how its verdict lowers the confidence.
use dev_ops_copilot.Base.{
  ℕ, ◌<>◌, String, Bool, true, false, none, some, List, [], ◌∷◌, ◌++◌, length, take, any_of,
  if◌then◌else◌,
}
use dev_ops_copilot.Policy.{Level, low, medium, high}
use dev_ops_copilot.Report.{
  Report, Objection, Rebuttal, Critique, ReviewVerdict, upheld, weakened, refuted,
}

-- The objections whose rebuttal at the same index is missing or does not rebut.
unfoldable pub standing : List Objection → List Rebuttal → List Objection
standing [] rs = []
standing (o ∷ os) [] = o ∷ standing os []
standing (o ∷ os) (r ∷ rs) = let rest = standing os rs in if r.rebutted then rest else o ∷ rest

abbrev pub is_high : Objection → Bool
is_high o = elim o.severity [ high ↦ true | _ ↦ false ]

abbrev pub is_medium : Objection → Bool
is_medium o = elim o.severity [ medium ↦ true | _ ↦ false ]

pub record Judgement : Type 0 where
  pub verdict : ReviewVerdict
  pub standing_objections : List Objection
  pub objection_count : ℕ
  pub standing_count : ℕ

unfoldable pub judge_critique : List Objection → List Rebuttal → Judgement
unfolding standing
judge_critique objections rebuttals =
    let left = standing objections rebuttals in
    record {
      verdict =
          if any_of is_high left
          then refuted
          else if any_of is_medium left
          then weakened
          else upheld;
      standing_objections = take 5 left;
      objection_count = length objections;
      standing_count = length left;
    }

-- `_DOWNGRADE`
abbrev pub downgrade : Level → Level
downgrade high = medium
downgrade medium = low
downgrade low = low

-- `critique["standing_objections"][0]["claim"]`, or the empty text.
abbrev top_claim : List Objection → String
top_claim [] = ""
top_claim (o ∷ _) = o.claim

-- `report.get("calibrated_confidence") or report.get("confidence")`
abbrev pub current : Report → Level
current r = elim r.calibrated_confidence [ some c ↦ c | none ↦ r.confidence ]

unfoldable pub apply_critique : Report → Critique → Report
apply_critique r c =
    let noted = record r { critique = some c } in
    elim c.verdict [
      | refuted ↦ record noted {
        calibrated_confidence = some low;
        abstained = true;
        needs =
            r.needs
            ++ ("Adversarial review raised an unrebutted objection to the root cause: "
                <> top_claim c.standing_objections)
              ∷ [];
      }
      | weakened ↦ record noted { calibrated_confidence = some (downgrade (current r)) }
      | upheld ↦ noted
    ]
