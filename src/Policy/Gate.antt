-- ===== src/Policy/Gate.antt =====
-- The confidence gate (app/policy.py): whether a pending write rests on enough evidence to be
-- approved by a program.
use dev_ops_copilot.Base.{
  ℕ, ◌<>◌, String, Bool, false, Option, none, some, List, [], ◌∷◌, not, ltb, leb, ◌==◌, nat_eq,
  keep, if◌then◌else◌,
}
use dev_ops_copilot.Base.Int.{show_ℕ}
use dev_ops_copilot.Policy.{ToolCall, Level, low, medium, high, classify, requires_approval}

-- `_CONF_RANK`
abbrev pub rank : Level → ℕ
rank low = 0
rank medium = 1
rank high = 2

abbrev pub level_name : Level → String
level_name low = "low"
level_name medium = "medium"
level_name high = "high"

unfoldable pub evidence_confidence : ℕ → Level
evidence_confidence evidence_count =
    if ltb evidence_count 2 then low else if ltb evidence_count 4 then medium else high

-- `_MIN_AUTOAPPROVE_CONF.get(risk, "high")`; `none` is a text that names no tier.
abbrev min_autoapprove_conf : Option Level → Level
min_autoapprove_conf (some risk) = risk
min_autoapprove_conf none = high

-- `_CONF_RANK.get(confidence, 0)`
abbrev rank_or_zero : Option Level → ℕ
rank_or_zero (some c) = rank c
rank_or_zero none = 0

unfoldable pub auto_approvable : Option Level → Option Level → Bool
auto_approvable risk confidence = leb (rank (min_autoapprove_conf risk)) (rank_or_zero confidence)

pub record GateResult : Type 0 where
  pub highest_risk : Level
  pub confidence : Level
  pub auto_approve_blocked : Bool
  pub reason : String

abbrev pub call_requires_approval : ToolCall → Bool
call_requires_approval c = requires_approval c.name c.args

abbrev pub call_risk : ToolCall → Level
call_risk c = (classify c.name c.args).risk

-- The loop that raises `highest`.
unfoldable pub highest_of : Level → List ToolCall → Level
highest_of highest [] = highest
highest_of highest (c ∷ calls) =
    highest_of (if ltb (rank highest) (rank (call_risk c)) then call_risk c else highest) calls

gate_reason : Level → Level → ℕ → String
gate_reason highest confidence evidence_count =
    level_name highest
    <> "-risk write proposed on "
    <> level_name confidence
    <> "-confidence evidence ("
    <> show_ℕ evidence_count
    <> " tool result"
    <> (if evidence_count == 1 then "" else "s")
    <> "); auto-approval refused — needs explicit human review."

unfoldable pub confidence_gate : List ToolCall → ℕ → GateResult
unfolding evidence_confidence auto_approvable highest_of gate_reason show_ℕ
confidence_gate tool_calls evidence_count =
    let confidence = evidence_confidence evidence_count in
    elim (keep call_requires_approval tool_calls) [
      | [] ↦ record {
        highest_risk = low;
        confidence = confidence;
        auto_approve_blocked = false;
        reason = "";
      }
      | c ∷ cs ↦
          let highest = highest_of low (c ∷ cs) in
          let blocked = not (auto_approvable (some highest) (some confidence)) in
          record {
            highest_risk = highest;
            confidence = confidence;
            auto_approve_blocked = blocked;
            reason = if blocked then gate_reason highest confidence evidence_count else "";
          }
    ]
