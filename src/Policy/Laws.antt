-- ===== src/Policy/Laws.antt =====
-- The laws of the policy engine and its confidence gate (app/policy.py).
use dev_ops_copilot.Base.{
  ℕ, ◌≤◌, ◌≡◌, refl, ◌∙◌, String, Bool, false, some, List, [], ◌∷◌, not, ◌&&◌, ◌||◌, arith, leb,
  contains, ◌==◌, string_eq, str_eq_iff, keep, any_of, any_of-keep, sym, Bool-cases, leb_zero,
  Option-cases, Option, none, inl, inr, ap,
}
use dev_ops_copilot.Base.Dict.{Dict, lookup}
use dev_ops_copilot.Base.Value.{Value}
use dev_ops_copilot.Policy.{
  ToolCall, Level, low, base_rule, classify, requires_approval, approve_tools, is_approve, policy,
  Rule, approve_names,
}
use dev_ops_copilot.Policy.Gate.{
  rank, evidence_confidence, auto_approvable, confidence_gate, highest_of, call_risk,
  call_requires_approval,
}

-- Whatever the arguments are, the decision and the risk of a call are those of the policy table
-- for its name: the escalation of a scale to zero replicas raises neither, since the table already
-- has them at their highest.
pub classify-base_rule :
    (name : String) (args : Dict String Value)
    → ((classify name args).decision ≡ (base_rule name).decision)
      × ((classify name args).risk ≡ (base_rule name).risk)
unfolding classify
classify-base_rule name args = elim (Bool-cases (name == "scale_deployment")) [
  | inl e ↦ rw e (rw ((str_eq_iff _ _).0 e) (ground arith))
  | inr e ↦ rw e (refl, refl)
]

abbrev approves : Option Rule → Bool
approves none = false
approves (some r) = is_approve r.decision

abbrev NodupNames : Dict String Rule → Type 0
NodupNames [] = Unit
NodupNames ((t, _) ∷ rules) = (lookup t rules ≡ none) × NodupNames rules

approve_names-lookup :
    (name : String) (rules : Dict String Rule)
    → NodupNames rules
    → approves (lookup name rules) ≡ contains (approve_names rules) name
approve_names-lookup name [] h = refl
approve_names-lookup name ((t, r) ∷ rules) (fresh, h) =
    ground (arith, str_eq_iff name t, approve_names-lookup name rules h)

base_rule-approves :
    (name : String) → is_approve (base_rule name).decision ≡ approves (lookup name policy)
unfolding base_rule
base_rule-approves name = elim (Option-cases (lookup name policy)) [
  | inl e ↦ rw (e, base_rule) refl
  | inr (r, e) ↦ rw (e, base_rule) refl
]

-- A call must pause for a human exactly when its tool is one of APPROVE_TOOLS, whatever its
-- arguments are.
pub requires_approval-approve_tools :
    (name : String) (args : Dict String Value)
    → requires_approval name args ≡ contains approve_tools name
unfolding requires_approval approve_tools
requires_approval-approve_tools name args =
    ap is_approve (classify-base_rule name args).0
    ∙ base_rule-approves name
    ∙ approve_names-lookup name policy (ground arith)

-- The running maximum exceeds a rank exactly when its start or one of the calls does.
highest_of-exceeds :
    (r : ℕ) (h : Level) (calls : List ToolCall)
    → not (leb (rank (highest_of h calls)) r)
      ≡ (not (leb (rank h) r) || any_of (λ c. not (leb (rank (call_risk c)) r)) calls)
unfolding highest_of
highest_of-exceeds r h [] = ground arith
highest_of-exceeds r h (c ∷ calls) =
    ground (arith, highest_of-exceeds r h calls, highest_of-exceeds r (call_risk c) calls)

-- With no approve-class call the gate is open; otherwise it is shut by the highest risk.
gate_calls-blocked :
    (calls : List ToolCall) (n : ℕ)
    → (confidence_gate calls n).auto_approve_blocked
      ≡ not (
          leb
            (rank (highest_of low (keep call_requires_approval calls)))
            (rank (evidence_confidence n)))
unfolding confidence_gate auto_approvable
gate_calls-blocked calls n = go (keep call_requires_approval calls) refl
  where
    go :
        (kept : List ToolCall)
        → keep call_requires_approval calls ≡ kept
        → (confidence_gate calls n).auto_approve_blocked
          ≡ not (
              leb
                (rank (highest_of low (keep call_requires_approval calls)))
                (rank (evidence_confidence n)))
    go [] e = rw (e, confidence_gate) (ground arith)
    go (c ∷ cs) e = rw (e, confidence_gate) refl

-- The gate blocks an automatic approval exactly when one of the approve-class calls carries a
-- risk that the confidence of the evidence does not cover on its own.
pub confidence_gate-blocked :
    (calls : List ToolCall) (n : ℕ)
    → (confidence_gate calls n).auto_approve_blocked
      ≡ any_of
          (λ c.
            call_requires_approval c
            && not (auto_approvable (some (call_risk c)) (some (evidence_confidence n))))
          calls
unfolding auto_approvable
confidence_gate-blocked calls n =
    gate_calls-blocked calls n
    ∙ highest_of-exceeds (rank (evidence_confidence n)) low (keep call_requires_approval calls)
    ∙ rw (leb_zero (rank (evidence_confidence n))) (any_of-keep _ _ calls)

-- More evidence never blocks what less evidence lets through.
pub confidence_gate_mono :
    (calls : List ToolCall) (m n : ℕ)
    → m ≤ n
    → (confidence_gate calls m).auto_approve_blocked ≡ false
    → (confidence_gate calls n).auto_approve_blocked ≡ false
unfolding evidence_confidence
confidence_gate_mono calls m n h open_ =
    gate_calls-blocked calls n ∙ ground (arith, sym (gate_calls-blocked calls m) ∙ open_)
