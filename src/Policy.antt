-- ===== src/Policy.antt =====
-- The action policy engine (app/policy.py): every tool call is classified as allow, notify or
-- approve, with a risk tier and a preview of what it would do.
pub mod Gate
pub mod Laws
use dev_ops_copilot.Base.{
  ℕ, String, ◌<>◌, Bool, true, false, Option, none, some, List, [], ◌∷◌, ◌||◌, ◌==◌, string_eq,
  nat_eq, if◌then◌else◌,
}
use dev_ops_copilot.Base.Dict.{Dict, lookup}
use dev_ops_copilot.Base.Int.{ℤ, pos, negsuc}
use dev_ops_copilot.Base.Value.{Value, null, boolean, int, text, other, to_int, to_str}

pub data Decision : Type 0 where
  allow notify approve : Decision

-- The tiers of a risk and of a confidence.
pub data Level : Type 0 where
  low medium high : Level

pub record ToolCall : Type 0 where
  pub name : String
  pub args : Dict String Value
  pub id : String

pub record Rule : Type 0 where
  pub decision : Decision
  pub risk : Level
  pub why : String

pub record Classification : Type 0 where
  pub tool : String
  pub decision : Decision
  pub risk : Level
  pub why : String
  pub write : Bool
  pub preview : String

abbrev rule : Decision → Level → String → Rule
rule d r w = record { decision = d; risk = r; why = w }

-- `_POLICY`
abbrev pub policy : Dict String Rule
policy =
    ("create_pull_request", rule approve medium "Opens a real pull request against the repository")
    ∷ ("add_incident_note", rule notify low "Posts a note to the incident timeline")
    ∷ ("acknowledge_incident", rule notify low "Acknowledges the incident (reversible)")
    ∷ ("resolve_incident", rule approve medium "Marks the incident resolved")
    ∷ ("scale_deployment", rule approve high "Changes the replica count of a live deployment")
    ∷ ("rollback_deployment", rule approve high "Rolls a deployment back to a previous revision")
    ∷ ("restart_deployment", rule approve medium "Triggers a rolling restart of a deployment")
    ∷ []

-- `_POLICY.get(tool_name, ("allow", "low", …))`
unfoldable pub base_rule : String → Rule
base_rule tool_name = elim (lookup tool_name policy) [
  | none ↦ rule allow low "Read-only — no external side effects"
  | some r ↦ r
]

is_zero : Option ℤ → Bool
is_zero (some (pos n)) = n == 0
is_zero (some (negsuc n)) = false
is_zero none = false

-- `args.get("replicas")` converts to the integer 0.
unfoldable pub scales_to_zero : Dict String Value → Bool
unfolding is_zero
scales_to_zero args = elim (lookup "replicas" args) [ none ↦ false | some v ↦ is_zero (to_int v) ]

-- `v not in (None, "")`
abbrev is_given : Value → Bool
is_given null = false
is_given (text s n) = if s == "" then false else true
is_given _ = true

-- `_g(*keys)`
unfoldable pub first_given : List String → Dict String Value → String
unfolding to_str
first_given [] args = "?"
first_given (k ∷ keys) args = elim (lookup k args) [
  | none ↦ first_given keys args
  | some v ↦ elim (is_given v) [ true ↦ to_str v | false ↦ first_given keys args ]
]

unfoldable pub describe_action : String → Dict String Value → String
unfolding first_given
describe_action tool_name args =
    if tool_name == "create_pull_request"
    then "Open PR “"
      <> g ("title" ∷ [])
      <> "” ("
      <> g ("head" ∷ [])
      <> " → "
      <> g ("base" ∷ [])
      <> ")"
    else if tool_name == "scale_deployment"
    then "Scale " <> deployment <> " to " <> g ("replicas" ∷ []) <> " replica(s)"
    else if tool_name == "rollback_deployment"
    then "Roll back " <> deployment <> " to a previous revision"
    else if tool_name == "restart_deployment"
    then "Restart " <> deployment
    else if tool_name == "resolve_incident"
    then "Resolve incident " <> incident
    else if tool_name == "acknowledge_incident"
    then "Acknowledge incident " <> incident
    else if tool_name == "add_incident_note"
    then "Add note to incident " <> incident
    else tool_name
  where
    g : List String → String
    g keys = first_given keys args

    deployment : String
    deployment = g ("deployment" ∷ "name" ∷ [])

    incident : String
    incident = g ("incident_id" ∷ "id" ∷ [])

abbrev is_write : Decision → Bool
is_write allow = false
is_write notify = true
is_write approve = true

-- The escalation that depends on the arguments, over the base rule.
unfoldable pub escalate : String → Dict String Value → Rule
unfolding base_rule scales_to_zero
escalate tool_name args =
    if tool_name == "scale_deployment"
    then (if scales_to_zero args
        then rule approve high "Scales the deployment to ZERO replicas (full outage of the service)"
        else base_rule tool_name)
    else base_rule tool_name

unfoldable pub classify : String → Dict String Value → Classification
unfolding escalate describe_action
classify tool_name args =
    let r = escalate tool_name args in
    record {
      tool = tool_name;
      decision = r.decision;
      risk = r.risk;
      why = r.why;
      write = is_write r.decision;
      preview = describe_action tool_name args;
    }

abbrev pub is_approve : Decision → Bool
is_approve approve = true
is_approve _ = false

unfoldable pub requires_approval : String → Dict String Value → Bool
unfolding classify
requires_approval tool_name args = is_approve (classify tool_name args).decision

-- `{t for t, (d, _, _) in _POLICY.items() if d == "approve"}`
abbrev approve_names : Dict String Rule → List String
approve_names [] = []
approve_names ((t, r) ∷ rules) =
    let rest = approve_names rules in if is_approve r.decision then t ∷ rest else rest

-- `APPROVE_TOOLS`
unfoldable pub approve_tools : List String
approve_tools = approve_names policy
