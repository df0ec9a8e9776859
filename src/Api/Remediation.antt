-- ===== src/Api/Remediation.antt =====
-- The request for an autonomous remediation, and the callback of Slack's buttons (app/api/main.py:
-- remediate, slack_interactions).
pub mod Effects
use dev_ops_copilot.Base.{
  ℕ, ◌<>◌, String, Bool, true, false, Option, none, some, List, [], ◌∷◌, ◌&&◌, ◌||◌, not, ◌==◌,
  string_eq, if◌then◌else◌,
}
use dev_ops_copilot.Base.Int.{ℤ}
use dev_ops_copilot.Autonomy
use dev_ops_copilot.Autonomy.{Controller, RemediationPlan, Effect, is_eligible}
use dev_ops_copilot.Api.{Reply, ok, refused, crashed}
use dev_ops_copilot.Api.Signatures.{verify_slack}
use dev_ops_copilot.Api.Webhooks.{Seen, HookEnv, claim_delivery}

pub record RemediateRequest : Type 0 where
  pub action : String
  pub target : String
  pub reason : String
  pub confidence : String
  pub namespace : String

-- The compensating action of a rollback; a restart has none.
abbrev pub revert_action : String → Option String
revert_action action = if action == "rollback_deployment" then some "restart_deployment" else none

abbrev pub plan_of_request : RemediateRequest → RemediationPlan
plan_of_request r = record {
  action = r.action;
  target = r.target;
  reason = r.reason;
  revert_action = revert_action r.action;
  namespace = r.namespace;
}

abbrev pub answer : List Effect × Option Autonomy.Result → List Effect × Reply Autonomy.Result
answer (effects, none) = (effects, crashed)
answer (effects, some result) = (effects, ok result)

abbrev pub if_eligible :
    Controller → RemediateRequest → Bool × String → List Effect × Reply Autonomy.Result
if_eligible c r (false, why) = ([], refused 400 ("Ineligible for autonomous remediation: " <> why))
if_eligible c r (true, why) = answer (Autonomy.remediate c (plan_of_request r))

-- `POST /remediate`; `enabled` is the setting for autonomy, and the controller's `dry_run` that for
-- dry runs.
unfoldable pub post_remediate :
    Bool → Controller → RemediateRequest → List Effect × Reply Autonomy.Result
unfolding is_eligible Autonomy.remediate
post_remediate enabled c r =
    if not enabled
    then ([], refused 403 "Autonomous remediation is disabled (set COPILOT_AUTONOMY=true).")
    else if_eligible c r (is_eligible r.action r.confidence enabled)

-- A button of a message: its value, which is the thread, and whether it is the one that approves.
abbrev pub Button : Type 0
Button = String × Bool

abbrev pub button_text : Bool → String
button_text approved =
    (if approved then "Approved" else "Rejected") <> " — continuing the investigation."

-- The deliveries seen, the answer's text, and the thread that is resumed with the decision.
abbrev pub Interaction : Type 0
Interaction = Seen × Reply String × Option Button

abbrev pub press : HookEnv → Button → Seen × Bool → Interaction
press env (thread_id, approved) (seen, false) = (seen, ok "Already processed.", none)
press env (thread_id, approved) (seen, true) = (
  seen,
  ok (button_text approved),
  if env.has_llm_key && not (thread_id == "") then some (thread_id, approved) else none,
)

abbrev pub interact : HookEnv → ℕ → String → Seen → Option (Option Button) → Interaction
interact env now body seen none = (seen, refused 400 "invalid interaction payload", none)
interact env now body seen (some none) = (seen, ok "No action.", none)
interact env now body seen (some (some b)) = press env b (claim_delivery env.sha256 now body seen)

-- `slack_interactions`; `button_of` is the first button of the form's payload, `none` where the
-- payload is no JSON and `some none` where it has none.
unfoldable pub slack_interactions :
    HookEnv
    → (slack_secret : String) → (String → Option (Option Button))
    → (now : ℕ) → (body timestamp signature : String) → Seen
    → Interaction
unfolding verify_slack claim_delivery
slack_interactions env slack_secret button_of now body timestamp signature seen =
    if (slack_secret == "")
      || not (verify_slack env.hmac env.to_int now slack_secret timestamp body signature)
    then (seen, refused 401 "invalid or unconfigured Slack signature", none)
    else interact env now body seen (button_of body)
