-- ===== src/Autonomy.antt =====
-- The remediation loop (app/autonomy.py). What it does to the world is a list of effects, the
-- first first; what `observe_fn` returns depends on the effects before the observation.
pub mod Laws
use dev_ops_copilot.Base.{
  ℕ, ◌*◌, ◌<>◌, String, Bool, true, false, Option, none, some, List, [], ◌∷◌, ◌++◌, ◌&&◌, not, ltb,
  ◌==◌, string_eq, contains, if◌then◌else◌, suc,
}
use dev_ops_copilot.Base.Dict.{Dict, lookup, get_or}
use dev_ops_copilot.Base.Int.{ℤ, pos, negsuc}
use dev_ops_copilot.Base.Value.{Value, int, truthy}
use dev_ops_copilot.SloPoller.{Burn, is_page_worthy}

-- `REVERSIBLE_ACTIONS`
abbrev pub reversible_actions : List String
reversible_actions = "rollback_deployment" ∷ "restart_deployment" ∷ []

pub record RemediationPlan : Type 0 where
  pub action : String
  pub target : String
  pub reason : String
  pub revert_action : Option String
  pub namespace : String

unfoldable pub is_eligible : String → String → Bool → Bool × String
is_eligible action confidence enabled =
    if not enabled
    then (false, "autonomy is disabled (COPILOT_AUTONOMY=false)")
    else if not (contains reversible_actions action)
    then (
      false,
      "'" <> action
          <> "' is not a reversible auto-remediation (['restart_deployment', 'rollback_deployment'])",
    )
    else if not (confidence == "high")
    then (
      false,
      "investigation confidence is '" <> confidence <> "', not high enough to act autonomously",
    )
    else (true, "")

-- `10 * a > 11 * b`
abbrev pub grew : ℤ → ℤ → Bool
grew (pos a) (pos b) = ltb (11 * b) (10 * a)
grew (pos a) (negsuc b) = true
grew (negsuc a) (pos b) = false
grew (negsuc a) (negsuc b) = ltb (10 * suc a) (11 * suc b)

pub data Recovery : Type 0 where
  recovered : Recovery
  regressed : Recovery
  no_change : Recovery

pub data Effect : Type 0 where
  observed : String → Effect
  executed : String → String → Effect
  slept : Effect
  reverted : String → String → Effect

pub data Status : Type 0 where
  dry_run_only : Status
  succeeded : Status
  rolled_back : Status
  escalated : Status

-- The result, less the texts that repeat the plan.
pub record Result : Type 0 where
  pub status : Status
  pub before : Burn
  pub applied : Option Value
  pub after : Option Burn
  pub outcome : Option Recovery
  pub revert_result : Option Value

-- `to_float` is Python's `float`, in whole numbers of some fraction; `none` is a `TypeError` or a
-- `ValueError`.
module _ (to_float : Value → Option ℤ) where
  short_burn : Burn → ℤ
  short_burn sig =
      let v = get_or "burn_rate_short" (get_or "current_error_rate" (int (pos 0)) sig) sig in
      elim (to_float (if truthy v then v else int (pos 0))) [ some n ↦ n | none ↦ pos 0 ]

  unfoldable pub evaluate_recovery : Burn → Burn → Recovery
  unfolding short_burn
  evaluate_recovery before after =
      if not (is_page_worthy after)
      then recovered
      else if grew (short_burn after) (short_burn before)
      then regressed
      else no_change

-- The controller's injected functions: a result, or `none` where the call raises.
pub record Controller : Type 0 where
  pub observe_fn : List Effect → String → Burn
  pub execute_fn : String → String → Option Value
  pub revert_fn : String → String → Option Value
  pub to_float : Value → Option ℤ
  pub dry_run : Bool

-- `if plan.revert_action`
abbrev pub revert_of : RemediationPlan → Option String
revert_of plan = elim plan.revert_action [ none ↦ none | some a ↦ if a == "" then none else some a ]

abbrev pub result_of : Burn → Value → Burn → Recovery → Result
result_of before applied after outcome = record {
  status = succeeded;
  before = before;
  applied = some applied;
  after = some after;
  outcome = some outcome;
  revert_result = none;
}

-- After the action did not recover the signal.
abbrev pub undo :
    Controller
    → RemediationPlan
    → List Effect
    → Result
    → Option String
    → List Effect × Option Result
undo c plan effects result none = (effects, some (record result { status = escalated }))
undo c plan effects result (some revert) = (
  effects ++ reverted revert plan.target ∷ [],
  elim (c.revert_fn revert plan.target) [
    | none ↦ none
    | some r ↦ some (record result { status = rolled_back; revert_result = some r })
  ],
)

-- After the action was applied: the wait, the second observation and what follows.
abbrev pub watch :
    Controller → RemediationPlan → Burn → List Effect → Value → List Effect × Option Result
watch c plan before effects applied =
    let waited = effects ++ slept ∷ [] in
    let after = c.observe_fn waited plan.target in
    let effects' = waited ++ observed plan.target ∷ [] in
    let outcome = evaluate_recovery c.to_float before after in
    let result = result_of before applied after outcome in
    elim outcome [
      | recovered ↦ (effects', some result)
      | regressed ↦ undo c plan effects' result (revert_of plan)
      | no_change ↦ undo c plan effects' result (revert_of plan)
    ]

-- The action and what follows it.
abbrev pub run_plan : Controller → RemediationPlan → List Effect × Option Result
run_plan c plan =
    let effects = observed plan.target ∷ executed plan.action plan.target ∷ [] in
    elim (c.execute_fn plan.action plan.target) [
      | none ↦ (effects, none)
      | some applied ↦ watch c plan (c.observe_fn [] plan.target) effects applied
    ]

-- `remediate`: the effects, and the result unless an injected call raises.
unfoldable pub remediate : Controller → RemediationPlan → List Effect × Option Result
unfolding evaluate_recovery
remediate c plan =
    if c.dry_run
    then (
      observed plan.target ∷ [],
      some (record {
        status = dry_run_only;
        before = c.observe_fn [] plan.target;
        applied = none;
        after = none;
        outcome = none;
        revert_result = none;
      }),
    )
    else run_plan c plan
