-- ===== src/Autonomy/Laws.antt =====
-- The laws of the remediation (app/autonomy.py: remediate, evaluate_recovery).
use dev_ops_copilot.Base.{
  ◌≡◌, refl, ◌↔◌, String, false, Option, none, some, List, [], ◌∷◌, string_eq, arith, Bool-cases,
  inl, inr, if◌then◌else◌, ◌∙◌, ap,
}
use dev_ops_copilot.Base.Value.{Value}
use dev_ops_copilot.SloPoller.{Burn, is_page_worthy}
use dev_ops_copilot.Autonomy.{
  RemediationPlan, Effect, observed, executed, slept, reverted, Controller, Result,
  evaluate_recovery, revert_of, remediate, Recovery, recovered, regressed, no_change, undo, watch,
  result_of, run_plan, run_plan,
}

-- The effects on the infrastructure.
abbrev pub infra : List Effect → List Effect
infra [] = []
infra (observed t ∷ es) = infra es
infra (slept ∷ es) = infra es
infra (executed a t ∷ es) = executed a t ∷ infra es
infra (reverted a t ∷ es) = reverted a t ∷ infra es

-- The signal that is read after the action and the wait.
abbrev pub signal_after : Controller → RemediationPlan → Burn
signal_after c plan =
    c.observe_fn (observed plan.target ∷ executed plan.action plan.target ∷ slept ∷ []) plan.target

abbrev pub compensation : RemediationPlan → List Effect
compensation plan = elim (revert_of plan) [ none ↦ [] | some a ↦ reverted a plan.target ∷ [] ]

-- What the infrastructure sees: nothing on a dry run; else the plan's action, once; and, where
-- the action was applied and the signal is still page-worthy after the wait, the compensating
-- action that the plan names.
abbrev pub infra_expected : Controller → RemediationPlan → List Effect
infra_expected c plan =
    if c.dry_run
    then []
    else executed plan.action plan.target ∷ (elim (c.execute_fn plan.action plan.target) [
      | none ↦ []
      | some _ ↦ if is_page_worthy (signal_after c plan) then compensation plan else []
    ])

recovered_iff :
    (c : Controller) (before after : Burn)
    → (evaluate_recovery c.to_float before after ≡ recovered) ↔ (is_page_worthy after ≡ false)
unfolding evaluate_recovery
recovered_iff c before after = ground arith

-- The effects before a compensation.
abbrev watched : RemediationPlan → List Effect
watched plan =
    observed plan.target ∷ executed plan.action plan.target ∷ slept ∷ observed plan.target ∷ []

undo-infra :
    (c : Controller) (plan : RemediationPlan) (result : Result) (o : Option String)
    → infra (undo c plan (watched plan) result o).0
      ≡ executed plan.action plan.target
        ∷ (elim o [ none ↦ [] | some a ↦ reverted a plan.target ∷ [] ])
undo-infra c plan result none = refl
undo-infra c plan result (some r) = refl

-- What `watch` does with each outcome.
watch-infra :
    (c : Controller) (plan : RemediationPlan) (before : Burn) (applied : Value) (r : Recovery)
    → evaluate_recovery c.to_float before (signal_after c plan) ≡ r
    → infra
        (watch c plan before
          (observed plan.target ∷ executed plan.action plan.target ∷ [])
          applied).0
      ≡ executed plan.action plan.target ∷ (elim r [ recovered ↦ [] | _ ↦ compensation plan ])
watch-infra c plan before applied recovered e = rw (e, infra, watch) refl
watch-infra c plan before applied regressed e =
    rw (e, infra, watch)
      (undo-infra c plan
        (result_of before applied (signal_after c plan)
          (evaluate_recovery c.to_float before (signal_after c plan)))
        (revert_of plan))
watch-infra c plan before applied no_change e =
    rw (e, infra, watch)
      (undo-infra c plan
        (result_of before applied (signal_after c plan)
          (evaluate_recovery c.to_float before (signal_after c plan)))
        (revert_of plan))

after_watch :
    (c : Controller) (plan : RemediationPlan) (before : Burn) (r : Recovery)
    → evaluate_recovery c.to_float before (signal_after c plan) ≡ r
    → (elim r [ recovered ↦ [] | _ ↦ compensation plan ])
      ≡ (if is_page_worthy (signal_after c plan) then compensation plan else [])
unfolding evaluate_recovery
after_watch c plan before recovered e = ground arith
after_watch c plan before regressed e = ground arith
after_watch c plan before no_change e = ground arith

-- What a remediation does to the infrastructure: nothing on a dry run; else the plan's action,
-- once; and then the compensating action exactly where the action was applied, the signal after
-- the wait is still page-worthy and the plan names one.
pub remediate-infra :
    (c : Controller) (plan : RemediationPlan) → infra (remediate c plan).0 ≡ infra_expected c plan
unfolding remediate
remediate-infra c plan = elim (Bool-cases c.dry_run) [
  | inl dry ↦ rw dry refl
  | inr wet ↦ rw wet (go (c.execute_fn plan.action plan.target) refl)
]
  where
    go :
        (o : Option Value)
        → c.execute_fn plan.action plan.target ≡ o
        → infra (run_plan c plan).0
          ≡ executed plan.action plan.target ∷ (elim (c.execute_fn plan.action plan.target) [
            | none ↦ []
            | some _ ↦ if is_page_worthy (signal_after c plan) then compensation plan else []
          ])
    go none e = rw (e, infra, run_plan) refl
    go (some applied) e =
        rw (e, run_plan)
          (watch-infra c plan (c.observe_fn [] plan.target) applied _ refl
            ∙ ap (◌∷◌ (executed plan.action plan.target))
                (after_watch c plan (c.observe_fn [] plan.target) _ refl))
