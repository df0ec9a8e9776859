-- ===== src/Api/Remediation/Effects.antt =====
-- What a request for a remediation does to the infrastructure.
use dev_ops_copilot.Base.{
  ◌≡◌, refl, Bool, true, false, Option, none, some, List, [], ◌∷◌, ◌&&◌, not, contains, ◌==◌,
  string_eq, if◌then◌else◌, Bool-cases, inl, inr, ◌∙◌, ap,
}
use dev_ops_copilot.SloPoller.{is_page_worthy}
use dev_ops_copilot.Autonomy
use dev_ops_copilot.Autonomy.{
  Controller, Effect, executed, reverted, is_eligible, reversible_actions,
}
use dev_ops_copilot.Autonomy.Laws.{
  infra, infra_expected, remediate-infra, signal_after, compensation,
}
use dev_ops_copilot.Api.Remediation.{RemediateRequest, plan_of_request, answer, post_remediate}

-- What makes a request act on the infrastructure.
abbrev pub may_act : Bool → Controller → RemediateRequest → Bool
may_act enabled c r =
    enabled && (contains reversible_actions r.action && (r.confidence == "high" && not c.dry_run))

-- The restart after a rollback that did not help.
abbrev pub restarted : Controller → RemediateRequest → List Effect
restarted c r =
    if r.action == "rollback_deployment" && is_page_worthy (signal_after c (plan_of_request r))
    then reverted "restart_deployment" r.target ∷ []
    else []

-- The action, once, and after it, if it was applied, the restart.
abbrev pub acted : Controller → RemediateRequest → List Effect
acted c r =
    executed r.action r.target
    ∷ (elim (c.execute_fn r.action r.target) [ none ↦ [] | some _ ↦ restarted c r ])

answer-effects : (o : List Effect × Option Autonomy.Result) → (answer o).0 ≡ o.0
answer-effects (es, none) = refl
answer-effects (es, some result) = refl

compensation-restarted :
    (c : Controller) (r : RemediateRequest)
    → (if is_page_worthy (signal_after c (plan_of_request r))
        then compensation (plan_of_request r)
        else [])
      ≡ restarted c r
compensation-restarted c r = elim (Bool-cases (r.action == "rollback_deployment")) [
  | inl rolls ↦ rw rolls refl
  | inr restarts ↦ elim (Bool-cases (is_page_worthy (signal_after c (plan_of_request r)))) [
    | inl worthy ↦ rw (restarts, worthy) refl
    | inr fine ↦ rw (restarts, fine) refl
  ]
]

infra_expected-acted :
    (c : Controller) (r : RemediateRequest)
    → infra_expected c (plan_of_request r) ≡ (if not c.dry_run then acted c r else [])
infra_expected-acted c r = elim (Bool-cases c.dry_run) [
  | inl dry ↦ rw dry refl
  | inr wet ↦ rw wet (
      ap
        (λ (rest : List Effect).
          executed r.action r.target
          ∷ (elim (c.execute_fn r.action r.target) [ none ↦ [] | some _ ↦ rest ]))
        (compensation-restarted c r))
]

-- A request for a remediation acts on the infrastructure exactly if autonomy is on, the action is one
-- of the reversible ones, the confidence is "high" and it is no dry run. Then it executes the action
-- once; and after a rollback that was applied, it restarts the target exactly where the signal after
-- the wait is still page-worthy.
pub post_remediate-effects :
    (enabled : Bool) (c : Controller) (r : RemediateRequest)
    → infra (post_remediate enabled c r).0 ≡ (if may_act enabled c r then acted c r else [])
unfolding post_remediate is_eligible
post_remediate-effects false c r = refl
post_remediate-effects true c r = elim (Bool-cases (contains reversible_actions r.action)) [
  | inr other ↦ rw other refl
  | inl reversible ↦ elim (Bool-cases (r.confidence == "high")) [
    | inr unsure ↦ rw (reversible, unsure) refl
    | inl sure ↦
        rw (reversible, sure)
          (ap infra (answer-effects (Autonomy.remediate c (plan_of_request r)))
            ∙ remediate-infra c (plan_of_request r)
            ∙ infra_expected-acted c r)
  ]
]
