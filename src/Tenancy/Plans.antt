-- ===== src/Tenancy/Plans.antt =====
-- Plans and quotas (app/tenancy/models.py). An unlimited quota, -1 in the source, is `none`.
use dev_ops_copilot.Base.{
  ℕ, String, Bool, true, Option, none, some, [], ◌∷◌, ltb, string_eq, is_some, if◌then◌else◌,
}
use dev_ops_copilot.Base.Dict.{Dict, lookup, get_or}
use dev_ops_copilot.Base.Text.{strip}
use dev_ops_copilot.Base.Case.{lower_str}

abbrev pub Quotas : Type 0
Quotas = Dict String (Option ℕ)

abbrev pub free_quotas : Quotas
free_quotas =
    ("investigations_per_month", some 50)
    ∷ ("seats", some 3)
    ∷ ("integrations", some 2)
    ∷ ("api_keys", some 2)
    ∷ []

-- `PLAN_QUOTAS`
abbrev pub plan_quotas : Dict String Quotas
plan_quotas =
    ("free", free_quotas)
    ∷ (
      "team",
      ("investigations_per_month", some 1000)
          ∷ ("seats", some 25)
          ∷ ("integrations", some 10)
          ∷ ("api_keys", some 20)
          ∷ [],
    )
    ∷ (
      "enterprise",
      ("investigations_per_month", none)
          ∷ ("seats", none)
          ∷ ("integrations", none)
          ∷ ("api_keys", none)
          ∷ [],
    )
    ∷ []

unfoldable pub normalize_plan : String → String
normalize_plan plan =
    let p = lower_str (strip plan) in if is_some (lookup p plan_quotas) then p else "free"

unfoldable pub quota : String → String → Option ℕ
unfolding normalize_plan
quota plan key = get_or key (some 0) (get_or (normalize_plan plan) free_quotas plan_quotas)

unfoldable pub within_quota : String → String → ℕ → Bool
unfolding quota
within_quota plan key current = elim (quota plan key) [
  | none ↦ true
  | some limit ↦ ltb current limit
]
