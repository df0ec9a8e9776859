-- ===== src/Api/Admin/Pace.antt =====
-- The administration keeps a tenant to the numbers of keys and seats that its plan allows.
use dev_ops_copilot.Base.{
  ℕ, ◌+◌, ◌≤◌, ◌≡◌, refl, sym, ap, ◌∙◌, subst, String, true, Option, none, some, List, [], ◌∷◌,
  ◌==◌, string_eq, arith, Bool-cases, Option-cases, inl, inr, ltb, ◌⊎◌,
}
use dev_ops_copilot.Tenancy.{Org, Store}
use dev_ops_copilot.Tenancy.Plans.{quota, within_quota}
use dev_ops_copilot.Tenancy.Orgs.{get_org, count_members}
use dev_ops_copilot.Tenancy.Keys.{count_active_api_keys}
use dev_ops_copilot.Tenancy.Vault.{Cipher}
use dev_ops_copilot.Tenancy.Auth.{TenantConfig, enter, Resolution, denied, failed, granted}
use dev_ops_copilot.Api.Admin.Resolved.{IsCurrent, resolve_org-IsCurrent}
use dev_ops_copilot.Api.Admin.{
  admin_create_api_key, admin_revoke_api_key, admin_add_member, admin_set_integration,
  admin_set_plan, AdminRequest, create_api_key, revoke_key, add_to_org, set_integration,
  change_plan, administer, administer_all, administer_as, resolve_org, Asked, normalize_plan,
  normalize_role, strip, revoked-store,
}
use dev_ops_copilot.Api.Admin.Quotas.{
  Within, plan-Within, issued-Within, revoked-Within, joined-Within, written-Within,
}

-- A number is no larger than before, or at most the limit; without a limit it may be anything.
abbrev pub Bounded : ℕ → ℕ → Option ℕ → Type 0
Bounded before after none = Unit
Bounded before after (some limit) = (after ≤ before) ⊎ (after ≤ limit)

Bounded-le : (before after : ℕ) (limit : Option ℕ) → after ≤ before → Bounded before after limit
Bounded-le before after none le = tt
Bounded-le before after (some limit) le = inl le

-- Where the quota has room, there may be one more.
Bounded-room :
    (plan key : String) (before after : ℕ)
    → within_quota plan key before ≡ true
    → after ≤ before + 1
    → Bounded before after (quota plan key)
unfolding within_quota
Bounded-room plan key before after h le = elim (Option-cases (quota plan key)) [
  | inl unlimited ↦ rw unlimited tt
  | inr (limit, q) ↦
      let t : ltb before limit ≡ true = rw (within_quota, q) at h in
      rw q (inr (ground (arith, t, le)))
]

-- The limits of a plan on what a request makes of the store.
abbrev pub KeepsQuotas : String → String → Store → Store → Type 0
KeepsQuotas plan org_id s s' =
    Bounded (count_active_api_keys org_id s) (count_active_api_keys org_id s')
      (quota plan "api_keys")
    × Bounded (count_members org_id s) (count_members org_id s') (quota plan "seats")

same-KeepsQuotas :
    (plan org_id : String) (s s' : Store)
    → Within (count_active_api_keys org_id s) (count_members org_id s) org_id s'
    → KeepsQuotas plan org_id s s'
same-KeepsQuotas plan org_id s s' w = (
  Bounded-le (count_active_api_keys org_id s) (count_active_api_keys org_id s')
      (quota plan "api_keys") w.few_keys,
  Bounded-le (count_members org_id s) (count_members org_id s') (quota plan "seats") w.few_seats,
)

key-KeepsQuotas :
    (plan org_id : String) (s s' : Store)
    → within_quota plan "api_keys" (count_active_api_keys org_id s) ≡ true
    → Within (count_active_api_keys org_id s + 1) (count_members org_id s) org_id s'
    → KeepsQuotas plan org_id s s'
key-KeepsQuotas plan org_id s s' room w = (
  Bounded-room plan "api_keys" (count_active_api_keys org_id s) (count_active_api_keys org_id s')
      room w.few_keys,
  Bounded-le (count_members org_id s) (count_members org_id s') (quota plan "seats") w.few_seats,
)

seat-KeepsQuotas :
    (plan org_id : String) (s s' : Store)
    → within_quota plan "seats" (count_members org_id s) ≡ true
    → Within (count_active_api_keys org_id s) (count_members org_id s + 1) org_id s'
    → KeepsQuotas plan org_id s s'
seat-KeepsQuotas plan org_id s s' room w = (
  Bounded-le (count_active_api_keys org_id s) (count_active_api_keys org_id s')
      (quota plan "api_keys") w.few_keys,
  Bounded-room plan "seats" (count_members org_id s) (count_members org_id s') room w.few_seats,
)

unchanged :
    (org_id : String) (s : Store)
    → Within (count_active_api_keys org_id s) (count_members org_id s) org_id s
unchanged org_id s = record { few_keys = omega arith; few_seats = omega arith }

module _ (sha256 : String → String) (c : Cipher) (kek : String) where
  administer-KeepsQuotas :
      (cfg : TenantConfig) (actor : String) (r : AdminRequest) (s : Store)
      → KeepsQuotas cfg.plan cfg.org_id s (administer sha256 c kek (enter cfg actor) r s)
  unfolding administer admin_create_api_key admin_revoke_api_key admin_add_member
      admin_set_integration admin_set_plan
  administer-KeepsQuotas cfg actor (create_api_key d name role) s =
      let n = count_active_api_keys cfg.org_id s in
      let m = count_members cfg.org_id s in
      elim (Bool-cases (within_quota cfg.plan "api_keys" n)) [
        | inr full ↦
            rw (administer, admin_create_api_key, full)
              (same-KeepsQuotas cfg.plan cfg.org_id s s (unchanged cfg.org_id s))
        | inl room ↦
            rw (administer, admin_create_api_key, room)
              (key-KeepsQuotas cfg.plan cfg.org_id s _ room (
                issued-Within sha256 d cfg.org_id name (normalize_role role) (n + 1) m s
                  (omega arith) (omega arith)))
      ]
  administer-KeepsQuotas cfg actor (revoke_key now key_id) s =
      rw (administer, admin_revoke_api_key, revoked-store cfg.org_id key_id s)
        (same-KeepsQuotas cfg.plan cfg.org_id s _
          (revoked-Within now key_id cfg.org_id _ _ s (unchanged cfg.org_id s)))
  administer-KeepsQuotas cfg actor (add_to_org user_id now email role) s =
      let n = count_active_api_keys cfg.org_id s in
      let m = count_members cfg.org_id s in
      elim (Bool-cases (within_quota cfg.plan "seats" m)) [
        | inr full ↦
            rw (administer, admin_add_member, full)
              (same-KeepsQuotas cfg.plan cfg.org_id s s (unchanged cfg.org_id s))
        | inl room ↦
            rw (administer, admin_add_member, room)
              (seat-KeepsQuotas cfg.plan cfg.org_id s _ room (
                joined-Within cfg.org_id user_id now email role n (m + 1) s (omega arith)
                  (omega arith)))
      ]
  administer-KeepsQuotas cfg actor (set_integration now name value) s =
      elim (Bool-cases (strip name == "")) [
        | inl unnamed ↦
            rw (administer, admin_set_integration, unnamed)
              (same-KeepsQuotas cfg.plan cfg.org_id s s (unchanged cfg.org_id s))
        | inr named ↦
            rw (administer, admin_set_integration, named)
              (same-KeepsQuotas cfg.plan cfg.org_id s _ (
                written-Within c kek cfg.org_id (strip name) value now _ _ s
                  (unchanged cfg.org_id s)))
      ]
  administer-KeepsQuotas cfg actor (change_plan plan) s =
      same-KeepsQuotas cfg.plan cfg.org_id s _ (plan-Within cfg.org_id (normalize_plan plan) s)

  -- The plan of an organisation in a store.
  abbrev plan_in : Option Org → String
  plan_in none = "free"
  plan_in (some org) = org.plan

  administer_as-KeepsQuotas :
      (org_id : String) (res : Resolution) (r : AdminRequest) (s : Store)
      → ((cfg : TenantConfig) (actor : String) → res ≡ granted cfg actor → IsCurrent org_id s cfg)
      → KeepsQuotas (plan_in (get_org org_id s)) org_id s (administer_as sha256 c kek res r s)
  administer_as-KeepsQuotas org_id denied r s own =
      same-KeepsQuotas (plan_in (get_org org_id s)) org_id s s (unchanged org_id s)
  administer_as-KeepsQuotas org_id failed r s own =
      same-KeepsQuotas (plan_in (get_org org_id s)) org_id s s (unchanged org_id s)
  administer_as-KeepsQuotas org_id (granted cfg actor) r s own =
      let (org, there, id, plan) = own cfg actor refl in
      let same : plan_in (get_org org_id s) ≡ cfg.plan = ap plan_in there ∙ sym plan in
      rw same (
        subst (λ o. KeepsQuotas cfg.plan o s (administer sha256 c kek (enter cfg actor) r s)) id
          (administer-KeepsQuotas cfg actor r s))

  -- Each request of the run keeps to the limits of the plan that the organisation has in the store
  -- at that request, and the run ends in the store.
  abbrev pub Paced : String → List Asked → Store → Store → Type 0
  Paced org_id [] s end = s ≡ end
  Paced org_id (q ∷ qs) s end =
      let next = administer_all sha256 c kek org_id (q ∷ []) s in
      KeepsQuotas (plan_in (get_org org_id s)) org_id s next × Paced org_id qs next end

  -- Whatever administrative requests a tenant makes, one after the other and by any of its
  -- credentials: each request leaves the numbers of its active API keys and of its members no larger
  -- than they were, or within the limits of the plan that the tenant has at that request. So no
  -- request takes one of them past the plan of its time, also after a change of the plan.
  pub administer_all-Paced :
      (org_id : String) (qs : List Asked) (s : Store)
      → Paced org_id qs s (administer_all sha256 c kek org_id qs s)
  unfolding administer_all
  administer_all-Paced org_id [] s = refl
  administer_all-Paced org_id (q ∷ qs) s = (
    administer_as-KeepsQuotas org_id (resolve_org sha256 c kek org_id q s) q.request s
        (resolve_org-IsCurrent sha256 c kek org_id q s),
    administer_all-Paced org_id qs
        (administer_as sha256 c kek (resolve_org sha256 c kek org_id q s) q.request s),
  )
