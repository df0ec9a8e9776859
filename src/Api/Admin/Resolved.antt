-- ===== src/Api/Admin/Resolved.antt =====
-- The configuration that a credential of an organisation resolves to (app/tenancy/auth.py).
use dev_ops_copilot.Base.{◌≡◌, ap, ◌∙◌, String, Option, none, some, Option-cases, inl, inr}
use dev_ops_copilot.Base.Dict.{Dict}
use dev_ops_copilot.Tenancy.{Store, Org}
use dev_ops_copilot.Tenancy.Orgs.{get_org}
use dev_ops_copilot.Tenancy.Vault.{Cipher}
use dev_ops_copilot.Tenancy.Secrets.{get_integration_secrets}
use dev_ops_copilot.Tenancy.Auth.{TenantConfig, denied, granted, grant, build_tenant_config}
use dev_ops_copilot.Api.Access.Laws.{get_org-id}
use dev_ops_copilot.Api.Admin.{Asked, resolve_org}

-- The configuration is that of the organisation, with the plan that it has in the store.
abbrev pub IsCurrent : String → Store → TenantConfig → Type 0
IsCurrent org_id s cfg =
    (org : Org) × (get_org org_id s ≡ some org) × (cfg.org_id ≡ org_id) × (cfg.plan ≡ org.plan)

grant-built :
    (org : Org) (role who : String) (secrets : Option (Dict String String)) (cfg : TenantConfig)
    (actor : String)
    → grant org role who secrets ≡ granted cfg actor
    → (cfg.org_id ≡ org.id) × (cfg.plan ≡ org.plan)
unfolding build_tenant_config
grant-built org role who none cfg actor h = cc
grant-built org role who (some secrets) cfg actor h =
    let same : cfg ≡ build_tenant_config org role secrets = cc in
    (ap (λ (x : TenantConfig). x.org_id) same, ap (λ (x : TenantConfig). x.plan) same)

pub resolve_org-IsCurrent :
    (sha256 : String → String) (c : Cipher) (kek org_id : String) (q : Asked) (s : Store)
    (cfg : TenantConfig) (actor : String)
    → resolve_org sha256 c kek org_id q s ≡ granted cfg actor
    → IsCurrent org_id s cfg
resolve_org-IsCurrent sha256 c kek org_id q s cfg actor h = elim (Option-cases (get_org org_id s)) [
  | inl missing ↦ let e : denied ≡ granted cfg actor = rw (resolve_org, missing) at h in cc
  | inr (org, there) ↦
      let e : grant org q.role q.actor (get_integration_secrets c kek org.id s)
          ≡ granted cfg actor =
        rw (resolve_org, there) at h in
      let (id, plan) = grant-built org q.role q.actor _ cfg actor e in
      (org, there, id ∙ get_org-id org_id s org there, plan)
]
