-- ===== src/Api/Admin.antt =====
-- The administration of a tenant (app/api/main.py, the handlers below /admin). Ids, random texts
-- and times are arguments of the handlers that draw them; what goes to the audit trail is the third
-- part of the outcome.
pub mod Quotas
pub mod Pace
pub mod Isolation
pub mod Resolved
use dev_ops_copilot.Base.{
  refl, ◌≡◌, ℕ, String, Bool, true, false, Option, none, some, List, [], ◌∷◌, not, ◌==◌, string_eq,
  if◌then◌else◌, ◌≡◌,
}
use dev_ops_copilot.Base.Dict.{Dict, keys}
use dev_ops_copilot.Base.Text.{strip}
use dev_ops_copilot.Base.Case.{le_str}
use dev_ops_copilot.Tenancy.{Org, User, Membership, ApiKey, Store}
use dev_ops_copilot.Tenancy.Roles.{normalize_role}
use dev_ops_copilot.Tenancy.Plans.{within_quota, normalize_plan}
use dev_ops_copilot.Tenancy.Orgs.{get_org, set_plan, create_user, add_member, count_members}
use dev_ops_copilot.Tenancy.Keys.{
  issue_api_key, revoke_api_key, list_api_keys, count_active_api_keys,
}
use dev_ops_copilot.Tenancy.Vault.{Cipher}
use dev_ops_copilot.Tenancy.Secrets.{
  set_integration_secret, get_integration_secrets, count_integrations,
}
use dev_ops_copilot.Tenancy.Auth.{
  TenantConfig, Context, enter, Resolution, denied, failed, granted, grant,
}
use dev_ops_copilot.Api.{Reply, ok, refused, crashed}

-- An audit event: its name, and the fields that are texts.
pub record Event : Type 0 where
  pub name : String
  pub fields : Dict String String

abbrev pub Handled : Type 0 → Type 0
Handled A = Store × Reply A × List Event

-- What the handler goes on with, for the current tenant.
abbrev pub for_tenant : {A : Type 0} → Context → Store → (TenantConfig → Handled A) → Handled A
for_tenant ctx s f = elim ctx.current_tenant [
  | none ↦ (s, refused 400 "Admin endpoints require multi-tenant mode + a tenant API key.", [])
  | some cfg ↦ f cfg
]

pub record OrgView : Type 0 where
  pub org : Org
  pub members : ℕ
  pub active_api_keys : ℕ
  pub integrations : ℕ

unfoldable pub admin_org : Context → Store → Handled OrgView
admin_org ctx s = for_tenant ctx s λ cfg. elim (get_org cfg.org_id s) [
  | none ↦ (s, refused 404 "org not found", [])
  | some org ↦ (
    s,
    ok (record {
      org = org;
      members = count_members cfg.org_id s;
      active_api_keys = count_active_api_keys cfg.org_id s;
      integrations = count_integrations cfg.org_id s;
    }),
    [],
  )
]

unfoldable pub admin_list_api_keys : Context → Store → Handled (List ApiKey)
admin_list_api_keys ctx s = for_tenant ctx s λ cfg. (s, ok (list_api_keys cfg.org_id s), [])

-- What `issue_api_key` leaves: `none` where the drawn id or prefix is taken.
abbrev issued : String → Store → Option (Store × (String × ApiKey)) → Handled (String × ApiKey)
issued org_id s none = (s, crashed, [])
issued org_id s (some (s', (plaintext, key))) = (
  s',
  ok (plaintext, key),
  record {
    name = "apikey.created";
    fields = ("org", org_id) ∷ ("key_id", key.id) ∷ ("role", key.role) ∷ [];
  }
      ∷ [],
)

-- `_DEFAULT_KEY_TTL_DAYS`
abbrev pub default_ttl_days : ℕ
default_ttl_days = 90

-- The random parts and times of a new key.
pub record Draw : Type 0 where
  pub id : String
  pub prefix : String
  pub raw : String
  pub now : String
  pub later : String

unfoldable pub admin_create_api_key :
    (String → String) → Draw → String → String → Context → Store → Handled (String × ApiKey)
unfolding issue_api_key
admin_create_api_key sha256 d name role ctx s = for_tenant ctx s λ cfg.
    if not (within_quota cfg.plan "api_keys" (count_active_api_keys cfg.org_id s))
    then (s, refused 402 "Active API-key quota reached for your plan.", [])
    else issued cfg.org_id s (
        issue_api_key sha256 d.id d.prefix d.raw d.now d.later default_ttl_days cfg.org_id name
          (normalize_role role) s)

abbrev pub revoked : String → String → Store → Store × Bool → Handled (Unit {0})
revoked org_id key_id s (s', false) =
    (s', refused 404 "key not found (or already revoked) in this org", [])
revoked org_id key_id s (s', true) = (
  s',
  ok tt,
  record { name = "apikey.revoked"; fields = ("org", org_id) ∷ ("key_id", key_id) ∷ [] } ∷ [],
)

pub revoked-store :
    (org_id key_id : String) (s : Store) (r : Store × Bool) → (revoked org_id key_id s r).0 ≡ r.0
revoked-store org_id key_id s (s', true) = refl
revoked-store org_id key_id s (s', false) = refl

unfoldable pub admin_revoke_api_key : String → String → Context → Store → Handled (Unit {0})
unfolding revoke_api_key
admin_revoke_api_key now key_id ctx s =
    for_tenant ctx s λ cfg. revoked cfg.org_id key_id s (revoke_api_key now key_id cfg.org_id s)

abbrev joined : String → String → Store → Option (Store × User) → Handled (User × Membership)
joined org_id role s none = (s, crashed, [])
joined org_id role s (some (s', user)) =
    let done = add_member org_id user.id (normalize_role role) s' in
    (
      done.0,
      ok (user, done.1),
      record { name = "member.added"; fields = ("org", org_id) ∷ ("role", done.1.role) ∷ [] } ∷ [],
    )

unfoldable pub admin_add_member :
    String → String → String → String → Context → Store → Handled (User × Membership)
unfolding create_user add_member
admin_add_member user_id now email role ctx s = for_tenant ctx s λ cfg.
    if not (within_quota cfg.plan "seats" (count_members cfg.org_id s))
    then (s, refused 402 "Seat quota reached for your plan.", [])
    else joined cfg.org_id role s (create_user user_id now email s)

abbrev insert_sorted : String → List String → List String
insert_sorted x [] = x ∷ []
insert_sorted x (y ∷ ys) =
    let later = insert_sorted x ys in if le_str x y then x ∷ y ∷ ys else y ∷ later

-- `sorted(names)`
abbrev sorted : List String → List String
sorted [] = []
sorted (x ∷ xs) = insert_sorted x (sorted xs)

module _ (c : Cipher) (kek : String) where
  unfoldable pub admin_list_integrations : Context → Store → Handled (List String)
  admin_list_integrations ctx s = for_tenant ctx s λ cfg.
      elim (get_integration_secrets c kek cfg.org_id s) [
        | none ↦ (s, crashed, [])
        | some secrets ↦ (s, ok (sorted (keys secrets)), [])
      ]

  abbrev written : String → String → Store → Option Store → Handled (Unit {0})
  written org_id name s none = (s, crashed, [])
  written org_id name s (some s') = (
    s',
    ok tt,
    record { name = "secret.write"; fields = ("org", org_id) ∷ ("name", name) ∷ [] } ∷ [],
  )

  unfoldable pub admin_set_integration :
      String → String → String → Context → Store → Handled (Unit {0})
  unfolding set_integration_secret
  admin_set_integration now name value ctx s = for_tenant ctx s λ cfg.
      if strip name == ""
      then (s, refused 400 "integration name is required", [])
      else written cfg.org_id (strip name) s
          (set_integration_secret c kek cfg.org_id (strip name) value now s)

unfoldable pub admin_set_plan : String → Context → Store → Handled String
unfolding set_plan
admin_set_plan plan ctx s = for_tenant ctx s λ cfg.
    let p = normalize_plan plan in
    (
      set_plan cfg.org_id p s,
      ok p,
      record { name = "plan.changed"; fields = ("org", cfg.org_id) ∷ ("plan", p) ∷ [] } ∷ [],
    )

-- The administrative requests that may change the store.
pub data AdminRequest : Type 0 where
  create_api_key : Draw → (name role : String) → AdminRequest
  revoke_key : (now key_id : String) → AdminRequest
  add_to_org : (user_id now email role : String) → AdminRequest
  set_integration : (now name value : String) → AdminRequest
  change_plan : (plan : String) → AdminRequest

-- A request, and the role and the actor of the credential that it comes with.
pub record Asked : Type 0 where
  pub role : String
  pub actor : String
  pub request : AdminRequest

module _ (sha256 : String → String) (c : Cipher) (kek : String) where
  -- The store that the handler of a request leaves.
  unfoldable pub administer : Context → AdminRequest → Store → Store
  administer ctx (create_api_key d name role) s = (admin_create_api_key sha256 d name role ctx s).0
  administer ctx (revoke_key now key_id) s = (admin_revoke_api_key now key_id ctx s).0
  administer ctx (add_to_org user_id now email role) s =
      (admin_add_member user_id now email role ctx s).0
  administer ctx (set_integration now name value) s =
      (admin_set_integration c kek now name value ctx s).0
  administer ctx (change_plan plan) s = (admin_set_plan plan ctx s).0

  -- A request is answered under the configuration that its credential resolves to, and one that
  -- resolves to none changes nothing.
  abbrev pub administer_as : Resolution → AdminRequest → Store → Store
  administer_as (granted cfg actor) r s = administer (enter cfg actor) r s
  administer_as denied r s = s
  administer_as failed r s = s

  -- What a credential of the organisation resolves to: with the plan and the secrets that the
  -- organisation has in the store now.
  abbrev pub resolve_org : String → Asked → Store → Resolution
  resolve_org org_id q s = elim (get_org org_id s) [
    | none ↦ denied
    | some org ↦ grant org q.role q.actor (get_integration_secrets c kek org.id s)
  ]

  unfoldable pub administer_all : String → List Asked → Store → Store
  administer_all org_id [] s = s
  administer_all org_id (q ∷ qs) s =
      administer_all org_id qs (administer_as (resolve_org org_id q s) q.request s)
