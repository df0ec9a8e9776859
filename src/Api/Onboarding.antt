-- ===== src/Api/Onboarding.antt =====
-- How tenants and their members come in from outside (app/api/main.py): the self-serve signup, and
-- the provisioning by an identity provider. The tables' ids, random texts and times are arguments.
pub mod Laws
use dev_ops_copilot.Base.{
  ℕ, ◌<>◌, String, Bool, true, false, Option, none, some, List, [], ◌∷◌, not, ◌&&◌, ◌||◌, ◌==◌,
  string_eq, if◌then◌else◌, ltb, eqb, length, is_some,
}
use dev_ops_copilot.Base.Text.{strip, codes, drop_chars, starts_with}
use dev_ops_copilot.Base.Case.{lower_str}
use dev_ops_copilot.Base.Dict.{Dict}
use dev_ops_copilot.Tenancy.{Org, User, ApiKey, Store}
use dev_ops_copilot.Tenancy.Orgs.{
  get_user_by_email, get_membership_by_email, create_user, add_member, remove_member, create_org,
}
use dev_ops_copilot.Tenancy.Keys.{issue_api_key}
use dev_ops_copilot.Tenancy.Scim.{
  Payload, Active, OpValue, Resource, parse_scim_user, to_scim_user, is_deprovision,
}
use dev_ops_copilot.Api.{Reply, ok, refused, crashed, ApiSettings}
use dev_ops_copilot.Api.Admin.{Event, Handled, Draw, default_ttl_days}
use Prim.Native.Char.{Char, code}

abbrev has_char : ℕ → String → Bool
has_char n String.[] = false
has_char n (String.◌∷◌ c s) = eqb (code c) n || has_char n s

-- `email.split("@")[-1]`, with `best` what follows the last sign so far.
abbrev after_at : String → String → String
after_at best String.[] = best
after_at best (String.◌∷◌ c s) = after_at (if eqb (code c) 64 then s else best) s

-- The test of the signup: an `@`, a dot after the last one, at most 254 characters.
unfoldable pub is_email : String → Bool
is_email email =
    has_char 64 email
    && (has_char 46 (after_at email email) && not (ltb 254 (length (codes email))))

pub record SignedUp : Type 0 where
  pub org : Org
  pub api_key : String
  pub key : ApiKey

-- The random parts of a signup: the ids of the organisation and of its owner, the wrapped key of its
-- secrets, and the draw of the owner's API key.
pub record Fresh : Type 0 where
  pub org_id : String
  pub user_id : String
  pub wrapped_dek : String
  pub key : Draw

abbrev key_issued : Org → Store → Option (Store × (String × ApiKey)) → Handled SignedUp
key_issued org s none = (s, crashed, [])
key_issued org s (some (s', (plaintext, key))) = (
  s',
  ok (record { org = org; api_key = plaintext; key = key }),
  record {
    name = "org.signup";
    fields = ("org", org.id) ∷ ("key_id", key.id) ∷ ("plan", org.plan) ∷ [];
  }
      ∷ [],
)

module _ (sha256 : String → String) where
  abbrev owner_key : Draw → Store × Option Org → Handled SignedUp
  owner_key d (s, none) = (s, crashed, [])
  owner_key d (s, some org) = key_issued org s (
      issue_api_key sha256 d.id d.prefix d.raw d.now d.later default_ttl_days org.id "owner-key"
        "owner" s)

  unfoldable pub signup : ApiSettings → Fresh → String → String → Store → Handled SignedUp
  unfolding issue_api_key create_org is_email
  signup settings f org_name email_given s =
      let name = strip org_name in
      let email = lower_str (strip email_given) in
      if not settings.multi_tenant
      then (
        s,
        refused 400 "Self-serve signup requires multi-tenant mode (COPILOT_MULTI_TENANT=true).",
        [],
      )
      else if not settings.signup_enabled
      then (s, refused 403 "Self-serve signup is disabled on this deployment.", [])
      else if (name == "") || ltb 120 (length (codes name))
      then (s, refused 400 "Provide an organization name (1–120 chars).", [])
      else if not (is_email email)
      then (s, refused 400 "Provide a valid email address.", [])
      else if is_some (get_membership_by_email email s)
      then (s, refused 409 "An account already exists for this email.", [])
      else owner_key f.key
          (create_org f.org_id f.user_id f.key.now f.wrapped_dek name "free" email s)

-- `auth[7:].strip() if auth.lower().startswith("bearer ") else ""`
abbrev scim_token_of : String → String
scim_token_of auth =
    if starts_with "bearer " (lower_str auth) then strip (drop_chars 7 auth) else ""

-- `_scim_guard`
unfoldable pub scim_guard : ApiSettings → String → Reply String
scim_guard settings auth =
    if (settings.scim_token == "") || (settings.scim_org == "")
    then refused 403 "SCIM provisioning is not configured."
    else if scim_token_of auth == settings.scim_token
    then ok settings.scim_org
    else refused 401 "Invalid SCIM token."

abbrev provisioned :
    ApiSettings → String → String → Store → Option (Store × User) → Handled Resource
provisioned settings org_id email s none = (s, crashed, [])
provisioned settings org_id email s (some (s', user)) = (
  (add_member org_id user.id settings.scim_default_role s').0,
  ok (to_scim_user user.id user.email true settings.scim_default_role),
  record { name = "scim.user_provisioned"; fields = ("org_id", org_id) ∷ ("email", email) ∷ [] }
      ∷ [],
)

-- What a handler goes on with, once the guard lets the request in.
abbrev guarded_by : {A : Type 0} → Reply String → Store → (String → Handled A) → Handled A
guarded_by (ok org_id) s f = f org_id
guarded_by (refused status detail) s f = (s, refused status detail, [])
guarded_by crashed s f = (s, crashed, [])

unfoldable pub scim_create_user :
    ApiSettings → String → String → String → Payload → Store → Handled Resource
unfolding scim_guard parse_scim_user create_user add_member to_scim_user
scim_create_user settings user_id now auth payload s =
    guarded_by (scim_guard settings auth) s λ org_id.
      let email = (parse_scim_user payload).email in
      if email == ""
      then (s, refused 400 "SCIM user requires userName (email).", [])
      else provisioned settings org_id email s (elim (get_user_by_email email s) [
        | some user ↦ some (s, user)
        | none ↦ create_user user_id now email s
      ])

-- The body of a PATCH; a DELETE has none.
abbrev pub Patch : Type 0
Patch = Option (Active × List OpValue)

abbrev pub unsupported : Patch → Bool
unsupported none = false
unsupported (some (active, operations)) = not (is_deprovision active operations)

abbrev removal : String → Option User → Store → Store × Bool
removal org_id none s = (s, false)
removal org_id (some user) s = remove_member org_id user.id s

unfoldable pub scim_deprovision_user : ApiSettings → String → String → Patch → Store → Handled Bool
unfolding scim_guard is_deprovision remove_member
scim_deprovision_user settings auth email patch s =
    guarded_by (scim_guard settings auth) s λ org_id.
      if unsupported patch
      then (s, refused 400 "Unsupported SCIM PATCH (only active=false is handled).", [])
      else let done = removal org_id (get_user_by_email (lower_str (strip email)) s) s in
        (
          done.0,
          ok done.1,
          record {
            name = "scim.user_deprovisioned";
            fields = ("org_id", org_id) ∷ ("email", email) ∷ [];
          }
              ∷ [],
        )
