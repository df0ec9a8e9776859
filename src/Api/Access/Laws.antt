-- ===== src/Api/Access/Laws.antt =====
-- What the credential of a request must be, and that the threads of tenants are apart.
use text.Mathlib.TextLemmas.{cons-append, nil-append}
use dev_ops_copilot.Base.{
  ◌≡◌, refl, sym, ap, ◌∙◌, ◌<>◌, String, Bool, true, false, Option, none, some, ◌⊎◌, inl, inr, eqb,
  ◌==◌, string_eq, if◌then◌else◌, Bool-cases, Option-cases, List, [], ◌∷◌, subst, str_eq_iff,
}
use dev_ops_copilot.Base.Text.{strip, starts_with}
use dev_ops_copilot.Base.Case.{lower_str}
use dev_ops_copilot.Base.Dict.{Dict}
use dev_ops_copilot.Tenancy.{Org, ApiKey, Store, OrgRow, first_where}
use dev_ops_copilot.Tenancy.Roles.{can}
use dev_ops_copilot.Tenancy.Orgs.{get_org, get_membership_by_email, has_org_id}
use dev_ops_copilot.Tenancy.Keys.{resolve_api_key}
use dev_ops_copilot.Tenancy.Keys.Laws.{Resolved, resolve_api_key_sound}
use dev_ops_copilot.Tenancy.Vault.{Cipher}
use dev_ops_copilot.Tenancy.Auth.{
  TenantConfig, Resolution, denied, failed, granted, resolve, resolve_jwt, Context, enter, grant,
  build_tenant_config, grant_key, grant_membership,
}
use dev_ops_copilot.Api.{ok, refused, Request, ApiSettings}
use dev_ops_copilot.Api.Access.{
  bearer_token, is_exempt, admit, resolve_token, require_auth, require_perm, scoped, count_dots,
  List, ◌∷◌,
}
use Prim.Native.Char.{Char, code}

-- A text up to its first colon, and what follows it.
at_colon : String → String × String
at_colon String.[] = (String.[], String.[])
at_colon (String.◌∷◌ c s) =
    let rest = at_colon s in
    if eqb (code c) 58 then (String.[], s) else (String.◌∷◌ c rest.0, rest.1)

-- As the identifiers that `uuid4().hex` draws are.
unfoldable pub NoColon : String → Type 0
NoColon String.[] = Unit
NoColon (String.◌∷◌ c s) = (eqb (code c) 58 ≡ false) × NoColon s

abbrev colon : Char
colon = Prim.Native.Char.char 58 tt

colon-append : (s : String) → ":" <> s ≡ String.◌∷◌ colon s
colon-append s = cons-append colon "" s ∙ ap (String.◌∷◌ colon) (nil-append s)

at_colon-append : (a s : String) → NoColon a → at_colon (a <> (":" <> s)) ≡ (a, s)
unfolding at_colon NoColon
at_colon-append String.[] s h = ap at_colon (nil-append (":" <> s) ∙ colon-append s)
at_colon-append (String.◌∷◌ c a) s (hc, h) =
    rw (cons-append c a (":" <> s), hc, at_colon-append a s h) refl

-- Two tenants whose identifiers hold no colon never meet in a thread: where the names that their
-- threads have inside the process are equal, the organisations are the same and so are the threads.
pub scoped_isolates :
    (cfg cfg' : TenantConfig) (actor actor' thread thread' : String)
    → NoColon cfg.org_id
    → NoColon cfg'.org_id
    → scoped (enter cfg actor) thread ≡ scoped (enter cfg' actor') thread'
    → (cfg.org_id ≡ cfg'.org_id) × (thread ≡ thread')
unfolding scoped
scoped_isolates cfg cfg' actor actor' thread thread' h h' e =
    let parts : (cfg.org_id, thread) ≡ (cfg'.org_id, thread') =
      sym (at_colon-append cfg.org_id thread h)
      ∙ ap at_colon e
      ∙ at_colon-append cfg'.org_id thread' h' in
    (ap (λ (p : String × String). p.0) parts, ap (λ (p : String × String). p.1) parts)

grant-eq :
    (org : Org) (role actor : String) (o : Option (Dict String String)) (cfg : TenantConfig)
    (a : String)
    → grant org role actor o ≡ granted cfg a
    → (cfg.org_id ≡ org.id) × (cfg.role ≡ role)
unfolding build_tenant_config
grant-eq org role actor none cfg a h = cc
grant-eq org role actor (some secrets) cfg a h =
    let same : build_tenant_config org role secrets ≡ cfg = cc in
    (ap (λ (x : TenantConfig). x.org_id) (sym same), ap (λ (x : TenantConfig). x.role) (sym same))

first_where-prop :
    {A : Type 0} (p : A → Bool) (xs : List A) (x : A) → first_where p xs ≡ some x → p x ≡ true
first_where-prop p [] x h = cc
first_where-prop p (y ∷ ys) x h = elim (Bool-cases (p y)) [
  | inl here ↦ let e : some y ≡ some x = rw here at h in subst (λ z. p z ≡ true) (cc) here
  | inr there ↦ first_where-prop p ys x (rw there at h)
]

pub get_org-id :
    (org_id : String) (s : Store) (org : Org) → get_org org_id s ≡ some org → org.id ≡ org_id
unfolding get_org
get_org-id org_id s org h = go (first_where (has_org_id org_id) s.orgs) refl
  where
    go : (o : Option OrgRow) → first_where (has_org_id org_id) s.orgs ≡ o → org.id ≡ org_id
    go none e = let broken : none ≡ some org = rw e at h in cc
    go (some row) e =
        let same : some row.org ≡ some org = rw e at h in
        let of_row : row.org ≡ org = cc in
        ap (λ (x : Org). x.id) (sym of_row)
        ∙ (str_eq_iff row.org.id org_id).0 (first_where-prop (has_org_id org_id) s.orgs row e)

module _ (sha256 : String → String) (c : Cipher) (kek : String)
    (verify_jwt : String → Option String) where
  -- A key that is resolved, or a valid token of a member, for an organisation and a role.
  abbrev pub Credential : String → String → Store → String → String → Type 0
  Credential now token s org_id role =
      ((org : Org) × (key : ApiKey) × Resolved sha256 now token s org key
        × (org.id ≡ org_id)
        × (key.role ≡ role))
      ⊎ ((claim : String) × (verify_jwt token ≡ some claim)
          × (get_membership_by_email (lower_str (strip claim)) s ≡ some (org_id, role)))

  grant_key-Credential :
      (now token : String) (s : Store) (r : Store × Option (Org × ApiKey)) (cfg : TenantConfig)
      (a : String)
      → resolve_api_key sha256 now token s ≡ r
      → (grant_key sha256 c kek r).1 ≡ granted cfg a
      → Credential now token s cfg.org_id cfg.role
  grant_key-Credential now token s (s', none) cfg a e h = cc
  grant_key-Credential now token s (s', some (org, key)) cfg a e h =
      let (same_org, same_role) = grant-eq org key.role _ _ cfg a h in
      let found : (resolve_api_key sha256 now token s).1 ≡ some (org, key) =
        ap (λ (x : Store × Option (Org × ApiKey)). x.1) e in
      inl (
        org,
        key,
        resolve_api_key_sound sha256 now token s org key found,
        sym same_org,
        sym same_role,
      )

  grant_membership-eq :
      (email : String) (s : Store) (o : Option (String × String)) (cfg : TenantConfig) (a : String)
      → grant_membership sha256 c kek email s o ≡ granted cfg a
      → o ≡ some (cfg.org_id, cfg.role)
  grant_membership-eq email s none cfg a h = cc
  grant_membership-eq email s (some (org_id, role)) cfg a h =
      elim (Option-cases (get_org org_id s)) [
        | inl gone ↦ let broken : denied ≡ granted cfg a = rw gone at h in cc
        | inr (org, there) ↦
            let (same_org, same_role) = grant-eq org role _ _ cfg a (rw there at h) in
            let id = get_org-id org_id s org there in cc
      ]

  resolve_jwt-Credential :
      (now token : String) (s : Store) (cfg : TenantConfig) (a : String)
      → resolve_jwt sha256 c kek verify_jwt token s ≡ granted cfg a
      → Credential now token s cfg.org_id cfg.role
  unfolding resolve_jwt
  resolve_jwt-Credential now token s cfg a h = elim (Option-cases (verify_jwt token)) [
    | inl bad ↦ let broken : denied ≡ granted cfg a = rw (resolve_jwt, bad) at h in cc
    | inr (claim, valid) ↦ elim (Bool-cases (lower_str (strip claim) == "")) [
      | inl empty ↦ let broken : denied ≡ granted cfg a = rw (resolve_jwt, valid, empty) at h in cc
      | inr email ↦ inr (
        claim,
        valid,
        grant_membership-eq (lower_str (strip claim)) s _ cfg a
            (rw (resolve_jwt, valid, email) at h),
      )
    ]
  ]

  resolve_token-Credential :
      (now token : String) (s : Store) (cfg : TenantConfig) (a : String)
      → (resolve_token sha256 c kek verify_jwt now token s).1 ≡ granted cfg a
      → Credential now token s cfg.org_id cfg.role
  unfolding resolve_token resolve
  resolve_token-Credential now token s cfg a h = elim (Bool-cases (starts_with "dcp_" token)) [
    | inl key ↦
        grant_key-Credential now token s (resolve_api_key sha256 now token s) cfg a refl
          (rw key at h)
    | inr no_key ↦ elim (Bool-cases (eqb (count_dots token) 2)) [
      | inl jwt ↦ resolve_jwt-Credential now token s cfg a (rw (no_key, jwt) at h)
      | inr neither ↦ let broken : denied ≡ granted cfg a = rw (no_key, neither) at h in cc
    ]
  ]

  admit-eq :
      (r : Store × Resolution) (ctx : Context)
      → (admit r).1 ≡ ok ctx
      → (cfg : TenantConfig) × (a : String) × (r.1 ≡ granted cfg a)
        × (ctx.current_tenant ≡ some cfg)
  admit-eq (s, denied) ctx h = cc
  admit-eq (s, failed) ctx h = cc
  admit-eq (s, granted cfg a) ctx h =
      let same : enter cfg a ≡ ctx = cc in
      (cfg, a, refl, ap (λ (x : Context). x.current_tenant) (sym same))

  -- With several tenants, a request to a route that needs a credential passes the authentication
  -- and the permission check of an action only with a tenant set, and only where its credential is
  -- an API key that resolves to that tenant's organisation with the tenant's role, or a valid token
  -- whose email's membership has that organisation and role, and where the role may do the action.
  pub require_auth_sound :
      (settings : ApiSettings) (now action : String) (r : Request) (s : Store) (ctx : Context)
      → settings.multi_tenant ≡ true
      → is_exempt r ≡ false
      → (require_auth sha256 c kek verify_jwt settings now r s).1 ≡ ok ctx
      → require_perm settings action ctx ≡ ok tt
      → (cfg : TenantConfig) × (ctx.current_tenant ≡ some cfg)
        × Credential now (bearer_token r.authorization) s cfg.org_id cfg.role
        × (can cfg.role action ≡ true)
  unfolding require_auth require_perm
  require_auth_sound settings now action r s ctx multi guarded_path h p =
      let admitted : (admit
            (resolve_token sha256 c kek verify_jwt now (bearer_token r.authorization) s)).1
          ≡ ok ctx =
        rw (guarded_path, multi) at h in
      let (cfg, a, found, tenant) = admit-eq _ ctx admitted in
      (
        cfg,
        tenant,
        resolve_token-Credential now (bearer_token r.authorization) s cfg a found,
        allowed cfg tenant,
      )
    where
      allowed : (cfg : TenantConfig) → ctx.current_tenant ≡ some cfg → can cfg.role action ≡ true
      allowed cfg tenant = elim (Bool-cases (can cfg.role action)) [
        | inl may ↦ may
        | inr may_not ↦ let broken : refused 403 _ ≡ ok tt = rw (multi, tenant, may_not) at p in cc
      ]
