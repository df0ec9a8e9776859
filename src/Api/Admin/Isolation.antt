-- ===== src/Api/Admin/Isolation.antt =====
-- The administration of one tenant reaches nothing of another.
use dev_ops_copilot.Base.{
  ◌≡◌, ◌≢◌, refl, sym, ap, ◌∙◌, String, true, Option, none, some, List, [], ◌∷◌, ◌++◌, not, ◌||◌,
  ◌==◌, string_eq, keep, arith, Bool-cases, Option-cases, inl, inr, any_of, str_eq_iff,
}
use dev_ops_copilot.Base.Text.{strip}
use dev_ops_copilot.Tenancy.{Store, KeyRow, User}
use dev_ops_copilot.Tenancy.Plans.{within_quota}
use dev_ops_copilot.Tenancy.Roles.{normalize_role}
use dev_ops_copilot.Tenancy.Orgs.{
  set_plan, create_user, add_member, count_members, is_member, get_user_by_email, has_org_id,
  normalize_email,
}
use dev_ops_copilot.Tenancy.Keys.{issue_api_key, revoke_api_key, revocable, count_active_api_keys}
use dev_ops_copilot.Tenancy.Vault.{Cipher}
use dev_ops_copilot.Tenancy.Secrets.{set_integration_secret, put_secret, is_secret, put_row}
use dev_ops_copilot.Tenancy.Erasure.{holdings}
use dev_ops_copilot.Tenancy.Holdings.{
  key_org, member_org, secret_org, row_org, same_keys, same_members, same_secrets, same_orgs,
  select-added, select-removed, select-updated,
}
use dev_ops_copilot.Tenancy.Auth.{TenantConfig, enter, Resolution, denied, failed, granted}
use dev_ops_copilot.Api.Admin.Resolved.{IsCurrent, resolve_org-IsCurrent}
use dev_ops_copilot.Api.Admin.{
  admin_create_api_key, admin_revoke_api_key, admin_add_member, admin_set_integration,
  admin_set_plan, issued, joined, written, Draw, AdminRequest, create_api_key, revoke_key,
  add_to_org, set_integration, change_plan, administer, administer_all, administer_as, resolve_org,
  Asked, revoked-store, normalize_plan,
}

module _ (org_id other : String) (ne : other ≢ org_id) where
  issued-others :
      (sha256 : String → String) (d : Draw) (name role : String) (s : Store)
      → holdings other
          (issued org_id s
            (issue_api_key sha256 d.id d.prefix d.raw d.now d.later 90 org_id name role s)).0
        ≡ holdings other s
  unfolding issue_api_key
  issued-others sha256 d name role s =
      elim (Bool-cases
        (any_of (λ r. (r.key.id == d.id) || (r.key.prefix == d.prefix)) s.api_keys)) [
          | inl taken ↦ rw taken refl
          | inr fresh ↦
              rw fresh
                (same_keys other s _ (select-added key_org org_id other ne s.api_keys _ refl))
        ]

  revoked-others :
      (now key_id : String) (s : Store)
      → org_id ≢ ""
      → holdings other (revoke_api_key now key_id org_id s).0 ≡ holdings other s
  unfolding revoke_api_key
  revoked-others now key_id s named = same_keys other s _ (
      select-updated key_org org_id other ne (revocable key_id org_id) _ own (λ _. refl) s.api_keys)
    where
      own : (r : KeyRow) → revocable key_id org_id r ≡ true → r.key.org_id ≡ org_id
      own r h = ground (arith, named, str_eq_iff org_id "", str_eq_iff r.key.org_id org_id)

  added-others :
      (user_id role : String) (s : Store)
      → holdings other (add_member org_id user_id role s).0 ≡ holdings other s
  unfolding add_member
  added-others user_id role s = same_members other s _ (
      select-added member_org org_id other ne
        (keep (λ m. not (is_member org_id user_id m)) s.memberships) _ refl
      ∙ select-removed member_org org_id other ne (is_member org_id user_id)
          (λ m h. (str_eq_iff m.org_id org_id).0 (ground arith)) s.memberships)

  put-others :
      (name now token : String) (s : Store)
      → holdings other (put_row org_id name now token s) ≡ holdings other s
  put-others name now token s = same_secrets other s _ (
      select-added secret_org org_id other ne
        (keep (λ r. not (is_secret org_id name r)) s.integration_secrets) _ refl
      ∙ select-removed secret_org org_id other ne (is_secret org_id name)
          (λ r h. (str_eq_iff r.org_id org_id).0 (ground arith)) s.integration_secrets)

  plan-others :
      (plan : String) (s : Store) → holdings other (set_plan org_id plan s) ≡ holdings other s
  unfolding set_plan
  plan-others plan s = same_orgs other s _ (
      select-updated row_org org_id other ne (has_org_id org_id) _
        (λ r h. (str_eq_iff r.org.id org_id).0 h) (λ _. refl) s.orgs)

  created-others :
      (user_id now email : String) (s s' : Store) (u : User)
      → create_user user_id now email s ≡ some (s', u)
      → holdings other s' ≡ holdings other s
  unfolding create_user
  created-others user_id now email s s' u h = elim (Option-cases (get_user_by_email email s)) [
    | inr (known, there) ↦
        let e : ◌≡◌ {A = Option (Store × User)} (some (s, known)) (some (s', u)) =
          rw (create_user, there) at h in
        let same : s' ≡ s = cc in ap (holdings other) same
    | inl nobody ↦ elim (Bool-cases (any_of (λ (v : User). v.id == user_id) s.users)) [
      | inl taken ↦
          let e : ◌≡◌ {A = Option (Store × User)} none (some (s', u)) =
            rw (create_user, nobody, taken) at h in
          cc
      | inr fresh ↦
          let user : User = record {
            id = user_id;
            email = normalize_email email;
            created_at = now;
          } in
          let e : ◌≡◌ {A = Option (Store × User)}
              (some (record s { users = s.users ++ user ∷ [] }, user)) (some (s', u)) =
            rw (create_user, nobody, fresh) at h in
          let same : s' ≡ record s { users = s.users ++ user ∷ [] } = cc in ap (holdings other) same
    ]
  ]

  joined-others :
      (user_id now email role : String) (s : Store)
      → holdings other (joined org_id role s (create_user user_id now email s)).0 ≡ holdings other s
  joined-others user_id now email role s = elim (Option-cases (create_user user_id now email s)) [
    | inl clash ↦ rw clash refl
    | inr ((s', u), made) ↦
        rw made (
          added-others u.id (normalize_role role) s' ∙ created-others user_id now email s s' u made)
  ]

  written-others :
      (c : Cipher) (kek name now : String) (o : Option String) (s : Store)
      → holdings other (written c kek org_id name s (put_secret c kek org_id name now o s)).0
        ≡ holdings other s
  written-others c kek name now none s = refl
  written-others c kek name now (some token) s = put-others name now token s

module _ (sha256 : String → String) (c : Cipher) (kek actor : String) (cfg : TenantConfig)
    (other : String) (ne : other ≢ cfg.org_id) (named : cfg.org_id ≢ "") where
  administer-others :
      (r : AdminRequest) (s : Store)
      → holdings other (administer sha256 c kek (enter cfg actor) r s) ≡ holdings other s
  unfolding administer admin_create_api_key admin_revoke_api_key admin_add_member
      admin_set_integration admin_set_plan set_integration_secret
  administer-others (create_api_key d name role) s =
      elim (Bool-cases (within_quota cfg.plan "api_keys" (count_active_api_keys cfg.org_id s))) [
        | inr full ↦ rw (administer, admin_create_api_key, full) refl
        | inl room ↦
            rw (administer, admin_create_api_key, room)
              (issued-others cfg.org_id other ne sha256 d name (normalize_role role) s)
      ]
  administer-others (revoke_key now key_id) s =
      ap (holdings other)
        (revoked-store cfg.org_id key_id s (revoke_api_key now key_id cfg.org_id s))
      ∙ revoked-others cfg.org_id other ne now key_id s named
  administer-others (add_to_org user_id now email role) s =
      elim (Bool-cases (within_quota cfg.plan "seats" (count_members cfg.org_id s))) [
        | inr full ↦ rw (administer, admin_add_member, full) refl
        | inl room ↦
            rw (administer, admin_add_member, room)
              (joined-others cfg.org_id other ne user_id now email role s)
      ]
  administer-others (set_integration now name value) s = elim (Bool-cases (strip name == "")) [
    | inl unnamed ↦ rw (administer, admin_set_integration, unnamed) refl
    | inr given ↦
        rw (administer, admin_set_integration, given)
          (written-others cfg.org_id other ne c kek (strip name) now _ s)
  ]
  administer-others (change_plan plan) s = plan-others cfg.org_id other ne (normalize_plan plan) s

module _ (sha256 : String → String) (c : Cipher) (kek org_id other : String) (ne : other ≢ org_id)
    (named : org_id ≢ "") where
  administer_as-others :
      (res : Resolution) (r : AdminRequest) (s : Store)
      → ((cfg : TenantConfig) (actor : String) → res ≡ granted cfg actor → IsCurrent org_id s cfg)
      → holdings other (administer_as sha256 c kek res r s) ≡ holdings other s
  administer_as-others denied r s own = refl
  administer_as-others failed r s own = refl
  administer_as-others (granted cfg actor) r s own =
      let (org, there, id, plan) = own cfg actor refl in
      administer-others sha256 c kek actor cfg other (λ e. ne (e ∙ id)) (λ e. named (sym id ∙ e)) r
        s

  administer_all-others :
      (qs : List Asked) (s : Store)
      → holdings other (administer_all sha256 c kek org_id qs s) ≡ holdings other s
  unfolding administer_all
  administer_all-others [] s = refl
  administer_all-others (q ∷ qs) s =
      administer_all-others qs
        (administer_as sha256 c kek (resolve_org sha256 c kek org_id q s) q.request s)
      ∙ administer_as-others (resolve_org sha256 c kek org_id q s) q.request s
          (resolve_org-IsCurrent sha256 c kek org_id q s)

-- Whatever administrative requests a tenant makes, one under any configuration of its own, or any
-- number one after the other, each under the configuration that the tenant has then, everything that
-- the store holds of any other organisation stays as it was: its row, its members, keys, secrets and
-- usage.
pub administer_all-isolates :
    (sha256 : String → String) (c : Cipher) (kek actor : String) (cfg : TenantConfig)
    (other : String)
    → other ≢ cfg.org_id
    → cfg.org_id ≢ ""
    → (r : AdminRequest) (qs : List Asked) (s : Store)
    → (holdings other (administer sha256 c kek (enter cfg actor) r s) ≡ holdings other s)
      × (holdings other (administer_all sha256 c kek cfg.org_id qs s) ≡ holdings other s)
administer_all-isolates sha256 c kek actor cfg other ne named r qs s = (
  administer-others sha256 c kek actor cfg other ne named r s,
  administer_all-others sha256 c kek cfg.org_id other ne named qs s,
)
