-- ===== src/Api/Onboarding/Laws.antt =====
-- What a signup and a deprovisioning leave behind.
use dev_ops_copilot.Base.{
  ◌≡◌, refl, ◌∙◌, String, false, Option, none, some, List, [], ◌∷◌, ◌++◌, ◌||◌, ◌==◌, string_eq,
  keep, arith, Bool-cases, Option-cases, inl, inr, any_of, eq_refl, is_some,
}
use dev_ops_copilot.Base.Text.{strip}
use dev_ops_copilot.Base.Case.{lower_str, le_str}
use dev_ops_copilot.Tenancy.{Org, User, ApiKey, Store, KeyRow, first_where, first_where-last}
use dev_ops_copilot.Tenancy.Roles.{normalize_role, rank_of}
use dev_ops_copilot.Tenancy.Plans.{normalize_plan}
use dev_ops_copilot.Tenancy.Orgs.{
  get_org, get_user_by_email, is_member, create_org, create_user, add_member, remove_member-removes,
  has_org_id, org_of,
}
use dev_ops_copilot.Tenancy.Keys.{resolve_api_key, issue_api_key}
use dev_ops_copilot.Tenancy.Keys.Laws.{NoUnderscore, Usable, issue_api_key-resolves}
use dev_ops_copilot.Api.{ok, refused, crashed, ApiSettings}
use dev_ops_copilot.Api.Admin.{Handled, Draw}
use dev_ops_copilot.Api.Onboarding.{
  SignedUp, Fresh, signup, key_issued, owner_key, scim_deprovision_user, scim_guard, Patch,
  unsupported, ltb, length, codes, is_email, get_membership_by_email,
}

normalize_role-owner : normalize_role "owner" ≡ "owner"
unfolding normalize_role rank_of strip lower_str
normalize_role-owner = refl

normalize_plan-free : normalize_plan "free" ≡ "free"
unfolding normalize_plan strip lower_str
normalize_plan-free = refl

issue_api_key-role :
    (sha256 : String → String) (d : Draw) (org_id name role : String) (s s' : Store)
    (plaintext : String) (key : ApiKey)
    → issue_api_key sha256 d.id d.prefix d.raw d.now d.later 90 org_id name role s
      ≡ some (s', (plaintext, key))
    → key.role ≡ normalize_role role
unfolding issue_api_key
issue_api_key-role sha256 d org_id name role s s' plaintext key h =
    elim (Bool-cases
      (any_of (λ (r : KeyRow). (r.key.id == d.id) || (r.key.prefix == d.prefix)) s.api_keys)) [
        | inl taken ↦ absurd (ground (arith, taken))
        | inr fresh ↦ ground (arith, fresh)
      ]

-- What is promised of a signup that succeeds: its organisation is on the free plan, and the key that
-- it shows opens it, at any time before the key expires, with the role of an owner. One that is
-- refused leaves the store as it was.
abbrev pub Opened : (String → String) → String → Store → Handled SignedUp → Type 0
Opened sha256 at s (s', ok made, events) =
    ((resolve_api_key sha256 at made.api_key s').1
      ≡ some (made.org, record made.key { last_used_at = at }))
    × (made.org.plan ≡ "free")
    × (made.key.role ≡ "owner")
Opened sha256 at s (s', refused status detail, events) = s' ≡ s
Opened sha256 at s (s', crashed, events) = ⊥

-- The prefix and the id of a key are drawn for the first time, in hexadecimal.
abbrev pub IsFresh : Draw → List KeyRow → Type 0
IsFresh d rows =
    (any_of (λ (r : KeyRow). (r.key.id == d.id) || (r.key.prefix == d.prefix)) rows ≡ false)
    × NoUnderscore d.prefix
    × NoUnderscore d.raw

key_issued-Opened :
    (sha256 : String → String) (d : Draw) (org : Org) (s s₀ : Store) (at : String)
    → IsFresh d s.api_keys
    → get_org org.id s ≡ some org
    → le_str d.later at ≡ false
    → org.plan ≡ "free"
    → Opened sha256 at s₀ (
        key_issued org s
          (issue_api_key sha256 d.id d.prefix d.raw d.now d.later 90 org.id "owner-key" "owner" s))
key_issued-Opened sha256 d org s s₀ at (fresh, hp, hr) there unexpired free = go _ refl (
    issue_api_key-resolves sha256 d.id d.prefix d.raw d.now d.later 90 org.id "owner-key" "owner" s
      org at fresh hp hr there (inr unexpired))
  where
    go :
        (o : Option (Store × (String × ApiKey)))
        → issue_api_key sha256 d.id d.prefix d.raw d.now d.later 90 org.id "owner-key" "owner" s ≡ o
        → Usable sha256 at org o
        → Opened sha256 at s₀ (key_issued org s o)
    go none e u = absurd u
    go (some (s', (plaintext, key))) e u = (
      u,
      free,
      issue_api_key-role sha256 d org.id "owner-key" "owner" s s' plaintext key e
          ∙ normalize_role-owner,
    )

-- What `create_org` leaves where the ids that it draws are new.
abbrev Created : String → String → Store → Store × Option Org → Type 0
Created id plan s (s', none) = ⊥
Created id plan s (s', some org) =
    (org.id ≡ id)
    × (org.plan ≡ normalize_plan plan)
    × (s'.api_keys ≡ s.api_keys)
    × (get_org org.id s' ≡ some org)

create_org-Created :
    (id user_id now dek name plan email : String) (s : Store)
    → any_of (has_org_id id) s.orgs ≡ false
    → any_of (λ (u : User). u.id == user_id) s.users ≡ false
    → Created id plan s (create_org id user_id now dek name plan email s)
unfolding create_org create_user add_member get_org get_user_by_email
create_org-Created id user_id now dek name plan email s new_org new_user =
    elim (Bool-cases (email == "")) [
      | inl nobody ↦ rw (create_org, new_org, nobody) (refl, refl, refl, found)
      | inr given ↦ elim (Option-cases (get_user_by_email email s)) [
        | inl unknown ↦ rw (create_org, new_org, given, unknown, new_user) (refl, refl, refl, found)
        | inr (u, known) ↦ rw (create_org, new_org, given, known) (refl, refl, refl, found)
      ]
    ]
  where
    org : Org
    org = record {
      id = id;
      name = name;
      plan = normalize_plan plan;
      created_at = now;
      stripe_customer_id = "";
    }

    found :
        org_of
          (first_where (has_org_id id) (s.orgs ++ record { org = org; wrapped_dek = dek } ∷ []))
        ≡ some org
    found =
        rw
          (first_where-last (has_org_id id) s.orgs (record { org = org; wrapped_dek = dek }) new_org
            (eq_refl id))
          refl

owner_key-Opened :
    (sha256 : String → String) (d : Draw) (id : String) (s₀ : Store) (r : Store × Option Org)
    (at : String)
    → IsFresh d s₀.api_keys
    → le_str d.later at ≡ false
    → Created id "free" s₀ r
    → Opened sha256 at s₀ (owner_key sha256 d r)
owner_key-Opened sha256 d id s₀ (s, none) at fresh unexpired made = absurd made
owner_key-Opened sha256 d id s₀ (s, some org) at (fresh, hp, hr) unexpired
      (same_id, plan, rows, there) =
    key_issued-Opened sha256 d org s s₀ at (rw rows fresh, hp, hr) there unexpired
      (plan ∙ normalize_plan-free)

-- A signup whose drawn identifiers are new ends in one of two ways: it is refused, and the store is
-- as it was, or it makes an organisation on the free plan whose key opens it with the role of an
-- owner, at any time before the key expires. It never fails halfway.
pub signup-Opened :
    (sha256 : String → String) (settings : ApiSettings) (f : Fresh) (org_name email at : String)
    (s : Store)
    → IsFresh f.key s.api_keys
    → any_of (has_org_id f.org_id) s.orgs ≡ false
    → any_of (λ (u : User). u.id == f.user_id) s.users ≡ false
    → le_str f.key.later at ≡ false
    → Opened sha256 at s (signup sha256 settings f org_name email s)
unfolding signup
signup-Opened sha256 settings f org_name email at s fresh new_org new_user unexpired =
    elim (Bool-cases settings.multi_tenant) [
      | inr single ↦ rw (signup, single) refl
      | inl multi ↦ elim (Bool-cases settings.signup_enabled) [
        | inr off ↦ rw (signup, multi, off) refl
        | inl on ↦
            elim (Bool-cases
              ((strip org_name == "") || ltb 120 (length (codes (strip org_name))))) [
                | inl unnamed ↦ rw (signup, multi, on, unnamed) refl
                | inr named ↦ elim (Bool-cases (is_email (lower_str (strip email)))) [
                  | inr odd ↦ rw (signup, multi, on, named, odd) refl
                  | inl plausible ↦
                      elim (Bool-cases
                        (is_some (get_membership_by_email (lower_str (strip email)) s))) [
                          | inl known ↦ rw (signup, multi, on, named, plausible, known) refl
                          | inr unknown ↦
                              rw (signup, multi, on, named, plausible, unknown)
                                (owner_key-Opened sha256 f.key f.org_id s _ at fresh unexpired (
                                  create_org-Created f.org_id f.user_id f.key.now f.wrapped_dek
                                    (strip org_name) "free" (lower_str (strip email)) s new_org
                                    new_user))
                        ]
                ]
              ]
      ]
    ]

-- A deprovisioning by an authenticated identity provider, for an address that a user has, leaves
-- that user with no role in the provider's organisation, and reports whether there was one. A PATCH
-- counts as one where it sets the user inactive.
pub scim_deprovision_user-removes :
    (settings : ApiSettings) (auth email org_id : String) (patch : Patch) (s : Store) (u : User)
    → scim_guard settings auth ≡ ok org_id
    → unsupported patch ≡ false
    → get_user_by_email (lower_str (strip email)) s ≡ some u
    → (keep
          (is_member org_id u.id)
          (scim_deprovision_user settings auth email patch s).0.memberships
        ≡ [])
      × ((scim_deprovision_user settings auth email patch s).1
          ≡ ok (any_of (is_member org_id u.id) s.memberships))
unfolding scim_deprovision_user
scim_deprovision_user-removes settings auth email org_id patch s u let_in supported known =
    rw (scim_deprovision_user, let_in, supported, known) (remove_member-removes org_id u.id s, refl)
