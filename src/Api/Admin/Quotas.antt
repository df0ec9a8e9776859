-- ===== src/Api/Admin/Quotas.antt =====
-- What each change of the administration does to the numbers of keys and seats.
use dev_ops_copilot.Base.{
  ℕ, ◌+◌, ◌≤◌, ◌<◌, ◌≡◌, refl, String, Bool, Option, none, some, List, [], ◌∷◌, ◌++◌, not, ◌&&◌,
  ◌||◌, ◌==◌, string_eq, keep, length, arith, Bool-cases, Option-cases, inl, inr, any_of,
}
use dev_ops_copilot.Tenancy.{Store, KeyRow, Membership, User, update_where}
use dev_ops_copilot.Tenancy.Orgs.{
  set_plan, create_user, add_member, count_members, is_member, get_user_by_email,
}
use dev_ops_copilot.Tenancy.Keys.{issue_api_key, revoke_api_key, revocable, count_active_api_keys}
use dev_ops_copilot.Tenancy.Vault.{Cipher}
use dev_ops_copilot.Tenancy.Secrets.{set_integration_secret, put_secret, enc, wrapped_dek}
use dev_ops_copilot.Api.Admin.{issued, joined, written, Draw}

abbrev is_active : String → KeyRow → Bool
is_active org_id r = (r.key.org_id == org_id) && (r.key.revoked_at == "")

length-keep-last :
    {A : Type 0} (p : A → Bool) (xs : List A) (x : A)
    → length (keep p (xs ++ x ∷ [])) ≤ length (keep p xs) + 1
length-keep-last p [] x = ground arith
length-keep-last p (y ∷ ys) x = ground (arith, length-keep-last p ys x)

length-keep-keep :
    {A : Type 0} (p q : A → Bool) (xs : List A) → length (keep p (keep q xs)) ≤ length (keep p xs)
length-keep-keep p q [] = omega arith
length-keep-keep p q (x ∷ xs) = ground (arith, length-keep-keep p q xs)

active-revoked :
    (now key_id org_id who : String) (rows : List KeyRow)
    → length (
        keep (is_active who) (
          update_where
            (revocable key_id org_id)
            (λ r. record r { key = record r.key { revoked_at = now } })
            rows))
      ≤ length (keep (is_active who) rows)
active-revoked now key_id org_id who [] = omega arith
active-revoked now key_id org_id who (r ∷ rows) =
    ground (arith, active-revoked now key_id org_id who rows)

-- The numbers that the plan limits.
pub record Within (keys seats : ℕ) (org_id : String) (s : Store) : Type 0 where
  pub few_keys : count_active_api_keys org_id s ≤ keys
  pub few_seats : count_members org_id s ≤ seats

-- The store after an issue, where there is one, has at most one more active key and the same members.
pub issued-Within :
    (sha256 : String → String) (d : Draw) (org_id name role : String) (keys seats : ℕ) (s : Store)
    → count_active_api_keys org_id s < keys
    → count_members org_id s ≤ seats
    → Within keys seats org_id
        (issued org_id s
          (issue_api_key sha256 d.id d.prefix d.raw d.now d.later 90 org_id name role s)).0
unfolding issue_api_key count_active_api_keys count_members
issued-Within sha256 d org_id name role keys seats s few seated =
    elim (Bool-cases (any_of (λ r. (r.key.id == d.id) || (r.key.prefix == d.prefix)) s.api_keys)) [
      | inl taken ↦ rw taken (record { few_keys = omega arith; few_seats = seated })
      | inr fresh ↦ rw fresh (record {
        few_keys = omega (arith, length-keep-last (is_active org_id) s.api_keys _);
        few_seats = seated;
      })
    ]

pub revoked-Within :
    (now key_id org_id : String) (keys seats : ℕ) (s : Store)
    → Within keys seats org_id s
    → Within keys seats org_id (revoke_api_key now key_id org_id s).0
unfolding revoke_api_key count_active_api_keys count_members
revoked-Within now key_id org_id keys seats s w = record {
  few_keys = omega (arith, active-revoked now key_id org_id org_id s.api_keys, w.few_keys);
  few_seats = w.few_seats;
}

-- A new user is in no organisation yet.
create_user-same :
    (user_id now email : String) (s s' : Store) (u : User)
    → create_user user_id now email s ≡ some (s', u)
    → (s'.memberships ≡ s.memberships) × (s'.api_keys ≡ s.api_keys)
unfolding create_user
create_user-same user_id now email s s' u h = elim (Option-cases (get_user_by_email email s)) [
  | inr (known, there) ↦
      let e : ◌≡◌ {A = Option (Store × User)} (some (s, known)) (some (s', u)) =
        rw (create_user, there) at h in
      (cc, cc)
  | inl nobody ↦ elim (Bool-cases (any_of (λ (v : User). v.id == user_id) s.users)) [
    | inl taken ↦
        let e : ◌≡◌ {A = Option (Store × User)} none (some (s', u)) =
          rw (create_user, nobody, taken) at h in
        cc
    | inr fresh ↦ (ground (arith, nobody, fresh), ground (arith, nobody, fresh))
  ]
]

pub joined-Within :
    (org_id user_id now email role : String) (keys seats : ℕ) (s : Store)
    → count_active_api_keys org_id s ≤ keys
    → count_members org_id s < seats
    → Within keys seats org_id (joined org_id role s (create_user user_id now email s)).0
unfolding count_active_api_keys count_members add_member
joined-Within org_id user_id now email role keys seats s few seated =
    elim (Option-cases (create_user user_id now email s)) [
      | inl clash ↦ rw clash (record { few_keys = few; few_seats = omega arith })
      | inr ((s', u), made) ↦
          let (members, rows) = create_user-same user_id now email s s' u made in
          rw (made, members, rows)
            (record {
              few_keys = few;
              few_seats = omega (
                arith,
                length-keep-last (λ (m : Membership). m.org_id == org_id)
                    (keep (λ m. not (is_member org_id u.id m)) s.memberships) _,
                length-keep-keep (λ (m : Membership). m.org_id == org_id)
                    (λ m. not (is_member org_id u.id m)) s.memberships,
              );
            })
    ]

pub plan-Within :
    (org_id plan : String) (s : Store)
    → Within
        (count_active_api_keys org_id s)
        (count_members org_id s)
        org_id
        (set_plan org_id plan s)
unfolding set_plan count_active_api_keys count_members
plan-Within org_id plan s = record { few_keys = omega arith; few_seats = omega arith }

set_secret-same :
    (org_id name now : String) (o : Option String) (s s' : Store) (c : Cipher) (kek : String)
    → put_secret c kek org_id name now o s ≡ some s'
    → (s'.memberships ≡ s.memberships) × (s'.api_keys ≡ s.api_keys)
set_secret-same org_id name now none s s' c kek h = cc
set_secret-same org_id name now (some token) s s' c kek h = (ground arith, ground arith)

pub written-Within :
    (c : Cipher) (kek org_id name value now : String) (keys seats : ℕ) (s : Store)
    → Within keys seats org_id s
    → Within keys seats org_id
        (written c kek org_id name s (set_integration_secret c kek org_id name value now s)).0
unfolding set_integration_secret count_active_api_keys count_members
written-Within c kek org_id name value now keys seats s w =
    go (put_secret c kek org_id name now (enc c kek (wrapped_dek org_id s) value) s) refl
  where
    go :
        (o : Option Store)
        → put_secret c kek org_id name now (enc c kek (wrapped_dek org_id s) value) s ≡ o
        → Within keys seats org_id (written c kek org_id name s o).0
    go none e = w
    go (some s') e =
        let (members, rows) = set_secret-same org_id name now _ s s' c kek e in
        record { few_keys = rw rows w.few_keys; few_seats = rw members w.few_seats }
