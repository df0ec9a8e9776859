-- ===== src/Tenancy/Orgs.antt =====
-- Organisations, users and members (app/tenancy/store.py). `none` is an `IntegrityError`: the id
-- drawn is taken.
use dev_ops_copilot.Base.{
  ℕ, ◌≡◌, refl, String, Bool, Option, none, some, List, [], ◌∷◌, ◌++◌, ◌&&◌, not, keep, any_of,
  length, ◌==◌, string_eq, eq_refl, arith, if◌then◌else◌,
}
use dev_ops_copilot.Base.Text.{strip}
use dev_ops_copilot.Base.Case.{lower_str}
use dev_ops_copilot.Tenancy.{Org, OrgRow, User, Membership, Store, first_where, update_where}
use dev_ops_copilot.Tenancy.Roles.{normalize_role}
use dev_ops_copilot.Tenancy.Plans.{normalize_plan}

-- `email.strip().lower()`
unfoldable pub normalize_email : String → String
normalize_email email = lower_str (strip email)

abbrev pub has_org_id : String → OrgRow → Bool
has_org_id org_id r = r.org.id == org_id

abbrev pub org_of : Option OrgRow → Option Org
org_of none = none
org_of (some r) = some r.org

unfoldable pub get_org : String → Store → Option Org
get_org org_id s = org_of (first_where (has_org_id org_id) s.orgs)

unfoldable pub set_plan : String → String → Store → Store
set_plan org_id plan s = record s {
  orgs =
      update_where (has_org_id org_id)
        (λ r. record r { org = record r.org { plan = normalize_plan plan } }) s.orgs;
}

unfoldable pub set_stripe_customer : String → String → Store → Store
set_stripe_customer org_id customer_id s = record s {
  orgs =
      update_where (has_org_id org_id)
        (λ r. record r { org = record r.org { stripe_customer_id = customer_id } }) s.orgs;
}

unfoldable pub get_user_by_email : String → Store → Option User
get_user_by_email email s = first_where (λ u. u.email == normalize_email email) s.users

unfoldable pub create_user : String → String → String → Store → Option (Store × User)
create_user id now email s = elim (get_user_by_email email s) [
  | some existing ↦ some (s, existing)
  | none ↦
      let user : User = record { id = id; email = normalize_email email; created_at = now } in
      if any_of (λ u. u.id == id) s.users
      then none
      else some (record s { users = s.users ++ user ∷ [] }, user)
]

abbrev pub is_member : String → String → Membership → Bool
is_member org_id user_id m = (m.org_id == org_id) && (m.user_id == user_id)

-- `INSERT OR REPLACE`: the row with the same key goes first.
unfoldable pub add_member : String → String → String → Store → Store × Membership
add_member org_id user_id role s =
    let m : Membership = record {
      org_id = org_id;
      user_id = user_id;
      role = normalize_role role;
    } in
    (
      record s {
        memberships = keep (λ x. not (is_member org_id user_id x)) s.memberships ++ m ∷ [];
      },
      m,
    )

unfoldable pub remove_member : String → String → Store → Store × Bool
remove_member org_id user_id s = (
  record s { memberships = keep (λ x. not (is_member org_id user_id x)) s.memberships },
  any_of (is_member org_id user_id) s.memberships,
)

-- The first membership of a user with the email.
unfoldable pub get_membership_by_email : String → Store → Option (String × String)
get_membership_by_email email s =
    elim (first_where
      (λ m. any_of (λ u. (u.id == m.user_id) && (u.email == normalize_email email)) s.users)
      s.memberships) [ none ↦ none | some m ↦ some (m.org_id, m.role) ]

unfoldable pub count_members : String → Store → ℕ
count_members org_id s = length (keep (λ m. m.org_id == org_id) s.memberships)

-- The organisation's row is committed before the owner is created: it stays when that fails.
unfoldable pub create_org :
    String → String → String → String → String → String → String → Store → Store × Option Org
unfolding create_user add_member
create_org id user_id now wrapped_dek name plan owner_email s =
    let org : Org = record {
      id = id;
      name = name;
      plan = normalize_plan plan;
      created_at = now;
      stripe_customer_id = "";
    } in
    let s' : Store = record s {
      orgs = s.orgs ++ record { org = org; wrapped_dek = wrapped_dek } ∷ [];
    } in
    let owned = create_user user_id now owner_email s' in
    if any_of (has_org_id id) s.orgs
    then (s, none)
    else if owner_email == ""
    then (s', some org)
    else elim owned [
      | none ↦ (s', none)
      | some (s'', user) ↦ ((add_member id user.id "owner" s'').0, some org)
    ]

keep-none :
    (org_id user_id : String) (ms : List Membership)
    → keep (is_member org_id user_id) (keep (λ x. not (is_member org_id user_id x)) ms) ≡ []
keep-none org_id user_id [] = refl
keep-none org_id user_id (m ∷ ms) = ground (arith, keep-none org_id user_id ms)

keep-append :
    {A : Type 0} (p : A → Bool) (xs ys : List A) → keep p (xs ++ ys) ≡ keep p xs ++ keep p ys
keep-append p [] ys = refl
keep-append p (x ∷ xs) ys = ground (arith, keep-append p xs ys)

-- A user has exactly one role in an organisation after being added to it, the role that the
-- addition names, whatever the user's role was before.
pub add_member-replaces :
    (org_id user_id role : String) (s : Store)
    → keep (is_member org_id user_id) (add_member org_id user_id role s).0.memberships
      ≡ record { org_id = org_id; user_id = user_id; role = normalize_role role } ∷ []
unfolding add_member
add_member-replaces org_id user_id role s =
    rw
      (
        keep-append (is_member org_id user_id),
        keep-none org_id user_id s.memberships,
        eq_refl org_id,
        eq_refl user_id,
      )
      refl

-- A removed member has no role left in the organisation, and the removal reports whether there
-- was one.
pub remove_member-removes :
    (org_id user_id : String) (s : Store)
    → keep (is_member org_id user_id) (remove_member org_id user_id s).0.memberships ≡ []
unfolding remove_member
remove_member-removes org_id user_id s = keep-none org_id user_id s.memberships
