-- ===== src/Tenancy.antt =====
-- The tenant store (app/tenancy/store.py) as its tables (app/tenancy/models.py). A timestamp is
-- its ISO text; ids, times, random prefixes and secrets are arguments of what draws them.
pub mod Roles
pub mod Plans
pub mod Orgs
pub mod Keys
pub mod Vault
pub mod Secrets
pub mod Usage
pub mod Erasure
pub mod Auth
pub mod Holdings
pub mod Scim
use dev_ops_copilot.Base.{
  ℕ, ◌≡◌, refl, String, Bool, true, false, Option, none, some, List, [], ◌∷◌, ◌++◌, ◌==◌, string_eq,
  if◌then◌else◌, any_of, arith,
}

pub record Org : Type 0 where
  pub id : String
  pub name : String
  pub plan : String
  pub created_at : String
  pub stripe_customer_id : String

pub record User : Type 0 where
  pub id : String
  pub email : String
  pub created_at : String

pub record Membership : Type 0 where
  pub org_id : String
  pub user_id : String
  pub role : String

pub record ApiKey : Type 0 where
  pub id : String
  pub org_id : String
  pub prefix : String
  pub name : String
  pub role : String
  pub created_at : String
  pub last_used_at : String
  pub revoked_at : String
  pub expires_at : String

-- The rows of `orgs`, `api_keys`, `integration_secrets` and `usage` that hold more than a record.
pub record OrgRow : Type 0 where
  pub org : Org
  pub wrapped_dek : String

pub record KeyRow : Type 0 where
  pub key : ApiKey
  pub secret_hash : String

pub record SecretRow : Type 0 where
  pub org_id : String
  pub name : String
  pub value_encrypted : String
  pub updated_at : String

pub record UsageRow : Type 0 where
  pub id : String
  pub org_id : String
  pub kind : String
  pub amount : ℕ
  pub ts : String
  pub event_key : String
  pub synced : Bool

pub record Store : Type 0 where
  pub orgs : List OrgRow
  pub users : List User
  pub memberships : List Membership
  pub api_keys : List KeyRow
  pub integration_secrets : List SecretRow
  pub usage : List UsageRow

-- A table's rows after `setup`.
abbrev pub empty_store : Store
empty_store = record {
  orgs = [];
  users = [];
  memberships = [];
  api_keys = [];
  integration_secrets = [];
  usage = [];
}

-- The first row that a `SELECT … WHERE` of a unique column returns.
abbrev pub first_where {ℓ} : {A : Type ℓ} → (A → Bool) → List A → Option A
first_where p [] = none
first_where p (x ∷ xs) = if p x then some x else first_where p xs

-- `UPDATE … SET … WHERE`
abbrev pub update_where {ℓ} : {A : Type ℓ} → (A → Bool) → (A → A) → List A → List A
update_where p f [] = []
update_where p f (x ∷ xs) = (if p x then f x else x) ∷ update_where p f xs

pub first_where-last :
    {A : Type 0} (p : A → Bool) (xs : List A) (x : A)
    → any_of p xs ≡ false
    → p x ≡ true
    → first_where p (xs ++ x ∷ []) ≡ some x
first_where-last p [] x h px = rw px refl
first_where-last p (y ∷ ys) x h px = ground (arith, first_where-last p ys x)
