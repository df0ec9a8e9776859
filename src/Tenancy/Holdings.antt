-- ===== src/Tenancy/Holdings.antt =====
-- When a change of one table leaves what the store holds of an organisation as it was.
use dev_ops_copilot.Base.{
  ◌≡◌, ◌≢◌, refl, ap, String, Bool, true, List, [], ◌∷◌, ◌++◌, not, string_eq, keep, arith,
  str_eq_iff,
}
use dev_ops_copilot.Tenancy.{Store, OrgRow, KeyRow, SecretRow, UsageRow, Membership, update_where}
use dev_ops_copilot.Tenancy.Erasure.{holdings, select_rows}

module _ {A : Type 0} (of_row : A → String) (org_id other : String) (ne : other ≢ org_id) where
  -- A row of the organisation that is added.
  pub select-added :
      (rows : List A) (x : A)
      → of_row x ≡ org_id
      → select_rows of_row other (rows ++ x ∷ []) ≡ select_rows of_row other rows
  select-added [] x own = ground (arith, str_eq_iff (of_row x) other)
  select-added (r ∷ rows) x own = ground (arith, select-added rows x own)

  -- Rows of the organisation that go.
  pub select-removed :
      (p : A → Bool)
      → ((x : A) → p x ≡ true → of_row x ≡ org_id)
      → (rows : List A)
      → select_rows of_row other (keep (λ x. not (p x)) rows) ≡ select_rows of_row other rows
  select-removed p own [] = refl
  select-removed p own (r ∷ rows) =
      ground (arith, own r, str_eq_iff (of_row r) other, select-removed p own rows)

  -- Rows of the organisation that change, and stay the organisation's.
  pub select-updated :
      (p : A → Bool) (f : A → A)
      → ((x : A) → p x ≡ true → of_row x ≡ org_id)
      → ((x : A) → of_row (f x) ≡ of_row x)
      → (rows : List A)
      → select_rows of_row other (update_where p f rows) ≡ select_rows of_row other rows
  select-updated p f own same [] = refl
  select-updated p f own same (r ∷ rows) =
      ground (arith, own r, same r, str_eq_iff (of_row r) other, select-updated p f own same rows)

abbrev pub key_org : KeyRow → String
key_org r = r.key.org_id

abbrev pub member_org : Membership → String
member_org r = r.org_id

abbrev pub secret_org : SecretRow → String
secret_org r = r.org_id

abbrev pub row_org : OrgRow → String
row_org r = r.org.id

module _ (other : String) (s : Store) where
  pub same_keys :
      (rows : List KeyRow)
      → select_rows key_org other rows ≡ select_rows key_org other s.api_keys
      → holdings other (record s { api_keys = rows }) ≡ holdings other s
  same_keys rows e =
      ap
        (λ (ks : List KeyRow). (
          select_rows row_org other s.orgs,
          select_rows member_org other s.memberships,
          ks,
          select_rows secret_org other s.integration_secrets,
          select_rows (λ (r : UsageRow). r.org_id) other s.usage,
        ))
        e

  pub same_members :
      (rows : List Membership)
      → select_rows member_org other rows ≡ select_rows member_org other s.memberships
      → holdings other (record s { memberships = rows }) ≡ holdings other s
  same_members rows e =
      ap
        (λ (ms : List Membership). (
          select_rows row_org other s.orgs,
          ms,
          select_rows key_org other s.api_keys,
          select_rows secret_org other s.integration_secrets,
          select_rows (λ (r : UsageRow). r.org_id) other s.usage,
        ))
        e

  pub same_secrets :
      (rows : List SecretRow)
      → select_rows secret_org other rows ≡ select_rows secret_org other s.integration_secrets
      → holdings other (record s { integration_secrets = rows }) ≡ holdings other s
  same_secrets rows e =
      ap
        (λ (xs : List SecretRow). (
          select_rows row_org other s.orgs,
          select_rows member_org other s.memberships,
          select_rows key_org other s.api_keys,
          xs,
          select_rows (λ (r : UsageRow). r.org_id) other s.usage,
        ))
        e

  pub same_orgs :
      (rows : List OrgRow)
      → select_rows row_org other rows ≡ select_rows row_org other s.orgs
      → holdings other (record s { orgs = rows }) ≡ holdings other s
  same_orgs rows e =
      ap
        (λ (os : List OrgRow). (
          os,
          select_rows member_org other s.memberships,
          select_rows key_org other s.api_keys,
          select_rows secret_org other s.integration_secrets,
          select_rows (λ (r : UsageRow). r.org_id) other s.usage,
        ))
        e
