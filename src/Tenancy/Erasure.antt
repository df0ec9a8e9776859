-- ===== src/Tenancy/Erasure.antt =====
-- Erasing an organisation (app/tenancy/store.py: crypto_shred_org, delete_org; app/governance.py).
use dev_ops_copilot.Base.{
  ◌≡◌, ◌≢◌, refl, String, Bool, true, false, List, [], ◌∷◌, not, any_of, keep, ◌==◌, string_eq,
  str_eq_iff, arith, Bool-cases, inl, inr, if◌then◌else◌,
}
use dev_ops_copilot.Tenancy.{OrgRow, Membership, KeyRow, SecretRow, UsageRow, Store, update_where}
use dev_ops_copilot.Tenancy.Orgs.{has_org_id}

-- `DELETE … WHERE org_id=?`, for a table whose rows' organisation `of_row` reads.
abbrev pub delete_rows : {A : Type 0} → (A → String) → String → List A → List A
delete_rows of_row org_id rows = keep (λ r. not (of_row r == org_id)) rows

unfoldable pub crypto_shred_org : String → Store → Store × Bool
crypto_shred_org org_id s =
    if any_of (has_org_id org_id) s.orgs
    then (
      record s {
        integration_secrets =
            delete_rows (λ (r : SecretRow). r.org_id) org_id s.integration_secrets;
        orgs = update_where (has_org_id org_id) (λ r. record r { wrapped_dek = "" }) s.orgs;
      },
      true,
    )
    else (s, false)

unfoldable pub delete_org : String → Store → Store × Bool
delete_org org_id s =
    if any_of (has_org_id org_id) s.orgs
    then (
      record s {
        memberships = delete_rows (λ (r : Membership). r.org_id) org_id s.memberships;
        api_keys = delete_rows (λ (r : KeyRow). r.key.org_id) org_id s.api_keys;
        integration_secrets =
            delete_rows (λ (r : SecretRow). r.org_id) org_id s.integration_secrets;
        usage = delete_rows (λ (r : UsageRow). r.org_id) org_id s.usage;
        orgs = delete_rows (λ (r : OrgRow). r.org.id) org_id s.orgs;
      },
      true,
    )
    else (s, false)

unfoldable pub gdpr_delete_org : String → Store → Store × Bool
unfolding crypto_shred_org delete_org
gdpr_delete_org org_id s = delete_org org_id (crypto_shred_org org_id s).0

abbrev pub select_rows : {A : Type 0} → (A → String) → String → List A → List A
select_rows of_row org_id rows = keep (λ r. of_row r == org_id) rows

-- Everything that the store holds of an organisation.
abbrev pub Holdings : Type 0
Holdings = List OrgRow × List Membership × List KeyRow × List SecretRow × List UsageRow

abbrev pub holdings : String → Store → Holdings
holdings org_id s = (
  select_rows (λ (r : OrgRow). r.org.id) org_id s.orgs,
  select_rows (λ (r : Membership). r.org_id) org_id s.memberships,
  select_rows (λ (r : KeyRow). r.key.org_id) org_id s.api_keys,
  select_rows (λ (r : SecretRow). r.org_id) org_id s.integration_secrets,
  select_rows (λ (r : UsageRow). r.org_id) org_id s.usage,
)

select-deleted :
    {A : Type 0} (of_row : A → String) (org_id : String) (rows : List A)
    → select_rows of_row org_id (delete_rows of_row org_id rows) ≡ []
select-deleted of_row org_id [] = refl
select-deleted of_row org_id (r ∷ rows) = ground (arith, select-deleted of_row org_id rows)

select-kept :
    {A : Type 0} (of_row : A → String) (org_id other : String) (rows : List A)
    → other ≢ org_id
    → select_rows of_row other (delete_rows of_row org_id rows) ≡ select_rows of_row other rows
select-kept of_row org_id other [] ne = refl
select-kept of_row org_id other (r ∷ rows) ne = ground (
  arith,
  str_eq_iff (of_row r) org_id,
  str_eq_iff (of_row r) other,
  select-kept of_row org_id other rows ne,
)

shredded_org :
    (org_id : String) (rows : List OrgRow)
    → any_of
        (has_org_id org_id)
        (update_where (has_org_id org_id) (λ r. record r { wrapped_dek = "" }) rows)
      ≡ any_of (has_org_id org_id) rows
shredded_org org_id [] = refl
shredded_org org_id (r ∷ rows) = ground (arith, shredded_org org_id rows)

shredded_others :
    (org_id other : String) (rows : List OrgRow)
    → other ≢ org_id
    → select_rows
        (λ (r : OrgRow). r.org.id)
        other
        (update_where (has_org_id org_id) (λ r. record r { wrapped_dek = "" }) rows)
      ≡ select_rows (λ (r : OrgRow). r.org.id) other rows
shredded_others org_id other [] ne = refl
shredded_others org_id other (r ∷ rows) ne = ground (
  arith,
  str_eq_iff r.org.id org_id,
  str_eq_iff r.org.id other,
  shredded_others org_id other rows ne,
)

-- Erasing an organisation that exists reports so and leaves no row of it in any table: no key, no
-- member, no secret, no usage.
pub gdpr_delete_org-erases :
    (org_id : String) (s : Store)
    → any_of (has_org_id org_id) s.orgs ≡ true
    → ((gdpr_delete_org org_id s).1 ≡ true)
      × (holdings org_id (gdpr_delete_org org_id s).0 ≡ ([], [], [], [], []))
unfolding gdpr_delete_org
gdpr_delete_org-erases org_id s there =
    rw (there, shredded_org org_id s.orgs, there)
      (rw
        (
          select-deleted (λ (r : OrgRow). r.org.id) org_id,
          select-deleted (λ (r : Membership). r.org_id) org_id,
          select-deleted (λ (r : KeyRow). r.key.org_id) org_id,
          select-deleted (λ (r : SecretRow). r.org_id) org_id,
          select-deleted (λ (r : UsageRow). r.org_id) org_id,
        )
        (refl, refl))

-- Erasing one organisation leaves everything that the store holds of any other as it was.
pub gdpr_delete_org-isolates :
    (org_id other : String) (s : Store)
    → other ≢ org_id
    → holdings other (gdpr_delete_org org_id s).0 ≡ holdings other s
unfolding gdpr_delete_org
gdpr_delete_org-isolates org_id other s ne = elim (Bool-cases (any_of (has_org_id org_id) s.orgs)) [
  | inl there ↦
      rw (there, shredded_org org_id s.orgs, there)
        (rw
          (
            select-kept (λ (r : OrgRow). r.org.id) org_id other _ ne,
            shredded_others org_id other s.orgs ne,
            select-kept (λ (r : Membership). r.org_id) org_id other _ ne,
            select-kept (λ (r : KeyRow). r.key.org_id) org_id other _ ne,
            select-kept (λ (r : SecretRow). r.org_id) org_id other _ ne,
            select-kept (λ (r : UsageRow). r.org_id) org_id other _ ne,
          )
          (rw (select-kept (λ (r : SecretRow). r.org_id) org_id other s.integration_secrets ne)
            refl))
  | inr absent ↦ rw (absent, absent) refl
]
