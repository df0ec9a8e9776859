-- ===== src/Tenancy/Secrets/Rotation.antt =====
-- The rotation of an organisation's key (app/tenancy/store.py: rotate_org_dek).
use mathlib.Core.Option.{some-injective}
use dev_ops_copilot.Base.{
  ◌≡◌, ◌≢◌, refl, ap, sym, ◌∙◌, String, true, false, Option, none, some, List, [], ◌∷◌, map, keep,
  ◌==◌, string_eq, str_eq_iff, eq_refl, arith, Bool-cases, inl, inr, subst, if◌then◌else◌,
}
use dev_ops_copilot.Base.Dict.{Dict}
use dev_ops_copilot.Tenancy.{OrgRow, SecretRow, Store, first_where, update_where}
use dev_ops_copilot.Tenancy.Orgs.{has_org_id}
use dev_ops_copilot.Tenancy.Vault.{
  Cipher, new_wrapped_dek, encrypt_with, encrypt, decrypt, decrypt_with-encrypt_with,
}
use dev_ops_copilot.Tenancy.Secrets.{
  dek_of, wrapped_dek, is_secret, dec, decrypt_rows, add_secret, get_integration_secrets, set_token,
  reencrypt_all, rotate_org_dek,
}

-- No two secrets of an organisation have one name: the table's primary key.
abbrev pub NodupNames : List SecretRow → Type 0
NodupNames [] = Unit
NodupNames (r ∷ rows) = (first_where (λ q. q.name == r.name) rows ≡ none) × NodupNames rows

module _ (c : Cipher) (kek dek org_id : String) where
  -- What the updates of a rotation leave of one row.
  abbrev retoken : Dict String String → SecretRow → SecretRow
  retoken [] r = r
  retoken ((name, value) ∷ secrets) r =
      retoken secrets
        (if is_secret org_id name r then record r { value_encrypted = c.seal dek value } else r)

  abbrev pub fresh_dek : String
  fresh_dek = new_wrapped_dek c kek dek

  sealed : (value : String) → encrypt_with c kek fresh_dek value ≡ some (c.seal dek value)
  unfolding encrypt_with new_wrapped_dek encrypt decrypt
  sealed value = rw (c.unseal-seal kek dek) refl

  opened_again :
      fresh_dek ≢ "" → (value : String) → dec c kek fresh_dek (c.seal dek value) ≡ some value
  unfolding dec
  opened_again ne value =
      rw (differs fresh_dek ne)
        (decrypt_with-encrypt_with c kek fresh_dek value (c.seal dek value) (sealed value))
    where
      differs : (s : String) → s ≢ "" → (s == "") ≡ false
      differs s ne = ground (arith, str_eq_iff s "")

  map-update :
      (name value : String) (secrets : Dict String String) (rows : List SecretRow)
      → map (retoken secrets) (set_token c kek org_id name (c.seal dek value) rows)
        ≡ map (retoken ((name, value) ∷ secrets)) rows
  map-update name value secrets [] = refl
  map-update name value secrets (r ∷ rows) =
      ap (◌∷◌ (retoken ((name, value) ∷ secrets) r)) (map-update name value secrets rows)

  map-retoken_nil : (rows : List SecretRow) → map (retoken []) rows ≡ rows
  map-retoken_nil [] = refl
  map-retoken_nil (r ∷ rows) = ap (◌∷◌ r) (map-retoken_nil rows)

  reencrypt_all-map :
      (secrets : Dict String String) (rows : List SecretRow)
      → reencrypt_all c kek org_id fresh_dek secrets rows ≡ some (map (retoken secrets) rows)
  reencrypt_all-map [] rows = ap some (sym (map-retoken_nil rows))
  reencrypt_all-map ((name, value) ∷ secrets) rows =
      rw (sealed value, reencrypt_all)
        (reencrypt_all-map secrets (set_token c kek org_id name (c.seal dek value) rows)
          ∙ ap some (map-update name value secrets rows))

  org_id-retoken :
      (secrets : Dict String String) (r : SecretRow) → (retoken secrets r).org_id ≡ r.org_id
  org_id-retoken [] r = refl
  org_id-retoken ((name, value) ∷ secrets) r = elim (Bool-cases (is_secret org_id name r)) [
    | inl own ↦
        rw (own, retoken) (org_id-retoken secrets (record r { value_encrypted = c.seal dek value }))
    | inr other ↦ rw (other, retoken) (org_id-retoken secrets r)
  ]

  keep-retoken :
      (secrets : Dict String String) (rows : List SecretRow)
      → keep (λ q. q.org_id == org_id) (map (retoken secrets) rows)
        ≡ map (retoken secrets) (keep (λ q. q.org_id == org_id) rows)
  keep-retoken secrets [] = refl
  keep-retoken secrets (r ∷ rows) =
      rw (org_id-retoken secrets r) (elim (Bool-cases (r.org_id == org_id)) [
        | inl own ↦ rw own (ap (◌∷◌ (retoken secrets r)) (keep-retoken secrets rows))
        | inr other ↦ rw other (keep-retoken secrets rows)
      ])

  -- The rows' secrets, as far as one row and the others.
  abbrev Split : String → Option String → Option (Dict String String) → Dict String String → Type 0
  Split name value rest secrets =
      (v : String) × (ds : Dict String String) × (value ≡ some v)
      × (rest ≡ some ds)
      × ((name, v) ∷ ds ≡ secrets)

  add_secret-Split :
      (name : String) (value : Option String) (rest : Option (Dict String String))
      (secrets : Dict String String)
      → add_secret c kek name value rest ≡ some secrets
      → Split name value rest secrets
  add_secret-Split name none rest secrets h = absurd (ground arith)
  add_secret-Split name (some v) none secrets h = absurd (ground arith)
  add_secret-Split name (some v) (some ds) secrets h = (v, ds, refl, refl, some-injective _ _ h)

  retoken-absent :
      (old : String) (rows : List SecretRow) (secrets : Dict String String) (r : SecretRow)
      → decrypt_rows c kek old rows ≡ some secrets
      → first_where (λ q. q.name == r.name) rows ≡ none
      → retoken secrets r ≡ r
  retoken-absent old [] secrets r h absent =
      subst (λ ds. retoken ds r ≡ r) (some-injective _ _ h) refl
  retoken-absent old (q ∷ rows) secrets r h absent =
      let (v, ds, here, later, split) = add_secret-Split q.name _ _ secrets h in
      subst (λ xs. retoken xs r ≡ r) split
        (rw (not_named q.name absent_here, retoken)
          (retoken-absent old rows ds r later absent_later))
    where
      absent_here : (q.name == r.name) ≡ false
      absent_here = ground arith

      absent_later : first_where (λ x. x.name == r.name) rows ≡ none
      absent_later = ground arith

      not_named : (n : String) → (n == r.name) ≡ false → is_secret org_id n r ≡ false
      not_named n h = ground (arith, str_eq_iff n r.name, str_eq_iff r.name n)

  map-skip :
      (name value : String) (secrets : Dict String String) (rows : List SecretRow)
      → first_where (λ q. q.name == name) rows ≡ none
      → map (retoken ((name, value) ∷ secrets)) rows ≡ map (retoken secrets) rows
  map-skip name value secrets [] h = refl
  map-skip name value secrets (q ∷ rows) h = elim (Bool-cases (is_secret org_id name q)) [
    | inl own ↦ absurd (ground arith)
    | inr other ↦
        rw other (ap (◌∷◌ (retoken secrets q)) (map-skip name value secrets rows (ground arith)))
  ]

  AllOwn : List SecretRow → Type 0
  AllOwn [] = Unit
  AllOwn (r ∷ rows) = ((r.org_id == org_id) ≡ true) × AllOwn rows

  keep-AllOwn : (rows : List SecretRow) → AllOwn (keep (λ q. q.org_id == org_id) rows)
  unfolding AllOwn
  keep-AllOwn [] = tt
  keep-AllOwn (r ∷ rows) = elim (Bool-cases (r.org_id == org_id)) [
    | inl own ↦ rw own (own, keep-AllOwn rows)
    | inr other ↦ rw other (keep-AllOwn rows)
  ]

  decrypt_rows-retoken :
      (old : String) (rows : List SecretRow) (secrets : Dict String String)
      → fresh_dek ≢ ""
      → AllOwn rows
      → NodupNames rows
      → decrypt_rows c kek old rows ≡ some secrets
      → decrypt_rows c kek fresh_dek (map (retoken secrets) rows) ≡ some secrets
  unfolding AllOwn
  decrypt_rows-retoken old [] secrets ne own u h = h
  decrypt_rows-retoken old (r ∷ rows) secrets ne (own_here, own) (fresh, u) h =
      let (v, ds, here, later, split) = add_secret-Split r.name _ _ secrets h in
      subst (λ xs. decrypt_rows c kek fresh_dek (map (retoken xs) (r ∷ rows)) ≡ some xs) split
        (one v ds later (decrypt_rows-retoken old rows ds ne own u later))
    where
      one :
          (v : String) (ds : Dict String String)
          → decrypt_rows c kek old rows ≡ some ds
          → decrypt_rows c kek fresh_dek (map (retoken ds) rows) ≡ some ds
          → decrypt_rows c kek fresh_dek (map (retoken ((r.name, v) ∷ ds)) (r ∷ rows))
            ≡ some ((r.name, v) ∷ ds)
      one v ds later ih =
          rw (map-skip r.name v ds rows fresh, own_here, eq_refl r.name, retoken)
            (rw
              (
                retoken-absent old rows ds (record r { value_encrypted = c.seal dek v }) later
                    fresh,
                opened_again ne v,
                ih,
              )
              refl)

  abbrev with_dek : OrgRow → OrgRow
  with_dek r = record r { wrapped_dek = fresh_dek }

  updated_dek :
      (orgs : List OrgRow)
      → dek_of (first_where (has_org_id org_id) orgs) ≢ ""
      → dek_of (first_where (has_org_id org_id) (update_where (has_org_id org_id) with_dek orgs))
        ≡ fresh_dek
  updated_dek [] h = absurd (h refl)
  updated_dek (r ∷ orgs) h = elim (Bool-cases (has_org_id org_id r)) [
    | inl own ↦ rw (own, own) refl
    | inr other ↦ rw (other, other) (updated_dek orgs (rw other at h))
  ]

  abbrev rotated : Dict String String → Store → Store
  rotated secrets s = record s {
    orgs = update_where (has_org_id org_id) with_dek s.orgs;
    integration_secrets = map (retoken secrets) s.integration_secrets;
  }

  rotated-dek :
      (secrets : Dict String String) (s : Store)
      → wrapped_dek org_id s ≢ ""
      → wrapped_dek org_id (rotated secrets s) ≡ fresh_dek
  unfolding wrapped_dek
  rotated-dek secrets s had = updated_dek s.orgs had

  rotated-rows :
      (secrets : Dict String String) (s : Store)
      → fresh_dek ≢ ""
      → wrapped_dek org_id s ≢ ""
      → NodupNames (keep (λ q. q.org_id == org_id) s.integration_secrets)
      → get_integration_secrets c kek org_id s ≡ some secrets
      → get_integration_secrets c kek org_id (rotated secrets s) ≡ some secrets
  unfolding get_integration_secrets wrapped_dek
  rotated-rows secrets s ne had u h =
      rw (updated_dek s.orgs had, keep-retoken secrets s.integration_secrets)
        (decrypt_rows-retoken _ (keep (λ q. q.org_id == org_id) s.integration_secrets) secrets ne
          (keep-AllOwn s.integration_secrets) u h)

  -- Where an organisation has a key of its own and all its secrets can be read, rotating the key
  -- succeeds, and every secret reads as before, under the new key.
  pub rotate_org_dek-keeps :
      (secrets : Dict String String) (s : Store)
      → fresh_dek ≢ ""
      → wrapped_dek org_id s ≢ ""
      → NodupNames (keep (λ q. q.org_id == org_id) s.integration_secrets)
      → get_integration_secrets c kek org_id s ≡ some secrets
      → (s' : Store) × (rotate_org_dek c kek org_id dek s ≡ some (s', true))
        × (wrapped_dek org_id s' ≡ fresh_dek)
        × (get_integration_secrets c kek org_id s' ≡ some secrets)
  unfolding rotate_org_dek
  rotate_org_dek-keeps secrets s ne had u h = (
    rotated secrets s,
    rw (differs (wrapped_dek org_id s) had, h, reencrypt_all-map secrets s.integration_secrets)
        refl,
    rotated-dek secrets s had,
    rotated-rows secrets s ne had u h,
  )
    where
      differs : (t : String) → t ≢ "" → (t == "") ≡ false
      differs t ne = ground (arith, str_eq_iff t "")
