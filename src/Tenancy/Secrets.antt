-- ===== src/Tenancy/Secrets.antt =====
-- The integration secrets of an organisation (app/tenancy/store.py). `none` is an exception of the
-- vault.
pub mod Rotation
use dev_ops_copilot.Base.{
  ℕ, ◌≡◌, refl, String, Bool, true, false, Option, none, some, List, [], ◌∷◌, ◌++◌, ◌&&◌, not,
  any_of, keep, length, ◌==◌, string_eq, eq_refl, arith, ap, subst, Bool-cases, inl, inr,
  if◌then◌else◌,
}
use dev_ops_copilot.Base.Dict.{Dict}
use dev_ops_copilot.Tenancy.{OrgRow, SecretRow, Store, first_where, first_where-last, update_where}
use dev_ops_copilot.Tenancy.Orgs.{has_org_id}
use dev_ops_copilot.Tenancy.Vault.{
  Cipher, encrypt, decrypt, new_wrapped_dek, encrypt_with, decrypt_with, decrypt-encrypt,
  decrypt_with-encrypt_with,
}

abbrev dek_of : Option OrgRow → String
dek_of none = ""
dek_of (some r) = r.wrapped_dek

-- `_wrapped_dek`
unfoldable pub wrapped_dek : String → Store → String
wrapped_dek org_id s = dek_of (first_where (has_org_id org_id) s.orgs)

abbrev pub is_secret : String → String → SecretRow → Bool
is_secret org_id name r = (r.org_id == org_id) && (r.name == name)

unfoldable pub count_integrations : String → Store → ℕ
count_integrations org_id s = length (keep (λ r. r.org_id == org_id) s.integration_secrets)

abbrev pub secret_row : String → String → String → String → SecretRow
secret_row org_id name now token = record {
  org_id = org_id;
  name = name;
  value_encrypted = token;
  updated_at = now;
}

-- `INSERT OR REPLACE`
abbrev pub put_row : String → String → String → String → Store → Store
put_row org_id name now token s = record s {
  integration_secrets =
      keep (λ r. not (is_secret org_id name r)) s.integration_secrets
      ++ secret_row org_id name now token ∷ [];
}

abbrev pub found : Option String → Option (Option String)
found none = none
found (some value) = some (some value)

any_of-removed :
    {A : Type 0} (p : A → Bool) (xs : List A) → any_of p (keep (λ x. not (p x)) xs) ≡ false
any_of-removed p [] = refl
any_of-removed p (x ∷ xs) = ground (arith, any_of-removed p xs)

module _ (c : Cipher) (kek : String) where
  -- `_enc` and `_dec`
  unfoldable pub enc : String → String → Option String
  enc dek value = if dek == "" then some (encrypt c kek value) else encrypt_with c kek dek value

  unfoldable pub dec : String → String → Option String
  dec dek token = if dek == "" then decrypt c kek token else decrypt_with c kek dek token

  abbrev pub put_secret : String → String → String → Option String → Store → Option Store
  put_secret org_id name now none s = none
  put_secret org_id name now (some token) s = some (put_row org_id name now token s)

  unfoldable pub set_integration_secret : String → String → String → String → Store → Option Store
  set_integration_secret org_id name value now s =
      put_secret org_id name now (enc (wrapped_dek org_id s) value) s

  abbrev pub open_secret : String → Option SecretRow → Option (Option String)
  open_secret dek none = some none
  open_secret dek (some r) = found (dec dek r.value_encrypted)

  unfoldable pub get_integration_secret : String → String → Store → Option (Option String)
  get_integration_secret org_id name s =
      open_secret (wrapped_dek org_id s) (first_where (is_secret org_id name) s.integration_secrets)

  abbrev pub add_secret :
      String → Option String → Option (Dict String String) → Option (Dict String String)
  add_secret name none rest = none
  add_secret name (some value) none = none
  add_secret name (some value) (some rest) = some ((name, value) ∷ rest)

  abbrev pub decrypt_rows : String → List SecretRow → Option (Dict String String)
  decrypt_rows dek [] = some []
  decrypt_rows dek (r ∷ rows) =
      add_secret r.name (dec dek r.value_encrypted) (decrypt_rows dek rows)

  unfoldable pub get_integration_secrets : String → Store → Option (Dict String String)
  get_integration_secrets org_id s =
      decrypt_rows (wrapped_dek org_id s) (keep (λ r. r.org_id == org_id) s.integration_secrets)

  abbrev pub set_token : String → String → String → List SecretRow → List SecretRow
  set_token org_id name token rows =
      update_where (is_secret org_id name) (λ r. record r { value_encrypted = token }) rows

  -- The loop of updates of `rotate_org_dek`.
  abbrev pub reencrypt_all :
      String → String → Dict String String → List SecretRow → Option (List SecretRow)
  reencrypt_all org_id new_wrapped [] rows = some rows
  reencrypt_all org_id new_wrapped ((name, value) ∷ secrets) rows =
      elim (encrypt_with c kek new_wrapped value) [
        | none ↦ none
        | some token ↦ reencrypt_all org_id new_wrapped secrets (set_token org_id name token rows)
      ]

  abbrev pub swap_dek : String → String → Option (List SecretRow) → Store → Option (Store × Bool)
  swap_dek org_id new_wrapped none s = none
  swap_dek org_id new_wrapped (some rows) s = some (
    record s {
      orgs = update_where (has_org_id org_id) (λ r. record r { wrapped_dek = new_wrapped }) s.orgs;
      integration_secrets = rows;
    },
    true,
  )

  -- `rotate_org_dek`, with the key that is generated.
  unfoldable pub rotate_org_dek : String → String → Store → Option (Store × Bool)
  rotate_org_dek org_id dek s =
      if wrapped_dek org_id s == ""
      then some (s, false)
      else elim (get_integration_secrets org_id s) [
        | none ↦ none
        | some secrets ↦
            swap_dek org_id (new_wrapped_dek c kek dek)
              (reencrypt_all org_id (new_wrapped_dek c kek dek) secrets s.integration_secrets) s
      ]

  dec-enc : (dek value token : String) → enc dek value ≡ some token → dec dek token ≡ some value
  unfolding enc dec
  dec-enc dek value token h = elim (Bool-cases (dek == "")) [
    | inl plain ↦
        rw plain
          (subst (λ t. decrypt c kek t ≡ some value) (ground arith) (decrypt-encrypt c kek value))
    | inr keyed ↦ rw keyed (decrypt_with-encrypt_with c kek dek value token (ground arith))
  ]

  get-put :
      (org_id name value token now : String) (s : Store)
      → dec (wrapped_dek org_id s) token ≡ some value
      → get_integration_secret org_id name (put_row org_id name now token s) ≡ some (some value)
  unfolding get_integration_secret wrapped_dek
  get-put org_id name value token now s d =
      rw
        (first_where-last (is_secret org_id name)
          (keep (λ r. not (is_secret org_id name r)) s.integration_secrets)
          (secret_row org_id name now token)
          (any_of-removed (is_secret org_id name) s.integration_secrets)
          (ground (arith, eq_refl org_id, eq_refl name)))
        (ap found d)

  -- A secret that was stored is read back as it was, under the organisation's own key where it has
  -- one and under the vault's otherwise, whatever was stored under its name before.
  pub get_integration_secret-set :
      (org_id name value now : String) (s s' : Store)
      → set_integration_secret org_id name value now s ≡ some s'
      → get_integration_secret org_id name s' ≡ some (some value)
  unfolding set_integration_secret
  get_integration_secret-set org_id name value now s s' h =
      go (enc (wrapped_dek org_id s) value) refl h
    where
      go :
          (o : Option String)
          → enc (wrapped_dek org_id s) value ≡ o
          → put_secret org_id name now o s ≡ some s'
          → get_integration_secret org_id name s' ≡ some (some value)
      go none e k = absurd (ground arith)
      go (some token) e k =
          subst (λ t. get_integration_secret org_id name t ≡ some (some value)) (ground arith)
            (get-put org_id name value token now s (dec-enc (wrapped_dek org_id s) value token e))
