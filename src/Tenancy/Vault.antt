-- ===== src/Tenancy/Vault.antt =====
-- The secret vault (app/secrets_vault.py) over a symmetric cipher, which is the `cryptography`
-- package's Fernet. `none` is an `InvalidToken` or a malformed key.
use dev_ops_copilot.Base.{◌≡◌, String, Option, none, some, subst, arith}

-- A cipher: encryption and decryption under a key, the first undone by the second.
pub record Cipher : Type 0 where
  pub seal : String → String → String
  pub unseal : String → String → Option String
  pub unseal-seal : (key plaintext : String) → unseal key (seal key plaintext) ≡ some plaintext

module _ (c : Cipher) (kek : String) where
  unfoldable pub encrypt : String → String
  encrypt plaintext = c.seal kek plaintext

  unfoldable pub decrypt : String → Option String
  decrypt token = c.unseal kek token

  -- With the key that is generated.
  unfoldable pub new_wrapped_dek : String → String
  unfolding encrypt
  new_wrapped_dek dek = encrypt dek

  abbrev seal_under : Option String → String → Option String
  seal_under none plaintext = none
  seal_under (some dek) plaintext = some (c.seal dek plaintext)

  abbrev unseal_under : Option String → String → Option String
  unseal_under none token = none
  unseal_under (some dek) token = c.unseal dek token

  unfoldable pub encrypt_with : String → String → Option String
  encrypt_with wrapped_dek plaintext = seal_under (decrypt wrapped_dek) plaintext

  unfoldable pub decrypt_with : String → String → Option String
  decrypt_with wrapped_dek token = unseal_under (decrypt wrapped_dek) token

  unseal_under-seal_under :
      (o : Option String) (plaintext token : String)
      → seal_under o plaintext ≡ some token
      → unseal_under o token ≡ some plaintext
  unseal_under-seal_under none plaintext token h = absurd (ground arith)
  unseal_under-seal_under (some dek) plaintext token h =
      subst (λ t. c.unseal dek t ≡ some plaintext) (ground arith) (c.unseal-seal dek plaintext)

  pub decrypt_with-encrypt_with :
      (wrapped_dek plaintext token : String)
      → encrypt_with wrapped_dek plaintext ≡ some token
      → decrypt_with wrapped_dek token ≡ some plaintext
  unfolding encrypt_with decrypt_with
  decrypt_with-encrypt_with wrapped_dek plaintext token h =
      unseal_under-seal_under (decrypt wrapped_dek) plaintext token h

  pub decrypt-encrypt : (plaintext : String) → decrypt (encrypt plaintext) ≡ some plaintext
  unfolding encrypt decrypt
  decrypt-encrypt plaintext = c.unseal-seal kek plaintext
