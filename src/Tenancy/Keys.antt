-- ===== src/Tenancy/Keys.antt =====
-- API keys (app/tenancy/store.py: issue_api_key, resolve_api_key, revoke_api_key). `sha256` is the
-- digest in hexadecimal; the random prefix and secret and the times are arguments.
pub mod Laws
use dev_ops_copilot.Base.{
  ℕ, ◌≡◌, refl, ◌<>◌, String, Bool, true, false, Option, none, some, List, [], ◌∷◌, ◌++◌, ◌&&◌,
  ◌||◌, not, any_of, keep, length, map, ◌==◌, string_eq, eqb, ltb, if◌then◌else◌,
}
use dev_ops_copilot.Base.Case.{le_str}
use dev_ops_copilot.Tenancy.{Org, ApiKey, KeyRow, Store, first_where, update_where}
use dev_ops_copilot.Tenancy.Roles.{normalize_role}
use dev_ops_copilot.Tenancy.Orgs.{get_org}
use Prim.Native.Char.{Char, code}

abbrev pub is_underscore : Char → Bool
is_underscore c = eqb (code c) 95

abbrev pub add_char : Char → List String → List String
add_char c [] = []
add_char c (w ∷ ws) = String.◌∷◌ c w ∷ ws

-- `text.split("_")`
unfoldable pub split_underscores : String → List String
split_underscores String.[] = String.[] ∷ []
split_underscores (String.◌∷◌ c s) =
    let rest = split_underscores s in if is_underscore c then String.[] ∷ rest else add_char c rest

abbrev pub key_text : String → String → String
key_text prefix raw = "dcp" <> ("_" <> (prefix <> ("_" <> raw)))

-- The prefix and the secret of a presented key.
abbrev pub key_parts : List String → Option (String × String)
key_parts (scheme ∷ prefix ∷ raw ∷ []) = if scheme == "dcp" then some (prefix, raw) else none
key_parts _ = none

unfoldable pub parse_key : String → Option (String × String)
unfolding split_underscores
parse_key plaintext = key_parts (split_underscores plaintext)

abbrev pub has_prefix : String → KeyRow → Bool
has_prefix prefix r = r.key.prefix == prefix

-- Neither revoked nor expired at `now`.
abbrev pub live : String → KeyRow → Bool
live now r =
    (r.key.revoked_at == "") && ((r.key.expires_at == "") || not (le_str r.key.expires_at now))

module _ (sha256 : String → String) where
  -- `ttl_days` above zero gives the key the time `later` to expire at.
  unfoldable pub issue_api_key :
      String
      → String
      → String
      → String
      → String
      → ℕ
      → String
      → String
      → String
      → Store
      → Option (Store × (String × ApiKey))
  issue_api_key id prefix raw now later ttl_days org_id name role s =
      let key : ApiKey = record {
        id = id;
        org_id = org_id;
        prefix = prefix;
        name = name;
        role = normalize_role role;
        created_at = now;
        last_used_at = "";
        revoked_at = "";
        expires_at = (if ltb 0 ttl_days then later else "");
      } in
      let row : KeyRow = record { key = key; secret_hash = sha256 raw } in
      if any_of (λ r. (r.key.id == id) || (r.key.prefix == prefix)) s.api_keys
      then none
      else some (record s { api_keys = s.api_keys ++ row ∷ [] }, (key_text prefix raw, key))

  -- A row that the presented secret fits and that is neither revoked nor expired.
  abbrev pub checked : String → String → Option KeyRow → Option KeyRow
  checked now raw none = none
  checked now raw (some r) = if (r.secret_hash == sha256 raw) && live now r then some r else none

  abbrev pub row_of : String → Store → Option (String × String) → Option KeyRow
  row_of now s none = none
  row_of now s (some (prefix, raw)) = checked now raw (first_where (has_prefix prefix) s.api_keys)

  -- The row that a presented key opens.
  unfoldable pub usable_row : String → String → Store → Option KeyRow
  usable_row now plaintext s = row_of now s (parse_key plaintext)

  abbrev pub touch : String → ApiKey → Store → Store
  touch now key s = record s {
    api_keys =
        update_where (λ r. r.key.id == key.id)
          (λ r. record r { key = record r.key { last_used_at = now } }) s.api_keys;
  }

  -- The organisation of the row and the key's record.
  abbrev pub opened : String → KeyRow → Option Org → Option (Org × ApiKey)
  opened now r none = none
  opened now r (some org) = some (org, record r.key { last_used_at = now })

  abbrev pub resolved : String → Store → Option KeyRow → Store × Option (Org × ApiKey)
  resolved now s none = (s, none)
  resolved now s (some r) = (touch now r.key s, opened now r (get_org r.key.org_id s))

  unfoldable pub resolve_api_key : String → String → Store → Store × Option (Org × ApiKey)
  resolve_api_key now plaintext s = resolved now s (usable_row now plaintext s)

-- The rows that a revocation changes; an empty `org_id` is no restriction.
abbrev pub revocable : String → String → KeyRow → Bool
revocable key_id org_id r =
    (r.key.id == key_id) && (r.key.revoked_at == "") && ((org_id == "") || (r.key.org_id == org_id))

unfoldable pub revoke_api_key : String → String → String → Store → Store × Bool
revoke_api_key now key_id org_id s = (
  record s {
    api_keys =
        update_where (revocable key_id org_id)
          (λ r. record r { key = record r.key { revoked_at = now } }) s.api_keys;
  },
  any_of (revocable key_id org_id) s.api_keys,
)

-- Sorting by creation time, the latest first.
abbrev insert_newest : ApiKey → List ApiKey → List ApiKey
insert_newest k [] = k ∷ []
insert_newest k (j ∷ js) =
    let later = insert_newest k js in
    if le_str j.created_at k.created_at then k ∷ j ∷ js else j ∷ later

abbrev newest_first : List ApiKey → List ApiKey
newest_first [] = []
newest_first (k ∷ ks) = insert_newest k (newest_first ks)

-- The records that the query returns have no expiry.
unfoldable pub list_api_keys : String → Store → List ApiKey
list_api_keys org_id s =
    newest_first
      (map (λ r. record r.key { expires_at = "" }) (keep (λ r. r.key.org_id == org_id) s.api_keys))

unfoldable pub count_active_api_keys : String → Store → ℕ
count_active_api_keys org_id s =
    length (keep (λ r. (r.key.org_id == org_id) && (r.key.revoked_at == "")) s.api_keys)
