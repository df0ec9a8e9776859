-- ===== src/Tenancy/Keys/Laws.antt =====
-- The laws of the API keys (app/tenancy/store.py).
use text.Mathlib.TextLemmas.{cons-append, nil-append}
use dev_ops_copilot.Base.{
  ℕ, ◌≡◌, ◌≢◌, refl, sym, ap, ◌∙◌, ◌<>◌, String, Bool, true, false, Option, none, some, List, [],
  ◌∷◌, ◌++◌, ◌&&◌, ◌||◌, not, any_of, keep, All, ◌==◌, string_eq, str_eq_iff, eq_refl, arith, ltb,
  Bool-cases, inl, inr, if◌then◌else◌, subst, ◌⊎◌,
}
use dev_ops_copilot.Base.Case.{le_str}
use dev_ops_copilot.Tenancy.{
  Org, ApiKey, KeyRow, Store, first_where, first_where-last, update_where,
}
use dev_ops_copilot.Tenancy.Orgs.{get_org}
use dev_ops_copilot.Tenancy.Keys.{
  is_underscore, split_underscores, key_text, key_parts, parse_key, has_prefix, live, issue_api_key,
  usable_row, resolve_api_key, revocable, revoke_api_key, resolved, row_of, checked, opened,
}
use Prim.Native.Char.{Char, code}

-- What a presented key opens: the row with its prefix, whose stored digest is its secret's, and
-- which is neither revoked nor expired.
abbrev pub Opens : (String → String) → String → String → Store → KeyRow → Type 0
Opens sha256 now plaintext s r =
    (prefix : String) × (raw : String) × (parse_key plaintext ≡ some (prefix, raw))
    × (first_where (has_prefix prefix) s.api_keys ≡ some r)
    × (r.secret_hash ≡ sha256 raw)
    × (r.key.revoked_at ≡ "")
    × ((r.key.expires_at ≡ "") ⊎ (le_str r.key.expires_at now ≡ false))

live_lem :
    (now : String) (r : KeyRow)
    → live now r ≡ true
    → (r.key.revoked_at ≡ "") × ((r.key.expires_at ≡ "") ⊎ (le_str r.key.expires_at now ≡ false))
live_lem now r h = ground (arith, str_eq_iff r.key.revoked_at "", str_eq_iff r.key.expires_at "")

first_where-All :
    {A : Type 0} (P : A → Type 0) (p : A → Bool) (xs : List A) (x : A)
    → All P xs
    → first_where p xs ≡ some x
    → P x
first_where-All P p [] x all h = absurd (ground arith)
first_where-All P p (y ∷ ys) x (py, all) h = elim (Bool-cases (p y)) [
  | inl here ↦ subst P (ground arith) py
  | inr there ↦ first_where-All P p ys x all (ground arith)
]

live_is_revocable :
    (key_id org_id : String) (r : KeyRow)
    → r.key.revoked_at ≡ ""
    → r.key.id ≡ key_id
    → ((org_id ≡ "") ⊎ (r.key.org_id ≡ org_id))
    → revocable key_id org_id r ≡ true
live_is_revocable key_id org_id r alive same scope = ground (
  arith,
  str_eq_iff r.key.id key_id,
  str_eq_iff r.key.revoked_at "",
  str_eq_iff org_id "",
  str_eq_iff r.key.org_id org_id,
)

module _ (sha256 : String → String) where
  checked-eq :
      (now raw : String) (o : Option KeyRow) (r : KeyRow)
      → checked sha256 now raw o ≡ some r
      → (o ≡ some r) × (r.secret_hash ≡ sha256 raw) × (live now r ≡ true)
  checked-eq now raw none r h = absurd (ground arith)
  checked-eq now raw (some q) r h =
      elim (Bool-cases ((q.secret_hash == sha256 raw) && live now q)) [
        | inl fits ↦
            subst
              (λ (x : KeyRow).
                (some q ≡ some x) × (x.secret_hash ≡ sha256 raw) × (live now x ≡ true))
              (same_row fits)
              (refl, (str_eq_iff q.secret_hash (sha256 raw)).0 (ground arith), ground arith)
        | inr not_fits ↦ absurd (ground arith)
      ]
    where
      same_row : ((q.secret_hash == sha256 raw) && live now q) ≡ true → q ≡ r
      same_row fits = ground arith

  row_of-Opens :
      (now plaintext : String) (s : Store) (r : KeyRow) (o : Option (String × String))
      → parse_key plaintext ≡ o
      → row_of sha256 now s o ≡ some r
      → Opens sha256 now plaintext s r
  row_of-Opens now plaintext s r none e h = absurd (ground arith)
  row_of-Opens now plaintext s r (some (prefix, raw)) e h =
      let c = checked-eq now raw (first_where (has_prefix prefix) s.api_keys) r h in
      let l = live_lem now r c.2 in (prefix, raw, e, c.0, c.1, l.0, l.1)

  -- The row and the organisation of a key that was resolved.
  abbrev pub Resolved : String → String → Store → Org → ApiKey → Type 0
  Resolved now plaintext s org key =
      (r : KeyRow) × Opens sha256 now plaintext s r
      × (get_org r.key.org_id s ≡ some org)
      × (key ≡ record r.key { last_used_at = now })

  opened-eq :
      (now : String) (r : KeyRow) (o : Option Org) (org : Org) (key : ApiKey)
      → opened sha256 now r o ≡ some (org, key)
      → (o ≡ some org) × (key ≡ record r.key { last_used_at = now })
  opened-eq now r none org key h = absurd (ground arith)
  opened-eq now r (some org') org key h = ground arith

  resolved-eq :
      (now plaintext : String) (s : Store) (org : Org) (key : ApiKey) (o : Option KeyRow)
      → usable_row sha256 now plaintext s ≡ o
      → (resolved sha256 now s o).1 ≡ some (org, key)
      → Resolved now plaintext s org key
  unfolding usable_row
  resolved-eq now plaintext s org key none e h = absurd (ground arith)
  resolved-eq now plaintext s org key (some r) e h =
      let o = opened-eq now r (get_org r.key.org_id s) org key h in
      (r, row_of-Opens now plaintext s r (parse_key plaintext) refl e, o.0, o.1)

  -- A presented key is resolved only to the key of the row that has its prefix, whose stored
  -- digest is its secret's, which is neither revoked nor expired, and to that row's organisation,
  -- which exists.
  pub resolve_api_key_sound :
      (now plaintext : String) (s : Store) (org : Org) (key : ApiKey)
      → (resolve_api_key sha256 now plaintext s).1 ≡ some (org, key)
      → Resolved now plaintext s org key
  unfolding resolve_api_key
  resolve_api_key_sound now plaintext s org key h =
      resolved-eq now plaintext s org key (usable_row sha256 now plaintext s) refl h

  revoked_rows :
      (now key_id org_id : String) (rows : List KeyRow)
      → now ≢ ""
      → All
          (λ r. revocable key_id org_id r ≡ false)
          (update_where
            (revocable key_id org_id)
            (λ r. record r { key = record r.key { revoked_at = now } })
            rows)
  revoked_rows now key_id org_id [] ne = tt
  revoked_rows now key_id org_id (r ∷ rows) ne =
      (ground (arith, str_eq_iff now ""), revoked_rows now key_id org_id rows ne)

  -- After a key is revoked, by its organisation or by an operator who names none, no presented
  -- text resolves to it, at any later time.
  pub revoke_api_key-final :
      (now later plaintext key_id org_id : String) (s : Store) (org : Org) (key : ApiKey)
      → now ≢ ""
      → (resolve_api_key sha256 later plaintext (revoke_api_key now key_id org_id s).0).1
        ≡ some (org, key)
      → ((org_id ≡ "") ⊎ (key.org_id ≡ org_id))
      → key.id ≢ key_id
  unfolding revoke_api_key
  revoke_api_key-final now later plaintext key_id org_id s org key ne h scope same =
      let (r, (prefix, raw, parsed, found, hash, alive, unexpired), o, k) =
        resolve_api_key_sound later plaintext (revoke_api_key now key_id org_id s).0 org key h in
      let shut =
        first_where-All (λ r. revocable key_id org_id r ≡ false) (has_prefix prefix) _ r
          (revoked_rows now key_id org_id s.api_keys ne) found in
      let id_of = ap (λ (x : ApiKey). x.id) k in
      let org_of = ap (λ (x : ApiKey). x.org_id) k in
      let open_still =
        live_is_revocable key_id org_id r alive (sym id_of ∙ same)
          (elim scope [ inl any ↦ inl any | inr own ↦ inr (sym org_of ∙ own) ]) in
      absurd (ground arith)

-- A revocation that names an organisation leaves every key of the other organisations as it was.
pub revoke_api_key-scoped :
    (now key_id org_id : String) (s : Store)
    → org_id ≢ ""
    → keep (λ r. not (r.key.org_id == org_id)) (revoke_api_key now key_id org_id s).0.api_keys
      ≡ keep (λ r. not (r.key.org_id == org_id)) s.api_keys
unfolding revoke_api_key
revoke_api_key-scoped now key_id org_id s ne = others s.api_keys
  where
    own_key : (r : KeyRow) → revocable key_id org_id r ≡ true → (r.key.org_id == org_id) ≡ true
    own_key r h = ground (arith, str_eq_iff org_id "")

    others :
        (rows : List KeyRow)
        → keep
            (λ r. not (r.key.org_id == org_id))
            (update_where
              (revocable key_id org_id)
              (λ r. record r { key = record r.key { revoked_at = now } })
              rows)
          ≡ keep (λ r. not (r.key.org_id == org_id)) rows
    others [] = refl
    others (r ∷ rows) = elim (Bool-cases (revocable key_id org_id r)) [
      | inl changed ↦ rw (changed, own_key r changed) (others rows)
      | inr kept ↦ rw kept (elim (Bool-cases (r.key.org_id == org_id)) [
        | inl own ↦ rw own (others rows)
        | inr other ↦ rw other (ap (◌∷◌ r) (others rows))
      ])
    ]

-- As the hexadecimal texts of `token_hex` are.
unfoldable pub NoUnderscore : String → Type 0
NoUnderscore String.[] = Unit
NoUnderscore (String.◌∷◌ c s) = (is_underscore c ≡ false) × NoUnderscore s

split-one : (a : String) → NoUnderscore a → split_underscores a ≡ a ∷ []
unfolding split_underscores NoUnderscore
split-one String.[] h = refl
split-one (String.◌∷◌ c a) (hc, h) = rw (hc, split-one a h) refl

abbrev underscore : Char
underscore = Prim.Native.Char.char 95 tt

underscore-append : (s : String) → "_" <> s ≡ String.◌∷◌ underscore s
underscore-append s = cons-append underscore "" s ∙ ap (String.◌∷◌ underscore) (nil-append s)

split-join :
    (a s : String) → NoUnderscore a → split_underscores (a <> ("_" <> s)) ≡ a ∷ split_underscores s
unfolding split_underscores NoUnderscore
split-join String.[] s h = ap split_underscores (nil-append ("_" <> s) ∙ underscore-append s)
split-join (String.◌∷◌ c a) s (hc, h) = rw (cons-append c a ("_" <> s), hc, split-join a s h) refl

parse_key-key_text :
    (prefix raw : String)
    → NoUnderscore prefix
    → NoUnderscore raw
    → parse_key (key_text prefix raw) ≡ some (prefix, raw)
unfolding parse_key NoUnderscore
parse_key-key_text prefix raw hp hr = ap key_parts (
    split-join "dcp" (prefix <> ("_" <> raw)) (refl, (refl, (refl, tt)))
    ∙ ap (◌∷◌ "dcp") (split-join prefix raw hp ∙ ap (◌∷◌ prefix) (split-one raw hr)))

any_of-weaken :
    {A : Type 0} (p q : A → Bool) (xs : List A)
    → any_of (λ x. p x || q x) xs ≡ false
    → any_of q xs ≡ false
any_of-weaken p q [] h = refl
any_of-weaken p q (x ∷ xs) h = ground (arith, any_of-weaken p q xs)

new_row-resolves :
    (sha256 : String → String) (at plaintext raw : String) (row : KeyRow) (s : Store) (org : Org)
    → parse_key plaintext ≡ some (row.key.prefix, raw)
    → any_of (has_prefix row.key.prefix) s.api_keys ≡ false
    → row.secret_hash ≡ sha256 raw
    → live at row ≡ true
    → get_org row.key.org_id s ≡ some org
    → (resolve_api_key sha256 at plaintext (record s { api_keys = s.api_keys ++ row ∷ [] })).1
      ≡ some (org, record row.key { last_used_at = at })
unfolding resolve_api_key usable_row get_org
new_row-resolves sha256 at plaintext raw row s org parsed fresh hash alive o =
    rw
      (
        parsed,
        first_where-last (has_prefix row.key.prefix) s.api_keys row fresh (eq_refl row.key.prefix),
        hash,
        eq_refl (sha256 raw),
        alive,
        o,
      )
      refl

unexpired_key :
    (b : Bool) (later at : String)
    → ((b ≡ false) ⊎ (le_str later at ≡ false))
    → (((if b then later else "") == "") || not (le_str (if b then later else "") at)) ≡ true
unexpired_key false later at h = refl
unexpired_key true later at (inl no_ttl) = absurd (ground arith)
unexpired_key true later at (inr ahead) = ground arith

-- What issuing a key promises of the text that it shows once.
abbrev pub Usable : (String → String) → String → Org → Option (Store × (String × ApiKey)) → Type 0
Usable sha256 now org none = ⊥
Usable sha256 now org (some (s, (plaintext, key))) =
    (resolve_api_key sha256 now plaintext s).1 ≡ some (org, record key { last_used_at = now })

-- Unless the drawn id or prefix is taken, a key is issued, and the text shown resolves to it and
-- to its organisation as long as it has not expired.
pub issue_api_key-resolves :
    (sha256 : String → String) (id prefix raw now later : String) (ttl_days : ℕ)
    (org_id name role : String) (s : Store) (org : Org) (at : String)
    → any_of (λ r. (r.key.id == id) || (r.key.prefix == prefix)) s.api_keys ≡ false
    → NoUnderscore prefix
    → NoUnderscore raw
    → get_org org_id s ≡ some org
    → ((ttl_days ≡ 0) ⊎ (le_str later at ≡ false))
    → Usable sha256 at org
        (issue_api_key sha256 id prefix raw now later ttl_days org_id name role s)
unfolding issue_api_key
issue_api_key-resolves sha256 id prefix raw now later ttl_days org_id name role s org at fresh hp hr
      o unexpired =
    rw fresh (
      new_row-resolves sha256 at (key_text prefix raw) raw _ s org
        (parse_key-key_text prefix raw hp hr)
        (any_of-weaken (λ r. r.key.id == id) (has_prefix prefix) s.api_keys fresh) refl
        (unexpired_key (ltb 0 ttl_days) later at
          (elim unexpired [ inl zero_days ↦ inl (ground arith) | inr ahead ↦ inr ahead ]))
        o)
