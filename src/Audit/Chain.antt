-- ===== src/Audit/Chain.antt =====
-- The laws of the hash chain (app/audit.py: verify_chain).
use dev_ops_copilot.Base.{
  ℕ, ◌+◌, ◌≡◌, refl, ◌∙◌, sym, ap, ◌<>◌, String, true, Option, none, some, List, [], ◌∷◌, ◌++◌,
  length, arith, string_eq, str_eq_iff, eq_refl, Bool-cases, inl, inr,
}
use dev_ops_copilot.Base.Dict.{Dict}
use dev_ops_copilot.Base.Value.{Value}
use dev_ops_copilot.Audit.{
  Entry, valid, is_valid, field_is, hash_or_empty, chain_hash, chained_entry, link_ok, verify_from,
  verify_chain,
}

-- The hash that a chain ends with.
abbrev pub last_hash_of : String → List Entry → String
last_hash_of prev [] = prev
last_hash_of prev (e ∷ es) = last_hash_of (hash_or_empty e.hash) es

field_is-eq : (o : Option String) (s : String) → field_is o s ≡ true → o ≡ some s
field_is-eq none s h = absurd (ground arith)
field_is-eq (some t) s h = ap some ((str_eq_iff t s).0 h)

module _ (sha256 : String → String) (dumps : Dict String Value → String) where
  -- The entries form a chain that starts after the hash `prev`.
  abbrev pub Chain : String → List Entry → Type 0
  Chain prev [] = Unit
  Chain prev (e ∷ es) =
      (e ≡ chained_entry sha256 dumps e.body prev) × Chain (hash_or_empty e.hash) es

  link_ok-eq :
      (prev : String) (e : Entry)
      → link_ok sha256 dumps prev e ≡ true
      → e ≡ chained_entry sha256 dumps e.body prev
  unfolding link_ok chained_entry
  link_ok-eq prev e h = ground (
    arith,
    field_is-eq e.hash (chain_hash sha256 dumps e.body prev),
    field_is-eq e.prev_hash prev,
  )

  link_ok-chained :
      (prev : String) (body : Dict String Value)
      → link_ok sha256 dumps prev (chained_entry sha256 dumps body prev) ≡ true
  unfolding link_ok chained_entry
  link_ok-chained prev body =
      ground (arith, eq_refl (chain_hash sha256 dumps body prev), eq_refl prev)

  pub verify_from-Chain :
      (count i : ℕ) (prev : String) (es : List Entry)
      → is_valid (verify_from sha256 dumps count i prev es) ≡ true
      → Chain prev es
  unfolding verify_from
  verify_from-Chain count i prev [] h = tt
  verify_from-Chain count i prev (e ∷ es) h = elim (Bool-cases (link_ok sha256 dumps prev e)) [
    | inl ok ↦ (
      link_ok-eq prev e ok,
      verify_from-Chain count (i + 1) (hash_or_empty e.hash) es (ground arith),
    )
    | inr bad ↦ absurd (ground arith)
  ]

  pub Chain-verify_from :
      (count i : ℕ) (prev : String) (es : List Entry)
      → Chain prev es
      → verify_from sha256 dumps count i prev es ≡ valid count
  unfolding verify_from
  Chain-verify_from count i prev [] c = refl
  Chain-verify_from count i prev (e ∷ es) (h, c) =
      rw (ap (link_ok sha256 dumps prev) h ∙ link_ok-chained prev e.body)
        (Chain-verify_from count (i + 1) (hash_or_empty e.hash) es c)

  pub Chain-append :
      (prev : String) (es : List Entry) (e : Entry)
      → Chain prev es
      → e ≡ chained_entry sha256 dumps e.body (last_hash_of prev es)
      → Chain prev (es ++ e ∷ [])
  Chain-append prev [] e c h = (h, tt)
  Chain-append prev (d ∷ es) e (k, c) h = (k, Chain-append (hash_or_empty d.hash) es e c h)

  pub last_hash_of-append :
      (prev : String) (es : List Entry) (body : Dict String Value) (p : String)
      → last_hash_of prev (es ++ chained_entry sha256 dumps body p ∷ [])
        ≡ chain_hash sha256 dumps body p
  unfolding chained_entry
  last_hash_of-append prev [] body p = refl
  last_hash_of-append prev (d ∷ es) body p = last_hash_of-append (hash_or_empty d.hash) es body p

  -- What the entries say, as it is hashed.
  abbrev pub texts : List Entry → List String
  texts [] = []
  texts (e ∷ es) = dumps e.body ∷ texts es

  module _ (sha256_inj : (s t : String) → sha256 s ≡ sha256 t → s ≡ t)
      (dumps_delimited : (b c : Dict String Value) (p q : String)
        → dumps b <> p ≡ dumps c <> q
        → (dumps b ≡ dumps c) × (p ≡ q)) where
    entries_agree :
        (p q : String) (d e : Entry)
        → d ≡ chained_entry sha256 dumps d.body p
        → e ≡ chained_entry sha256 dumps e.body q
        → hash_or_empty d.hash ≡ hash_or_empty e.hash
        → (dumps d.body ≡ dumps e.body) × (p ≡ q)
    unfolding chained_entry chain_hash
    entries_agree p q d e dh eh same = dumps_delimited d.body e.body p q (
        sha256_inj _ _ (
          sym (ap (λ (x : Entry). hash_or_empty x.hash) dh)
          ∙ same
          ∙ ap (λ (x : Entry). hash_or_empty x.hash) eh))

    chains_agree :
        (p q : String) (ds es : List Entry)
        → length ds ≡ length es
        → Chain p ds
        → Chain q es
        → last_hash_of p ds ≡ last_hash_of q es
        → (texts ds ≡ texts es) × (p ≡ q)
    chains_agree p q [] [] n c c' same = (refl, same)
    chains_agree p q [] (e ∷ es) n c c' same = absurd (omega arith)
    chains_agree p q (d ∷ ds) [] n c c' same = absurd (omega arith)
    chains_agree p q (d ∷ ds) (e ∷ es) n (dh, c) (eh, c') same =
        let later =
          chains_agree (hash_or_empty d.hash) (hash_or_empty e.hash) ds es (omega arith) c c'
            same in
        let here = entries_agree p q d e dh eh later.1 in (ground arith, here.1)

    -- Two trails of one length that both verify and end with the same hash say the same, entry by
    -- entry: with the last hash kept elsewhere, no entry can be edited, swapped or replaced, even
    -- by one who computes the hashes anew. The digest is taken to have no collisions, and the
    -- JSON text of a dict to end where its last brace stands.
    pub verify_chain-detects_edits :
        (ds es : List Entry)
        → length ds ≡ length es
        → is_valid (verify_chain sha256 dumps ds) ≡ true
        → is_valid (verify_chain sha256 dumps es) ≡ true
        → last_hash_of "" ds ≡ last_hash_of "" es
        → texts ds ≡ texts es
    unfolding verify_chain
    verify_chain-detects_edits ds es n hd he same =
        (chains_agree "" "" ds es n (verify_from-Chain (length ds) 0 "" ds hd)
          (verify_from-Chain (length es) 0 "" es he) same).0
