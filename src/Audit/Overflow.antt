-- ===== src/Audit/Overflow.antt =====
-- The chain and the bounded buffer together (app/audit.py: record, verify_chain).
use dev_ops_copilot.Base.{
  ℕ, ◌+◌, ◌≤◌, ◌<◌, ◌≡◌, ◌≢◌, refl, ◌∙◌, sym, ap, subst, String, true, false, List, [], ◌∷◌, ◌++◌,
  ◌⊎◌, inl, inr, length, length-append, drop, ltb, ltb→lt, arith, string_eq, str_eq_iff, Bool-cases,
  suc,
}
use dev_ops_copilot.Base.Dict.{Dict}
use dev_ops_copilot.Base.Value.{Value}
use dev_ops_copilot.Audit.{
  Entry, Trail, cleared, buffer_size, append_bounded, valid, broken, chain_hash, chained_entry,
  record_event, link_ok, verify_from, verify_chain, hash_or_empty,
}
use dev_ops_copilot.Audit.Chain.{
  Chain, Chain-append, Chain-verify_from, last_hash_of, last_hash_of-append,
}

module _ (sha256 : String → String) (dumps : Dict String Value → String)
    (sha256_nonempty : (s : String) → sha256 s ≢ "") where
  -- The trail after a sequence of events.
  unfoldable pub record_all : List (Dict String Value) → Trail → Trail
  record_all [] t = t
  record_all (body ∷ bodies) t = record_all bodies (record_event sha256 dumps body t)

  -- The buffer is a chain after `p`: the whole trail of `n` events, or what is left of it.
  abbrev Held : ℕ → Trail → Type 0
  Held n t =
      (p : String) × Chain sha256 dumps p t.buffer
      × (last_hash_of p t.buffer ≡ t.last_hash)
      × (((p ≡ "") × (length t.buffer ≡ n) × (n ≤ buffer_size))
          ⊎ ((p ≢ "") × (length t.buffer ≡ buffer_size) × (buffer_size < n)))

  -- What dropping the oldest entry leaves.
  abbrev Cut : String → List Entry → Type 0
  Cut p es =
      (q : String) × (q ≢ "")
      × Chain sha256 dumps q (drop 1 es)
      × (last_hash_of q (drop 1 es) ≡ last_hash_of p es)
      × (length (drop 1 es) + 1 ≡ length es)

  hash_given :
      (e : Entry) (p : String) → e ≡ chained_entry sha256 dumps e.body p → hash_or_empty e.hash ≢ ""
  unfolding chained_entry chain_hash
  hash_given e p k empty =
      sha256_nonempty _ (sym (ap (λ (x : Entry). hash_or_empty x.hash) k) ∙ empty)

  Chain-Cut : (p : String) (es : List Entry) → 0 < length es → Chain sha256 dumps p es → Cut p es
  Chain-Cut p [] h c = absurd (omega arith)
  Chain-Cut p (e ∷ es) h (k, c) = (hash_or_empty e.hash, hash_given e p k, c, refl, omega arith)

  Held-record_event :
      (n : ℕ) (body : Dict String Value) (t : Trail)
      → Held n t
      → Held (suc n) (record_event sha256 dumps body t)
  unfolding record_event append_bounded
  Held-record_event n body t (p, c, last, size) =
      elim (Bool-cases (ltb buffer_size (length longer))) [
        | inl full ↦ rw full (
            let (q, nonempty, d, same, len) = Chain-Cut p longer (omega (arith, grown)) chain in
            (q, d, same ∙ ends, inr (nonempty, exact_size full len, more_than full)))
        | inr room ↦ rw room (p, chain, ends, still_whole room)
      ]
    where
      longer : List Entry
      longer = t.buffer ++ chained_entry sha256 dumps body t.last_hash ∷ []

      grown : length longer ≡ length t.buffer + 1
      grown = length-append t.buffer _

      chain : Chain sha256 dumps p longer
      chain =
          Chain-append sha256 dumps p t.buffer (chained_entry sha256 dumps body t.last_hash) c
            (ap (chained_entry sha256 dumps body) (sym last))

      ends : last_hash_of p longer ≡ chain_hash sha256 dumps body t.last_hash
      ends = last_hash_of-append sha256 dumps p t.buffer body t.last_hash

      exact_size :
          ltb buffer_size (length longer) ≡ true
          → length (drop 1 longer) + 1 ≡ length longer
          → length (drop 1 longer) ≡ buffer_size
      exact_size full len =
          let more = ltb→lt buffer_size (length longer) full in
          elim size [
            | inl (whole, len', le) ↦ omega (arith, grown)
            | inr (cut, len', lt) ↦ omega (arith, grown)
          ]

      more_than : ltb buffer_size (length longer) ≡ true → buffer_size < suc n
      more_than full =
          let more = ltb→lt buffer_size (length longer) full in
          elim size [
            | inl (whole, len', le) ↦ omega (arith, grown)
            | inr (cut, len', lt) ↦ omega arith
          ]

      still_whole :
          ltb buffer_size (length longer) ≡ false
          → ((p ≡ "") × (length longer ≡ suc n) × (suc n ≤ buffer_size))
            ⊎ ((p ≢ "") × (length longer ≡ buffer_size) × (buffer_size < suc n))
      still_whole room = elim size [
        | inl (whole, len', le) ↦ inl (whole, omega (arith, grown), at_most room len')
        | inr (cut, len', lt) ↦ absurd (too_long room len')
      ]
        where
          at_most :
              ltb buffer_size (length longer) ≡ false → length t.buffer ≡ n → suc n ≤ buffer_size
          at_most room len' = ground (arith, grown)

          too_long : ltb buffer_size (length longer) ≡ false → length t.buffer ≡ buffer_size → ⊥
          too_long room len' = ground (arith, grown)

  Held-record_all :
      (bodies : List (Dict String Value)) (n : ℕ) (t : Trail)
      → Held n t
      → Held (length bodies + n) (record_all bodies t)
  unfolding record_all
  Held-record_all [] n t h = subst (λ m. Held m t) (omega arith) h
  Held-record_all (body ∷ bodies) n t h =
      subst (λ m. Held m (record_all bodies (record_event sha256 dumps body t))) (omega arith)
        (Held-record_all bodies (suc n) _ (Held-record_event n body t h))

  Held-cleared : Held 0 cleared
  Held-cleared = ("", tt, refl, inl (refl, refl, omega arith))

  Held-all :
      (bodies : List (Dict String Value)) → Held (length bodies + 0) (record_all bodies cleared)
  Held-all bodies = Held-record_all bodies 0 cleared Held-cleared

  -- While no more than 2000 events were recorded since the trail was cleared, the buffer verifies
  -- and counts them all.
  pub verify_chain-records :
      (bodies : List (Dict String Value))
      → length bodies ≤ buffer_size
      → verify_chain sha256 dumps (record_all bodies cleared).buffer ≡ valid (length bodies)
  unfolding verify_chain
  verify_chain-records bodies few = go (Held-all bodies)
    where
      go :
          Held (length bodies + 0) (record_all bodies cleared)
          → verify_chain sha256 dumps (record_all bodies cleared).buffer ≡ valid (length bodies)
      go (p, c, last, inl (whole, len, le)) =
          Chain-verify_from sha256 dumps (length (record_all bodies cleared).buffer) 0 "" _
            (subst (λ q. Chain sha256 dumps q (record_all bodies cleared).buffer) whole c)
          ∙ ap valid (omega arith)
      go (p, c, last, inr (cut, len, lt)) = absurd (omega arith)

  cut-Chain_breaks :
      (count : ℕ) (p : String) (es : List Entry)
      → p ≢ ""
      → 0 < length es
      → Chain sha256 dumps p es
      → verify_from sha256 dumps count 0 "" es ≡ broken 0 count
  unfolding verify_from link_ok chained_entry
  cut-Chain_breaks count p [] ne h c = absurd (omega arith)
  cut-Chain_breaks count p (e ∷ es) ne h (k, c) =
      ground (arith, ap (λ (x : Entry). x.prev_hash) k, str_eq_iff p "")

  -- After more than 2000 events the buffer no longer verifies, although no entry was changed: its
  -- first entry follows one that the buffer has dropped, and the check starts from the empty hash.
  pub verify_chain-overflow :
      (bodies : List (Dict String Value))
      → buffer_size < length bodies
      → verify_chain sha256 dumps (record_all bodies cleared).buffer ≡ broken 0 buffer_size
  unfolding verify_chain
  verify_chain-overflow bodies many = go (Held-all bodies)
    where
      go :
          Held (length bodies + 0) (record_all bodies cleared)
          → verify_chain sha256 dumps (record_all bodies cleared).buffer ≡ broken 0 buffer_size
      go (p, c, last, inl (whole, len, le)) = absurd (omega arith)
      go (p, c, last, inr (cut, len, lt)) =
          cut-Chain_breaks (length (record_all bodies cleared).buffer) p _ cut (omega arith) c
          ∙ ap (broken 0) len
