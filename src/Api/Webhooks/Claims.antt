-- ===== src/Api/Webhooks/Claims.antt =====
-- The claims of deliveries: while one lasts, no other delivery takes it away or can claim it again.
use dev_ops_copilot.Base.{
  ℕ, ◌+◌, ◌≤◌, ◌<◌, ◌≡◌, refl, String, Bool, true, false, some, [], ◌∷◌, ltb, keep, length, ◌==◌,
  string_eq, arith, Bool-cases, inl, inr, str_eq_iff, eq_refl,
}
use dev_ops_copilot.Base.Dict.{Dict, lookup, lookup-insert}
use dev_ops_copilot.Api.Webhooks.{Seen, is_kept, pruned, is_duplicate, claim_delivery}

lookup-keep :
    (p : String × ℕ → Bool) (k : String) (v : ℕ) (d : Dict String ℕ)
    → lookup k d ≡ some v
    → p (k, v) ≡ true
    → lookup k (keep p d) ≡ some v
lookup-keep p k v [] h kept = cc
lookup-keep p k v ((j, w) ∷ d) h kept = elim (Bool-cases (k == j)) [
  | inl same ↦
      let key : k ≡ j = (str_eq_iff k j).0 same in
      let value : some w ≡ some v = rw same at h in
      let here : p (j, w) ≡ true = ground (arith, key, value, kept) in rw (here, same) value
  | inr other ↦
      let there : lookup k d ≡ some v = rw other at h in
      elim (Bool-cases (p (j, w))) [
        | inl stays ↦ rw (stays, other) (lookup-keep p k v d there kept)
        | inr goes ↦ rw goes (lookup-keep p k v d there kept)
      ]
]

-- The digest was claimed, and the claim lasts beyond the time.
abbrev pub Claimed : ℕ → String → Seen → Type 0
Claimed t k seen = (v : ℕ) × (lookup k seen ≡ some v) × (t < v + 600)

pruned-Claimed :
    (now t : ℕ) (k : String) (seen : Seen)
    → now ≤ t
    → Claimed t k seen
    → Claimed t k (pruned now seen)
pruned-Claimed now t k seen le (v, found, lasts) = elim (Bool-cases (ltb 5000 (length seen))) [
  | inl full ↦ rw full (v, lookup-keep (is_kept now) k v seen found (ground arith), lasts)
  | inr room ↦ rw room (v, found, lasts)
]

module _ (sha256 : String → String) where
  pub claim-Claimed :
      (now t : ℕ) (body k : String) (seen : Seen)
      → now ≤ t
      → Claimed t k seen
      → Claimed t k (claim_delivery sha256 now body seen).0
  unfolding claim_delivery
  claim-Claimed now t body k seen le c = go (pruned-Claimed now t k seen le c)
    where
      go : Claimed t k (pruned now seen) → Claimed t k (claim_delivery sha256 now body seen).0
      go (v, found, lasts) =
          elim (Bool-cases (is_duplicate now (lookup (sha256 body) (pruned now seen)))) [
            | inl again ↦ rw (claim_delivery, again) (v, found, lasts)
            | inr new ↦ elim (Bool-cases (k == sha256 body)) [
              | inl same ↦
                  let key : k ≡ sha256 body = (str_eq_iff k (sha256 body)).0 same in
                  let known : lookup (sha256 body) (pruned now seen) ≡ some v = rw (← key) found in
                  let broken : is_duplicate now (some v) ≡ false = rw known at new in
                  absurd (ground (arith, broken))
              | inr other ↦
                  rw (claim_delivery, new)
                    (
                      v,
                      rw (lookup-insert k (sha256 body) now (pruned now seen), other) found,
                      lasts,
                    )
            ]
          ]

  pub claim-again :
      (t : ℕ) (body : String) (seen : Seen)
      → Claimed t (sha256 body) seen
      → (claim_delivery sha256 t body seen).1 ≡ false
  unfolding claim_delivery
  claim-again t body seen c = go (pruned-Claimed t t (sha256 body) seen (omega arith) c)
    where
      go : Claimed t (sha256 body) (pruned t seen) → (claim_delivery sha256 t body seen).1 ≡ false
      go (v, found, lasts) =
          let again : is_duplicate t (some v) ≡ true = ground arith in
          rw (claim_delivery, found, again) refl

  pub claim-first :
      (now t : ℕ) (body : String) (seen : Seen)
      → t < now + 600
      → (claim_delivery sha256 now body seen).1 ≡ true
      → Claimed t (sha256 body) (claim_delivery sha256 now body seen).0
  unfolding claim_delivery
  claim-first now t body seen lasts h =
      elim (Bool-cases (is_duplicate now (lookup (sha256 body) (pruned now seen)))) [
        | inl again ↦ let broken : false ≡ true = rw (claim_delivery, again) at h in cc
        | inr new ↦
            rw (claim_delivery, new)
              (
                now,
                rw
                    (
                      lookup-insert (sha256 body) (sha256 body) now (pruned now seen),
                      eq_refl (sha256 body),
                    )
                    refl,
                lasts,
              )
      ]
