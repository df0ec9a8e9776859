-- ===== src/RateLimit/Laws.antt =====
-- The laws of the limiter (app/ratelimit.py).
use dev_ops_copilot.Base.{
  ℕ, zero, suc, ◌<◌, ◌≡◌, refl, ◌∙◌, ap, String, Bool, true, none, List, [], ◌∷◌, not, ltb, keep,
  length, arith, ◌==◌, string_eq, str_eq_iff, Bool-cases, inl, inr, ◌≢◌,
}
use dev_ops_copilot.Base.Dict.{lookup, get_or, insert}
use dev_ops_copilot.RateLimit.{Window, Store, elapsed, evict, count_hit, over_limit}

-- No key is stored twice.
abbrev pub NodupKeys : Store → Type 0
NodupKeys [] = Unit
NodupKeys ((k, _) ∷ d) = (lookup k d ≡ none) × NodupKeys d

-- The window of a key, or a fresh one.
abbrev pub window_of : ℕ → String → Store → Window
window_of now key store = get_or key (now, 0) store

get_or_absent : (key : String) (w : Window) (d : Store) → lookup key d ≡ none → get_or key w d ≡ w
get_or_absent key w [] h = refl
get_or_absent key w ((k, v) ∷ d) h = ground (arith, get_or_absent key w d)

lookup-keep :
    (p : String × Window → Bool) (key : String) (d : Store)
    → lookup key d ≡ none
    → lookup key (keep p d) ≡ none
lookup-keep p key [] h = refl
lookup-keep p key ((k, v) ∷ d) h = ground (arith, lookup-keep p key d)

get_or-insert :
    (j k : String) → j ≢ k → (v w : Window) (d : Store) → get_or j w (insert k v d) ≡ get_or j w d
get_or-insert j k ne v w [] = ground (arith, str_eq_iff j k)
get_or-insert j k ne v w ((i, x) ∷ d) =
    ground (arith, str_eq_iff j k, str_eq_iff j i, str_eq_iff k i, get_or-insert j k ne v w d)

-- What is dropped: the elapsed windows.
abbrev fresh : ℕ → ℕ → String × Window → Bool
fresh now window (_, w) = not (elapsed now window w.0)

count_hit-dropped :
    (now window : ℕ) (key : String) (w : Window) (d : Store)
    → 0 < window
    → lookup key d ≡ none
    → elapsed now window w.0 ≡ true
    → count_hit now window (window_of now key (keep (fresh now window) d)) ≡ count_hit now window w
unfolding count_hit
count_hit-dropped now window key w d h absent e =
    rw
      (
        get_or_absent key (now, 0) (keep (fresh now window) d)
            (lookup-keep (fresh now window) key d absent),
        e,
      )
      (ground arith)

-- Dropping the elapsed windows does not change what a hit counts: a dropped window would have
-- been started anew.
count_hit-keep :
    (now window : ℕ) (key : String) (d : Store)
    → 0 < window
    → NodupKeys d
    → count_hit now window (window_of now key (keep (fresh now window) d))
      ≡ count_hit now window (window_of now key d)
count_hit-keep now window key [] h u = refl
count_hit-keep now window key ((k, w) ∷ d) h (absent, u) =
    elim (Bool-cases (elapsed now window w.0)) [
      | inl gone ↦ rw gone (elim (Bool-cases (key == k)) [
        | inl same ↦ rw same (
            count_hit-dropped now window key w d h
              (ap (λ j. lookup j d) ((str_eq_iff key k).0 same) ∙ absent) gone)
        | inr other ↦ rw other (count_hit-keep now window key d h u)
      ])
      | inr held ↦ rw held (elim (Bool-cases (key == k)) [
        | inl same ↦ rw same refl
        | inr other ↦ rw other (count_hit-keep now window key d h u)
      ])
    ]

-- The requests of a burst for one key at one time, with their verdicts.
abbrev pub burst : ℕ → ℕ → String → ℕ → ℕ → ℕ → Store → Store × List Bool
burst max_keys now key limit window zero store = (store, [])
burst max_keys now key limit window (suc n) store =
    let (s, refused) = over_limit max_keys now key limit window store in
    let (s', rs) = burst max_keys now key limit window n s in (s', refused ∷ rs)

-- A hit is refused by the number of hits in the key's window alone: neither the eviction of other
-- keys' elapsed windows nor any other key has a part in the verdict.
pub over_limit_verdict :
    (max_keys now : ℕ) (key : String) (limit window : ℕ) (store : Store)
    → 0 < window
    → NodupKeys store
    → (over_limit max_keys now key limit window store).1
      ≡ ltb limit (count_hit now window (window_of now key store)).1
unfolding over_limit evict
over_limit_verdict max_keys now key limit window store h u =
    elim (Bool-cases (ltb max_keys (length store))) [
      | inl full ↦ rw full (ap (λ w. ltb limit w.1) (count_hit-keep now window key store h u))
      | inr room ↦ rw room refl
    ]

-- A hit leaves the window that another key's next hit counts in as it was.
pub over_limit_isolates :
    (max_keys now : ℕ) (key other : String) (limit window : ℕ) (store : Store)
    → 0 < window
    → NodupKeys store
    → other ≢ key
    → count_hit now window (window_of now other (over_limit max_keys now key limit window store).0)
      ≡ count_hit now window (window_of now other store)
unfolding over_limit evict
over_limit_isolates max_keys now key other limit window store h u ne =
    elim (Bool-cases (ltb max_keys (length store))) [
      | inl full ↦
          rw full (rw (get_or-insert other key ne) (count_hit-keep now window other store h u))
      | inr room ↦ rw room (rw (get_or-insert other key ne) refl)
    ]
