-- ===== src/Api/Sessions/Capacity.antt =====
-- The cap on the number of live sessions.
use dev_ops_copilot.Base.{
  ℕ, zero, suc, ◌≤◌, ◌<◌, ◌≡◌, true, false, List, [], ◌∷◌, ◌++◌, arith, leb, ltb, keep, contains,
  none, String, ◌==◌, string_eq, Option-cases, Bool-cases, inl, inr, ◌⊎◌, length, ◌≢◌, str_eq_iff,
  contains-append, length-keep-le, length-append,
}
use dev_ops_copilot.Api.Sessions.{
  Pool, discard, evict, is_busy, least_of, evictable_thread, make_room, get_session, not,
}
use dev_ops_copilot.Api.Sessions.Eviction.{evictable_thread_lem}

length-discard-lt :
    (t : String) (xs : List String) → contains xs t ≡ true → length (discard t xs) < length xs
length-discard-lt t [] h = cc
length-discard-lt t (x ∷ xs) h = ground (
  arith,
  str_eq_iff t x,
  str_eq_iff x t,
  length-discard-lt t xs,
  length-keep-le (λ y. not (y == t)) xs,
)

-- Enough rounds make room, or end where nobody may be evicted.
make_room_lem :
    (rounds most : ℕ) (p : Pool)
    → length p.sessions < rounds
    → (length (make_room rounds most p).sessions < most)
      ⊎ (evictable_thread (make_room rounds most p) ≡ none)
unfolding make_room
make_room_lem zero most p h = absurd (omega arith)
make_room_lem (suc rounds) most p h = elim (Bool-cases (leb most (length p.sessions))) [
  | inr small ↦ rw small (inl (ground (arith, small)))
  | inl full ↦ elim (Option-cases (evictable_thread p)) [
    | inl nobody ↦ rw (full, nobody) (inr nobody)
    | inr (t, chosen) ↦
        let fewer : length (evict t p).sessions < length p.sessions =
          unfold evict in length-discard-lt t p.sessions (evictable_thread_lem p t chosen).0 in
        rw (full, chosen) (make_room_lem rounds most (evict t p) (omega (arith, fewer)))
  ]
]

idle-nil :
    (p : Pool) (u : String) (xs : List String)
    → least_of p (keep (λ t. not (is_busy p t)) xs) ≡ none
    → contains xs u ≡ true
    → is_busy p u ≡ true
idle-nil p u [] e h = cc
idle-nil p u (x ∷ xs) e h = elim (Bool-cases (is_busy p x)) [
  | inr free ↦
      let broken : least_of p (x ∷ keep (λ t. not (is_busy p t)) xs) ≡ none = rw free at e in cc
  | inl busy ↦ elim (Bool-cases (u == x)) [
    | inl same ↦ rw ((str_eq_iff u x).0 same) busy
    | inr other ↦ idle-nil p u xs (rw busy at e) (ground (arith, other))
  ]
]

nobody_idle :
    (p : Pool) (u : String)
    → evictable_thread p ≡ none
    → contains p.sessions u ≡ true
    → is_busy p u ≡ true
unfolding evictable_thread
nobody_idle p u e h = idle-nil p u p.sessions e h

contains-last :
    (t u : String) (xs : List String)
    → contains (xs ++ t ∷ []) u ≡ true
    → u ≢ t
    → contains xs u ≡ true
contains-last t u xs h other = ground (arith, contains-append xs (t ∷ []) u, str_eq_iff u t)

-- With a cap of at least one session, opening one for a thread that has none leaves no more
-- sessions than the cap, unless every other session that is left is busy: it runs a turn or waits
-- for an approval.
pub get_session-capacity :
    (most now : ℕ) (t : String) (p : Pool)
    → 0 < most
    → contains p.sessions t ≡ false
    → (length (get_session most now t p).sessions ≤ most)
      ⊎ ((u : String)
          → contains (get_session most now t p).sessions u ≡ true
          → u ≢ t
          → is_busy (get_session most now t p) u ≡ true)
unfolding get_session
get_session-capacity most now t p pos new =
    let bounded : ltb 0 most ≡ true = ground arith in
    rw (new, bounded)
      (elim (make_room_lem (suc (length p.sessions)) most p (omega arith)) [
        | inl room ↦ inl (omega (arith, room, length-append r.sessions (t ∷ [])))
        | inr nobody ↦
            inr (λ u has other. nobody_idle r u nobody (contains-last t u r.sessions has other))
      ])
  where
    r : Pool
    r = make_room (suc (length p.sessions)) most p
