-- ===== src/Api/Sessions/Eviction.antt =====
-- A session that is busy is never dropped to make room, and the one that is dropped is the idle one
-- that was used the longest ago.
use dev_ops_copilot.Base.{
  ℕ, zero, suc, ◌≤◌, ◌≡◌, refl, Bool, true, false, List, [], ◌∷◌, ◌||◌, not, arith, leb, ltb, keep,
  contains, none, some, String, ◌==◌, string_eq, Option-cases, Bool-cases, inl, inr, str_eq_iff,
  eq_refl, ltb→lt, subst, ◌≢◌, contains-append,
}
use dev_ops_copilot.Api.Sessions.{
  Pool, discard, evict, is_busy, used_at, least_used, idle, evictable_thread, make_room,
  get_session, length,
}

contains-keep :
    (p : String → Bool) (xs : List String) (x : String)
    → contains xs x ≡ true
    → p x ≡ true
    → contains (keep p xs) x ≡ true
contains-keep p [] x h k = cc
contains-keep p (y ∷ ys) x h k = ground (arith, str_eq_iff x y, contains-keep p ys x)

pub contains-keep_prop :
    (p : String → Bool) (xs : List String) (x : String)
    → contains (keep p xs) x ≡ true
    → (contains xs x ≡ true) × (p x ≡ true)
contains-keep_prop p [] x h = cc
contains-keep_prop p (y ∷ ys) x h = (
  ground (arith, str_eq_iff x y, contains-keep_prop p ys x),
  ground (arith, str_eq_iff x y, contains-keep_prop p ys x),
)

least_used-mem :
    (p : Pool) (t : String) (us : List String) → contains (t ∷ us) (least_used p t us) ≡ true
least_used-mem p t [] = ground (arith, eq_refl t)
least_used-mem p t (u ∷ us) =
    ground (arith, eq_refl t, eq_refl u, least_used-mem p t us, least_used-mem p u us)

least_used-le_first :
    (p : Pool) (t : String) (us : List String) → used_at p (least_used p t us) ≤ used_at p t
least_used-le_first p t [] = omega arith
least_used-le_first p t (u ∷ us) = elim (Bool-cases (ltb (used_at p u) (used_at p t))) [
  | inl less ↦
      rw less (omega (arith, least_used-le_first p u us, ltb→lt (used_at p u) (used_at p t) less))
  | inr more ↦ rw more (least_used-le_first p t us)
]

least_used-le :
    (p : Pool) (t : String) (us : List String) (v : String)
    → contains (t ∷ us) v ≡ true
    → used_at p (least_used p t us) ≤ used_at p v
least_used-le p t [] v h =
    let same : v ≡ t = (str_eq_iff v t).0 (ground arith) in rw same (omega arith)
least_used-le p t (u ∷ us) v h = elim (Bool-cases (v == t)) [
  | inl same ↦ rw ((str_eq_iff v t).0 same) (least_used-le_first p t (u ∷ us))
  | inr other ↦ elim (Bool-cases (ltb (used_at p u) (used_at p t))) [
    | inl less ↦ rw less (least_used-le p u us v (ground (arith, other)))
    | inr more ↦ elim (Bool-cases (v == u)) [
      | inl next ↦
          let le : used_at p t ≤ used_at p u = ground (arith, more) in
          rw (more, (str_eq_iff v u).0 next) (omega (arith, le, least_used-le_first p t us))
      | inr later ↦ rw more (least_used-le p t us v (ground (arith, other, later)))
    ]
  ]
]

-- The thread that is chosen for eviction has a session, neither runs a turn nor waits for an
-- approval, and of all the threads of which that holds none was used before it.
pub evictable_thread_lem :
    (p : Pool) (t : String)
    → evictable_thread p ≡ some t
    → (contains p.sessions t ≡ true)
      × (is_busy p t ≡ false)
      × ((u : String)
          → contains p.sessions u ≡ true
          → is_busy p u ≡ false
          → used_at p t ≤ used_at p u)
unfolding evictable_thread
evictable_thread_lem p t h = go (idle p) refl
  where
    go :
        (us : List String)
        → idle p ≡ us
        → (contains p.sessions t ≡ true)
          × (is_busy p t ≡ false)
          × ((u : String)
              → contains p.sessions u ≡ true
              → is_busy p u ≡ false
              → used_at p t ≤ used_at p u)
    go [] e = let impossible : none ≡ some t = rw e at h in cc
    go (v ∷ us) e =
        let same : some (least_used p v us) ≡ some t = rw e at h in
        let chosen : least_used p v us ≡ t = cc in
        let within : contains (idle p) t ≡ true = rw (e, ← chosen) (least_used-mem p v us) in
        let (has, free) = contains-keep_prop (λ w. not (is_busy p w)) p.sessions t within in
        (
          has,
          ground (arith, free),
          λ u in_pool is_idle. rw (← chosen) (
              least_used-le p v us u (
                subst (λ xs. contains xs u ≡ true) e
                  (contains-keep (λ w. not (is_busy p w)) p.sessions u in_pool (rw is_idle refl)))),
        )

pub discard-keeps :
    (t u : String) (xs : List String)
    → contains xs u ≡ true
    → u ≢ t
    → contains (discard t xs) u ≡ true
discard-keeps t u xs h other =
    contains-keep (λ y. not (y == t)) xs u h (ground (arith, str_eq_iff u t))

-- The thread has a session and is busy.
abbrev pub Held : Pool → String → Type 0
Held p u = (contains p.sessions u ≡ true) × (is_busy p u ≡ true)

evict-Held : (p : Pool) (t u : String) → is_busy p t ≡ false → Held p u → Held (evict t p) u
unfolding evict
evict-Held p t u free (has, busy) = (discard-keeps t u p.sessions has other, still)
  where
    other : u ≢ t
    other e = let broken : is_busy p t ≡ true = rw (← e) busy in cc

    still : (contains p.running u || contains (discard t p.awaiting) u) ≡ true
    still = elim (Bool-cases (contains p.running u)) [
      | inl runs ↦ rw runs refl
      | inr rests ↦
          rw (rests, discard-keeps t u p.awaiting (ground (arith, rests, busy)) other) refl
    ]

make_room-Held :
    (rounds most : ℕ) (p : Pool) (u : String) → Held p u → Held (make_room rounds most p) u
unfolding make_room
make_room-Held zero most p u h = h
make_room-Held (suc rounds) most p u h = elim (Bool-cases (leb most (length p.sessions))) [
  | inr small ↦ rw small h
  | inl full ↦ elim (Option-cases (evictable_thread p)) [
    | inl nobody ↦ rw (full, nobody) h
    | inr (t, chosen) ↦
        rw (full, chosen)
          (make_room-Held rounds most (evict t p) u
            (evict-Held p t u (evictable_thread_lem p t chosen).1 h))
  ]
]

get_session-Held :
    (most now : ℕ) (t : String) (p : Pool) (u : String)
    → Held p u
    → Held (get_session most now t p) u
unfolding get_session
get_session-Held most now t p u h = elim (Bool-cases (contains p.sessions t)) [
  | inl there ↦ rw there h
  | inr new ↦ elim (Bool-cases (ltb 0 most)) [
    | inl bounded ↦
        let (has, busy) = make_room-Held (suc (length p.sessions)) most p u h in
        rw (new, bounded) (rw (contains-append, has) refl, busy)
    | inr unbounded ↦ rw (new, unbounded) (rw (contains-append, h.0) refl, h.1)
  ]
]

-- The sessions that requests for several threads open, one after the other.
unfoldable pub get_sessions : ℕ → List (ℕ × String) → Pool → Pool
get_sessions most [] p = p
get_sessions most ((now, t) ∷ ts) p = get_sessions most ts (get_session most now t p)

-- However many sessions are opened for other threads and whatever the cap on them is, a thread that
-- runs a turn or waits for an approval keeps its session, and stays marked as busy.
pub get_sessions-keeps_busy :
    (most : ℕ) (ts : List (ℕ × String)) (p : Pool) (u : String)
    → contains p.sessions u ≡ true
    → is_busy p u ≡ true
    → (contains (get_sessions most ts p).sessions u ≡ true)
      × (is_busy (get_sessions most ts p) u ≡ true)
unfolding get_sessions
get_sessions-keeps_busy most [] p u has busy = (has, busy)
get_sessions-keeps_busy most ((now, t) ∷ ts) p u has busy =
    let (has', busy') = get_session-Held most now t p u (has, busy) in
    get_sessions-keeps_busy most ts (get_session most now t p) u has' busy'
