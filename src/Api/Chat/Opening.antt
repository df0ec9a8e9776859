-- ===== src/Api/Chat/Opening.antt =====
-- What opening a session does to the paused threads: whoever is evicted to make room is none of them.
use dev_ops_copilot.Base.{
  ℕ, zero, suc, ◌+◌, ◌≡◌, refl, String, true, false, Option, none, List, contains, ltb, leb, length,
  string_eq, arith, Bool-cases, Option-cases, inl, inr, eq_refl, contains-append,
}
use dev_ops_copilot.Api.{ApiSettings}
use dev_ops_copilot.Api.Sessions.{Pool, evict, is_busy, evictable_thread, make_room, get_session}
use dev_ops_copilot.Api.Sessions.Eviction.{evictable_thread_lem}
use dev_ops_copilot.Api.Chat.{Turn, open_session}
use dev_ops_copilot.Api.Chat.Marks.{Keeps, Keeps-unmark, Keeps-drop}

evict-Keeps :
    (ps : List String) (t : String) (p : Pool)
    → is_busy p t ≡ false
    → Keeps ps p.sessions p.awaiting
    → Keeps ps (evict t p).sessions (evict t p).awaiting
unfolding evict
evict-Keeps ps t p free k =
    Keeps-drop t ps p.sessions _ out (Keeps-unmark t ps p.sessions p.awaiting out k)
  where
    out : contains ps t ≡ false
    out = elim (Bool-cases (contains ps t)) [
      | inl within ↦
          let marked : contains p.awaiting t ≡ true = (k t within).1 in ground (arith, free, marked)
      | inr outside ↦ outside
    ]

make_room-Keeps :
    (ps : List String) (rounds most : ℕ) (p : Pool)
    → Keeps ps p.sessions p.awaiting
    → Keeps ps (make_room rounds most p).sessions (make_room rounds most p).awaiting
unfolding make_room
make_room-Keeps ps zero most p k = k
make_room-Keeps ps (suc rounds) most p k = elim (Bool-cases (leb most (length p.sessions))) [
  | inr small ↦ rw small k
  | inl full ↦ elim (Option-cases (evictable_thread p)) [
    | inl nobody ↦ rw (full, nobody) k
    | inr (t, chosen) ↦
        rw (full, chosen)
          (make_room-Keeps ps rounds most (evict t p)
            (evict-Keeps ps t p (evictable_thread_lem p t chosen).1 k))
  ]
]

get_session-Keeps :
    (ps : List String) (most now : ℕ) (t : String) (p : Pool)
    → Keeps ps p.sessions p.awaiting
    → Keeps ps (get_session most now t p).sessions (get_session most now t p).awaiting
unfolding get_session
get_session-Keeps ps most now t p k = elim (Bool-cases (contains p.sessions t)) [
  | inl there ↦ rw there k
  | inr new ↦ elim (Bool-cases (ltb 0 most)) [
    | inl bounded ↦
        let k' = make_room-Keeps ps (suc (length p.sessions)) most p k in
        rw (new, bounded) λ u h. (rw (contains-append, (k' u h).0) refl, (k' u h).1)
    | inr unbounded ↦ rw (new, unbounded) λ u h. (rw (contains-append, (k u h).0) refl, (k u h).1)
  ]
]

get_session-opens :
    (most now : ℕ) (t : String) (p : Pool) → contains (get_session most now t p).sessions t ≡ true
unfolding get_session
get_session-opens most now t p = elim (Bool-cases (contains p.sessions t)) [
  | inl there ↦ rw there there
  | inr new ↦ rw new (rw contains-append (ground (arith, eq_refl t)))
]

-- What opening a session keeps, and that it opens one where there is no error.
abbrev pub Opens : List String → String → Pool × Option String → Type 0
Opens ps t (p, error) =
    Keeps ps p.sessions p.awaiting × (error ≡ none → contains p.sessions t ≡ true)

pub open_session-Opens :
    (settings : ApiSettings) (turn : Turn) (ps : List String) (t : String) (p : Pool)
    → Keeps ps p.sessions p.awaiting
    → Opens ps t (open_session settings turn t p)
unfolding open_session
open_session-Opens settings turn ps t p k = elim (Bool-cases (contains p.sessions t)) [
  | inl there ↦ rw there (k, λ e. there)
  | inr new ↦ elim (Option-cases turn.unbuildable) [
    | inl builds ↦
        rw (new, builds)
          (
            get_session-Keeps ps settings.max_sessions turn.now t p k,
            λ e. get_session-opens settings.max_sessions turn.now t p,
          )
    | inr (text, fails) ↦ elim (Bool-cases (ltb 0 settings.max_sessions)) [
      | inl bounded ↦
          rw (new, fails, bounded)
            (make_room-Keeps ps (1 + length p.sessions) settings.max_sessions p k, λ e. cc)
      | inr unbounded ↦ rw (new, fails, unbounded) (k, λ e. cc)
    ]
  ]
]
