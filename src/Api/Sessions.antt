-- ===== src/Api/Sessions.antt =====
-- The pool of live sessions (app/api/main.py: _SESSIONS, _RUNNING, _AWAITING, _LAST_USED). A session
-- is the thread's id that it is kept under; what `_evict` and `_get_session` do is one step, since
-- the lock on the creation of sessions is held; a time is a number of ticks.
pub mod Eviction
pub mod Capacity
use dev_ops_copilot.Base.{
  ℕ, zero, suc, Bool, true, false, List, [], ◌∷◌, ◌++◌, ◌&&◌, ◌||◌, not, leb, ltb, keep, contains,
  length, if◌then◌else◌, Option, none, some, String, ◌==◌, string_eq, Option,
}
use dev_ops_copilot.Base.Dict.{Dict, get_or, insert}

pub record Pool : Type 0 where
  pub sessions : List String
  pub running : List String
  pub awaiting : List String
  pub last_used : Dict String ℕ

-- `s.discard(x)`, and `d.pop(x, None)` on the keys of a dict.
abbrev pub discard : String → List String → List String
discard x s = keep (λ y. not (y == x)) s

-- `s.add(x)`
abbrev pub add : String → List String → List String
add x s = if contains s x then s else s ++ x ∷ []

-- `d.pop(k, None)`
abbrev pub pop : String → Dict String ℕ → Dict String ℕ
pop k d = keep (λ (e : String × ℕ). not (e.0 == k)) d

-- `_evict`; a lock of the thread and the subprocesses of the session go with it.
unfoldable pub evict : String → Pool → Pool
evict thread_id p = record p {
  sessions = discard thread_id p.sessions;
  awaiting = discard thread_id p.awaiting;
  last_used = pop thread_id p.last_used;
}

abbrev pub is_busy : Pool → String → Bool
is_busy p t = contains p.running t || contains p.awaiting t

abbrev pub used_at : Pool → String → ℕ
used_at p t = get_or t 0 p.last_used

-- `min(ts, key=…)` with `t` the best so far: the first of the least.
abbrev pub least_used : Pool → String → List String → String
least_used p t [] = t
least_used p t (u ∷ us) = least_used p (if ltb (used_at p u) (used_at p t) then u else t) us

abbrev pub least_of : Pool → List String → Option String
least_of p [] = none
least_of p (t ∷ ts) = some (least_used p t ts)

abbrev pub idle : Pool → List String
idle p = keep (λ t. not (is_busy p t)) p.sessions

-- `_evictable_thread`
unfoldable pub evictable_thread : Pool → Option String
evictable_thread p = least_of p (idle p)

-- The loop of `_get_session` that makes room, for a cap that is not 0. Each round but the last drops
-- a session, so that as many rounds as there are sessions are enough.
unfoldable pub make_room : ℕ → ℕ → Pool → Pool
make_room zero most p = p
make_room (suc rounds) most p =
    let next : Pool = elim (evictable_thread p) [
      | none ↦ p
      | some t ↦ make_room rounds most (evict t p)
    ] in
    if leb most (length p.sessions) then next else p

abbrev pub created : String → ℕ → Pool → Pool
created thread_id now p = record p {
  sessions = p.sessions ++ thread_id ∷ [];
  last_used = insert thread_id now p.last_used;
}

-- `_get_session`, where the creation of the session does not raise; a cap of 0 is no cap.
unfoldable pub get_session : ℕ → ℕ → String → Pool → Pool
unfolding make_room
get_session most now thread_id p =
    let room = if ltb 0 most then make_room (suc (length p.sessions)) most p else p in
    if contains p.sessions thread_id then p else created thread_id now room

-- The bookkeeping of `_running_turn`.
unfoldable pub begin_turn : String → Pool → Pool
begin_turn thread_id p = record p { running = add thread_id p.running }

unfoldable pub end_turn : ℕ → String → Pool → Pool
end_turn now thread_id p = record p {
  running = discard thread_id p.running;
  last_used = insert thread_id now p.last_used;
}
