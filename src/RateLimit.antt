-- ===== src/RateLimit.antt =====
-- The fixed-window rate limiter of one process (app/ratelimit.py). Times are whole numbers of one
-- unit; `now - start >= window` is tested without the difference, which may be negative.
pub mod Laws
use dev_ops_copilot.Base.{
  ℕ, ◌+◌, String, Bool, true, false, Option, none, some, List, [], ◌∷◌, not, ltb, leb, length, keep,
  ◌==◌, string_eq, if◌then◌else◌,
}
use dev_ops_copilot.Base.Dict.{Dict, lookup, get_or, insert}

-- A window's start and its count.
abbrev pub Window : Type 0
Window = ℕ × ℕ

abbrev pub Store : Type 0
Store = Dict String Window

abbrev pub elapsed : ℕ → ℕ → ℕ → Bool
elapsed now window start = leb (start + window) now

-- The entries whose window has elapsed are dropped once the store is too large.
unfoldable pub evict : ℕ → ℕ → ℕ → Store → Store
evict max_keys now window store =
    if ltb max_keys (length store)
    then keep (λ (_, w). not (elapsed now window w.0)) store
    else store

-- The window that a hit at `now` counts in, with the hit.
unfoldable pub count_hit : ℕ → ℕ → Window → Window
count_hit now window (start, count) =
    if elapsed now window start then (now, 1) else (start, count + 1)

unfoldable pub over_limit : ℕ → ℕ → String → ℕ → ℕ → Store → Store × Bool
unfolding evict count_hit
over_limit max_keys now key limit window store =
    let kept = evict max_keys now window store in
    let hit = count_hit now window (get_or key (now, 0) kept) in
    (insert key hit kept, ltb limit hit.1)
