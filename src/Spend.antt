-- ===== src/Spend.antt =====
-- The fleet-wide token cap (app/spend.py), with the in-memory tracker. Times are whole numbers of
-- one unit; the soft threshold is a fraction of two whole numbers.
use dev_ops_copilot.Base.{
  ℕ, ◌+◌, ◌*◌, ◌<◌, ◌≡◌, Bool, true, List, [], ◌∷◌, ◌&&◌, ltb, leb, All, arith, if◌then◌else◌, ap,
  ◌∙◌,
}
use dev_ops_copilot.Base.Int.{ℤ, pos, negsuc}

unfoldable pub over_cap : ℕ → ℕ → Bool
over_cap total cap = ltb 0 cap && leb cap total

-- `total >= cap * fraction`, for `fraction = num / den`.
unfoldable pub alert_due : ℕ → ℕ → ℕ → ℕ → Bool
alert_due total cap num den = ltb 0 cap && leb (cap * num) (total * den)

pub record Tracker : Type 0 where
  pub window : ℕ
  pub start : ℕ
  pub total : ℕ

-- `_roll`, at `now`.
unfoldable pub roll : ℕ → Tracker → Tracker
roll now t = if leb (t.start + t.window) now then record t { start = now; total = 0 } else t

-- `max(0, int(tokens or 0))`
abbrev pub spent : ℤ → ℕ
spent (pos n) = n
spent (negsuc n) = 0

unfoldable pub total : ℕ → Tracker → Tracker × ℕ
unfolding roll
total now t = let t' = roll now t in (t', t'.total)

unfoldable pub record_tokens : ℕ → ℤ → Tracker → Tracker × ℕ
unfolding roll
record_tokens now tokens t =
    let t' = roll now t in let sum = t'.total + spent tokens in (record t' { total = sum }, sum)

-- A sequence of recordings, each with its time.
unfoldable pub record_all : List (ℕ × ℤ) → Tracker → Tracker
unfolding record_tokens
record_all [] t = t
record_all ((now, tokens) ∷ rs) t = record_all rs (record_tokens now tokens t).0

abbrev pub sum_spent : List (ℕ × ℤ) → ℕ
sum_spent [] = 0
sum_spent ((_, tokens) ∷ rs) = spent tokens + sum_spent rs

roll_early : (now : ℕ) (t : Tracker) → now < t.start + t.window → roll now t ≡ t
unfolding roll
roll_early now t early = ground arith

-- Within one window the total is the sum of what was recorded, negative amounts counting as
-- nothing, and the window stays where it started.
record_all-total :
    (rs : List (ℕ × ℤ)) (t : Tracker)
    → All (λ (now, _). now < t.start + t.window) rs
    → record_all rs t ≡ record t { total = t.total + sum_spent rs }
unfolding record_all
record_all-total [] t h = ground arith
record_all-total ((now, tokens) ∷ rs) t (early, h) = rw (roll_early now t early) (
    record_all-total rs (record t { total = t.total + spent tokens }) h
    ∙ ap (λ n. record t { total = n }) (omega arith))

-- Once the cap is reached, it stays reached for the rest of the window, whatever is recorded.
over_cap-record_all :
    (cap : ℕ) (rs : List (ℕ × ℤ)) (t : Tracker)
    → All (λ (now, _). now < t.start + t.window) rs
    → over_cap t.total cap ≡ true
    → over_cap (record_all rs t).total cap ≡ true
unfolding over_cap
over_cap-record_all cap rs t h over =
    ground (arith, ap (λ (r : Tracker). r.total) (record_all-total rs t h))
