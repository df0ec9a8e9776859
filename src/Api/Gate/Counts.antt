-- ===== src/Api/Gate/Counts.antt =====
-- The counts of the gate are those of the tasks, and a writer is alone.
use dev_ops_copilot.Base.{
  ℕ, zero, suc, ◌+◌, ◌≤◌, ◌≡◌, refl, Bool, true, false, List, [], ◌∷◌, map, arith, some, get_elem?,
  Option-cases, inl, inr, ◌⊎◌, sym,
}
use dev_ops_copilot.Api.Gate.{
  Gate, Task, outside, in_turn, exclusive_waiting, in_exclusive, Action, begin_turn, advance, wake,
  set, System, settle, schedule, run, all_outside, start, Outcome,
}

abbrev pub count : (Task → ℕ) → List Task → ℕ
count w [] = 0
count w (t ∷ ts) = w t + count w ts

abbrev pub turns : Task → ℕ
turns in_turn = 1
turns _ = 0

abbrev pub exclusives : Task → ℕ
exclusives in_exclusive = 1
exclusives _ = 0

abbrev pub waiters : Task → ℕ
waiters (exclusive_waiting _) = 1
waiters _ = 0

pub count-set :
    (w : Task → ℕ) (ts : List Task) (i : ℕ) (t u : Task)
    → get_elem? ts i ≡ some t
    → count w (set ts i u) + w t ≡ count w ts + w u
count-set w [] i t u h = cc
count-set w (x ∷ xs) zero t u h = let e : x ≡ t = cc in rw e (omega arith)
count-set w (x ∷ xs) (suc i) t u h = omega (arith, count-set w xs i t u h)

pub count-wake :
    (w : Task → ℕ) (same : (t : Task) → w (wake t) ≡ w t) (ts : List Task)
    → count w (map wake ts) ≡ count w ts
count-wake w same [] = refl
count-wake w same (t ∷ ts) = omega (arith, same t, count-wake w same ts)

turns-wake : (t : Task) → turns (wake t) ≡ turns t
turns-wake outside = refl
turns-wake t = refl

exclusives-wake : (t : Task) → exclusives (wake t) ≡ exclusives t
exclusives-wake outside = refl
exclusives-wake t = refl

waiters-wake : (t : Task) → waiters (wake t) ≡ waiters t
waiters-wake outside = refl
waiters-wake t = refl

abbrev pub bit : Bool → ℕ
bit true = 1
bit false = 0

-- What the gate has counted, and that a writer is alone.
pub record Counted (s : System) : Type 0 where
  pub turns_counted : s.gate.readers ≡ count turns s.tasks
  pub waiters_counted : s.gate.writers_waiting ≡ count waiters s.tasks
  pub exclusive_counted : bit s.gate.writer ≡ count exclusives s.tasks
  pub alone : (s.gate.writer ≡ false) ⊎ (s.gate.readers ≡ 0)

-- What a step of a task does to the counts: they move as the task does.
record Moved (g : Gate) (t : Task) (o : Outcome) : Type 0 where
  readers_moved : o.0.readers + turns t ≡ g.readers + turns o.1
  waiters_moved : o.0.writers_waiting + waiters t ≡ g.writers_waiting + waiters o.1
  writer_moved : bit o.0.writer + exclusives t ≡ bit g.writer + exclusives o.1
  stays_alone : (o.0.writer ≡ false) ⊎ (o.0.readers ≡ 0)

advance-Moved :
    (g : Gate) (a : Action) (t : Task)
    → turns t ≤ g.readers
    → waiters t ≤ g.writers_waiting
    → exclusives t ≤ bit g.writer
    → (g.writer ≡ false) ⊎ (g.readers ≡ 0)
    → Moved g t (advance g a t)
unfolding advance
advance-Moved g begin_turn outside h k l m = ground arith
advance-Moved g a t h k l m = ground arith

pub count-at :
    (w : Task → ℕ) (ts : List Task) (i : ℕ) (t : Task) → get_elem? ts i ≡ some t → w t ≤ count w ts
count-at w [] i t h = cc
count-at w (x ∷ xs) zero t h = let e : x ≡ t = cc in rw e (omega arith)
count-at w (x ∷ xs) (suc i) t h = omega (arith, count-at w xs i t h)

-- What `settle` leaves in a list of tasks, as far as it is counted.
settle-count :
    (w : Task → ℕ) (same : (t : Task) → w (wake t) ≡ w t) (ts : List Task) (i : ℕ) (t : Task)
    (o : Outcome)
    → get_elem? ts i ≡ some t
    → count w (settle ts i o).tasks + w t ≡ count w ts + w o.1
settle-count w same ts i t (g, u, true) h =
    rw (count-wake w same (set ts i u)) (count-set w ts i t u h)
settle-count w same ts i t (g, u, false) h = count-set w ts i t u h

schedule-Counted_at :
    (s : System) (i : ℕ) (a : Action) (t : Task)
    → get_elem? s.tasks i ≡ some t
    → Counted s
    → Counted (settle s.tasks i (advance s.gate a t))
schedule-Counted_at s i a t at c = record {
  turns_counted = omega (arith, moved.readers_moved, c.turns_counted, turns_settled);
  waiters_counted = omega (arith, moved.waiters_moved, c.waiters_counted, waiters_settled);
  exclusive_counted = omega (arith, moved.writer_moved, c.exclusive_counted, exclusives_settled);
  alone = moved.stays_alone;
}
  where
    turns_at : turns t ≤ s.gate.readers
    turns_at = omega (arith, count-at turns s.tasks i t at, c.turns_counted)

    waiters_at : waiters t ≤ s.gate.writers_waiting
    waiters_at = omega (arith, count-at waiters s.tasks i t at, c.waiters_counted)

    exclusives_at : exclusives t ≤ bit s.gate.writer
    exclusives_at = omega (arith, count-at exclusives s.tasks i t at, c.exclusive_counted)

    moved : Moved s.gate t (advance s.gate a t)
    moved = advance-Moved s.gate a t turns_at waiters_at exclusives_at c.alone

    turns_settled :
        count turns (settle s.tasks i (advance s.gate a t)).tasks + turns t
        ≡ count turns s.tasks + turns (advance s.gate a t).1
    turns_settled = settle-count turns turns-wake s.tasks i t (advance s.gate a t) at

    waiters_settled :
        count waiters (settle s.tasks i (advance s.gate a t)).tasks + waiters t
        ≡ count waiters s.tasks + waiters (advance s.gate a t).1
    waiters_settled = settle-count waiters waiters-wake s.tasks i t (advance s.gate a t) at

    exclusives_settled :
        count exclusives (settle s.tasks i (advance s.gate a t)).tasks + exclusives t
        ≡ count exclusives s.tasks + exclusives (advance s.gate a t).1
    exclusives_settled = settle-count exclusives exclusives-wake s.tasks i t (advance s.gate a t) at

pub schedule-Counted : (s : System) (e : ℕ × Action) → Counted s → Counted (schedule s e)
unfolding schedule
schedule-Counted s (i, a) c = elim (Option-cases (get_elem? s.tasks i)) [
  | inl out ↦ rw out c
  | inr (t, at) ↦ rw at (schedule-Counted_at s i a t at c)
]

pub start-Counted : (n : ℕ) → Counted (start n)
start-Counted n = record {
  turns_counted = sym (none_in turns refl n);
  waiters_counted = sym (none_in waiters refl n);
  exclusive_counted = sym (none_in exclusives refl n);
  alone = inl refl;
}
  where
    none_in : (w : Task → ℕ) → w outside ≡ 0 → (m : ℕ) → count w (all_outside m) ≡ 0
    none_in w z zero = refl
    none_in w z (suc m) = omega (arith, none_in w z m)

pub run-Counted : (s : System) (es : List (ℕ × Action)) → Counted s → Counted (run s es)
unfolding run
run-Counted s [] c = c
run-Counted s (e ∷ es) c = run-Counted (schedule s e) es (schedule-Counted s e c)
