-- ===== src/Api/Gate/Exclusion.antt =====
-- The gate is a reader-writer lock.
use dev_ops_copilot.Base.{
  ℕ, ◌+◌, ◌≤◌, ◌≡◌, refl, false, List, arith, ltb, get_elem?, ◌||◌, Option-cases, inl, inr, ◌⊎◌,
  Bool-cases,
}
use dev_ops_copilot.Api.Gate.{
  Gate, Task, outside, turn_waiting, in_turn, exclusive_waiting, in_exclusive, Action, begin_turn,
  begin_exclusive, proceed, cancel, advance, System, schedule, run, start, try_turn, try_exclusive,
  leave_turn, leave_exclusive,
}
use dev_ops_copilot.Api.Gate.Counts.{
  count, turns, exclusives, bit, Counted, count-at, schedule-Counted, start-Counted, run-Counted,
}

-- What a reader-writer lock lets happen, on the numbers of turns and of exclusive blocks that run.
pub data LockStep (turns exclusives turns' exclusives' : ℕ) : Type 0 where
  stays : turns' ≡ turns → exclusives' ≡ exclusives → LockStep turns exclusives turns' exclusives'
  turn_begins :
      exclusives ≡ 0
      → turns' ≡ turns + 1
      → exclusives' ≡ 0
      → LockStep turns exclusives turns' exclusives'
  turn_ends :
      turns' + 1 ≡ turns → exclusives' ≡ exclusives → LockStep turns exclusives turns' exclusives'
  exclusive_begins :
      turns ≡ 0
      → exclusives ≡ 0
      → turns' ≡ 0
      → exclusives' ≡ 1
      → LockStep turns exclusives turns' exclusives'
  exclusive_ends :
      exclusives ≡ 1
      → turns' ≡ turns
      → exclusives' ≡ 0
      → LockStep turns exclusives turns' exclusives'

abbrev GateStep : Gate → Gate → Type 0
GateStep g h = LockStep g.readers (bit g.writer) h.readers (bit h.writer)

try_turn-step : (g : Gate) → GateStep g (try_turn g).0
unfolding try_turn
try_turn-step g = elim (Bool-cases (g.writer || ltb 0 g.writers_waiting)) [
  | inl shut ↦ rw shut (stays refl refl)
  | inr free ↦ rw free (turn_begins (ground arith) refl (ground arith))
]

try_exclusive-step : (g : Gate) → GateStep g (try_exclusive g).0
unfolding try_exclusive
try_exclusive-step g = elim (Bool-cases (g.writer || ltb 0 g.readers)) [
  | inl busy ↦ rw busy (stays refl refl)
  | inr free ↦ rw free (exclusive_begins (ground arith) (ground arith) (ground arith) refl)
]

advance-step :
    (g : Gate) (a : Action) (t : Task)
    → turns t ≤ g.readers
    → exclusives t ≤ bit g.writer
    → GateStep g (advance g a t).0
unfolding advance leave_turn leave_exclusive
advance-step g begin_turn outside h k = try_turn-step g
advance-step g begin_exclusive outside h k =
    try_exclusive-step (record g { writers_waiting = g.writers_waiting + 1 })
advance-step g proceed (turn_waiting false) h k = try_turn-step g
advance-step g proceed (exclusive_waiting false) h k = try_exclusive-step g
advance-step g proceed in_turn h k = turn_ends (omega arith) refl
advance-step g cancel in_turn h k = turn_ends (omega arith) refl
advance-step g proceed in_exclusive h k = exclusive_ends (ground arith) refl refl
advance-step g cancel in_exclusive h k = exclusive_ends (ground arith) refl refl
advance-step g a t h k = stays (ground arith) (ground arith)

-- The blocks that run: turns, and exclusive ones.
abbrev pub running_turns : System → ℕ
running_turns s = count turns s.tasks

abbrev pub running_exclusives : System → ℕ
running_exclusives s = count exclusives s.tasks

abbrev pub SystemStep : System → System → Type 0
SystemStep s s' =
    LockStep (running_turns s) (running_exclusives s) (running_turns s') (running_exclusives s')

schedule-gate : (s : System) (e : ℕ × Action) → Counted s → GateStep s.gate (schedule s e).gate
unfolding schedule
schedule-gate s (i, a) c = elim (Option-cases (get_elem? s.tasks i)) [
  | inl out ↦ rw out (stays refl refl)
  | inr (t, at) ↦ rw at (
      advance-step s.gate a t (omega (arith, count-at turns s.tasks i t at, c.turns_counted))
        (omega (arith, count-at exclusives s.tasks i t at, c.exclusive_counted)))
]

schedule-step : (s : System) (e : ℕ × Action) → Counted s → SystemStep s (schedule s e)
schedule-step s e c =
    rw (← c.turns_counted, ← c.exclusive_counted, ← c'.turns_counted, ← c'.exclusive_counted)
      (schedule-gate s e c)
  where
    c' : Counted (schedule s e)
    c' = schedule-Counted s e c

-- However the steps of any number of tasks interleave, cancellations included, each step changes
-- the numbers of running turns and of running exclusive blocks only as a reader-writer lock allows:
-- it leaves them, a turn begins while no exclusive block runs, an exclusive block begins while
-- nothing runs, or one of them ends.
pub run-refines_lock :
    (n : ℕ) (es : List (ℕ × Action)) (e : ℕ × Action)
    → SystemStep (run (start n) es) (schedule (run (start n) es) e)
run-refines_lock n es e =
    schedule-step (run (start n) es) e (run-Counted (start n) es (start-Counted n))

excluded :
    (s : System)
    → Counted s
    → (running_exclusives s ≡ 0) ⊎ ((running_exclusives s ≡ 1) × (running_turns s ≡ 0))
excluded s c = elim (Bool-cases s.gate.writer) [
  | inl busy ↦
      inr
        (ground (arith, c.exclusive_counted, busy), ground (arith, c.turns_counted, c.alone, busy))
  | inr free ↦ inl (ground (arith, c.exclusive_counted, free))
]

-- However the steps of any number of tasks interleave, cancellations included, at most one
-- exclusive block runs, and while it does no turn runs.
pub run_excludes :
    (n : ℕ) (es : List (ℕ × Action))
    → (running_exclusives (run (start n) es) ≡ 0)
      ⊎ ((running_exclusives (run (start n) es) ≡ 1) × (running_turns (run (start n) es) ≡ 0))
run_excludes n es = excluded (run (start n) es) (run-Counted (start n) es (start-Counted n))
