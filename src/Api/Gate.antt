-- ===== src/Api/Gate.antt =====
-- `_ConfigGate` (app/api/main.py): turns are its readers, a change of the configuration its writer.
-- A task runs until it waits, so what it does under the condition's lock is one step; the order of
-- the steps is the schedule's. `asleep` is a wait that no `notify_all` has ended yet.
pub mod Counts
pub mod Exclusion
pub mod Progress
use dev_ops_copilot.Base.{
  ℕ, zero, suc, ◌+◌, ◌-◌, Bool, true, false, List, [], ◌∷◌, ◌||◌, ltb, eqb, map, if◌then◌else◌,
  Option, none, some, get_elem?,
}

pub record Gate : Type 0 where
  pub readers : ℕ
  pub writer : Bool
  pub writers_waiting : ℕ

-- `__init__`
abbrev pub new : Gate
new = record { readers = 0; writer = false; writers_waiting = 0 }

-- Where a task stands.
pub data Task : Type 0 where
  outside : Task
  turn_waiting : (asleep : Bool) → Task
  in_turn : Task
  exclusive_waiting : (asleep : Bool) → Task
  in_exclusive : Task

-- What a task does when it is scheduled: enter `turn()`, enter `exclusive()`, go on, or be
-- cancelled.
pub data Action : Type 0 where
  begin_turn begin_exclusive proceed cancel : Action

-- The gate, the task, and whether `notify_all` is called.
abbrev pub Outcome : Type 0
Outcome = Gate × Task × Bool

-- The loop of `turn` from its test on.
unfoldable pub try_turn : Gate → Outcome
try_turn g =
    if g.writer || ltb 0 g.writers_waiting
    then (g, turn_waiting true, false)
    else (record g { readers = g.readers + 1 }, in_turn, false)

-- The loop of `exclusive` from its test on; the task is counted among the waiting writers.
unfoldable pub try_exclusive : Gate → Outcome
try_exclusive g =
    if g.writer || ltb 0 g.readers
    then (g, exclusive_waiting true, false)
    else (record g { writer = true; writers_waiting = g.writers_waiting - 1 }, in_exclusive, false)

-- The `finally` of `turn`.
unfoldable pub leave_turn : Gate → Outcome
leave_turn g = (record g { readers = g.readers - 1 }, outside, eqb (g.readers - 1) 0)

-- The `finally` of `exclusive`.
unfoldable pub leave_exclusive : Gate → Outcome
leave_exclusive g = (record g { writer = false }, outside, true)

-- One step of one task. A cancellation inside the block leaves it as its end does; in the loop of
-- `exclusive` the count of waiting writers goes down and nobody is notified.
unfoldable pub advance : Gate → Action → Task → Outcome
unfolding try_turn try_exclusive leave_turn leave_exclusive
advance g begin_turn outside = try_turn g
advance g begin_exclusive outside =
    try_exclusive (record g { writers_waiting = g.writers_waiting + 1 })
advance g proceed (turn_waiting false) = try_turn g
advance g cancel (turn_waiting asleep) = (g, outside, false)
advance g proceed (exclusive_waiting false) = try_exclusive g
advance g cancel (exclusive_waiting asleep) =
    (record g { writers_waiting = g.writers_waiting - 1 }, outside, false)
advance g proceed in_turn = leave_turn g
advance g cancel in_turn = leave_turn g
advance g proceed in_exclusive = leave_exclusive g
advance g cancel in_exclusive = leave_exclusive g
advance g _ t = (g, t, false)

-- `notify_all`
abbrev pub wake : Task → Task
wake (turn_waiting _) = turn_waiting false
wake (exclusive_waiting _) = exclusive_waiting false
wake t = t

abbrev pub set : List Task → ℕ → Task → List Task
set [] i t = []
set (x ∷ xs) zero t = t ∷ xs
set (x ∷ xs) (suc i) t = x ∷ set xs i t

pub record System : Type 0 where
  pub gate : Gate
  pub tasks : List Task

abbrev pub settle : List Task → ℕ → Outcome → System
settle ts i (g, t, notify) = record {
  gate = g;
  tasks = if notify then map wake (set ts i t) else set ts i t;
}

abbrev pub schedule_or : System → ℕ → Action → Option Task → System
schedule_or s i a none = s
schedule_or s i a (some t) = settle s.tasks i (advance s.gate a t)

-- The `i`-th task is scheduled.
unfoldable pub schedule : System → ℕ × Action → System
schedule s (i, a) = schedule_or s i a (get_elem? s.tasks i)

unfoldable pub run : System → List (ℕ × Action) → System
unfolding schedule
run s [] = s
run s (e ∷ es) = run (schedule s e) es

abbrev pub all_outside : ℕ → List Task
all_outside zero = []
all_outside (suc n) = outside ∷ all_outside n

abbrev pub start : ℕ → System
start n = record { gate = new; tasks = all_outside n }
