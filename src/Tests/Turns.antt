-- ===== src/Tests/Turns.antt =====
-- The theorems on the turns of a process, at small systems and pools.
use dev_ops_copilot.Base.{ℕ, ◌≡◌, refl, true, false, List, [], ◌∷◌, string_eq, any_of, ◌⊎◌}
use dev_ops_copilot.Api.Sessions.{Pool, evict, evictable_thread, get_session}
use dev_ops_copilot.Api.Gate.{
  Action, begin_turn, begin_exclusive, proceed, cancel, turn_waiting, outside, run, start, schedule,
  in_turn, advance, exclusive_waiting,
}
use dev_ops_copilot.Api.Gate.Exclusion.{
  run-refines_lock, run_excludes, SystemStep, running_turns, running_exclusives,
}
use dev_ops_copilot.Api.Gate.Progress.{run_wakes, Rightly, is_ready}

-- A turn runs, a change of the configuration waits for it, and a second turn waits for that.
abbrev queued : List (ℕ × Action)
queued = (0, begin_turn) ∷ (1, begin_exclusive) ∷ (2, begin_turn) ∷ []

queued_test : run (start 3) queued ≡ record {
  gate = record { readers = 1; writer = false; writers_waiting = 1 };
  tasks = in_turn ∷ exclusive_waiting true ∷ turn_waiting true ∷ [];
}
unfolding run advance
queued_test = refl

run-refines_lock_example :
    SystemStep (run (start 3) queued) (schedule (run (start 3) queued) (0, proceed))
run-refines_lock_example = run-refines_lock 3 queued (0, proceed)

run_excludes_example :
    (running_exclusives (run (start 3) queued) ≡ 0)
    ⊎ ((running_exclusives (run (start 3) queued) ≡ 1) × (running_turns (run (start 3) queued) ≡ 0))
run_excludes_example = run_excludes 3 queued

run_wakes_example :
    Rightly (run (start 3) queued).gate (turn_waiting true)
    × (any_of is_ready (run (start 3) queued).tasks ≡ true)
unfolding run advance
run_wakes_example = run_wakes 3 queued 2 (turn_waiting true) refl refl refl

-- The waiting writer is woken by the end of the turn and cancelled before it runs: the turn that
-- waited for it sleeps on, though the gate would let it in and nothing is left that wakes it.
stranded_test :
    run
      (start 3)
      ((0, begin_turn) ∷ (1, begin_exclusive) ∷ (0, proceed) ∷ (2, begin_turn) ∷ (1, cancel) ∷ [])
    ≡ record {
      gate = record { readers = 0; writer = false; writers_waiting = 0 };
      tasks = outside ∷ outside ∷ turn_waiting true ∷ [];
    }
unfolding run advance
stranded_test = refl

-- One thread runs a turn, one waits for an approval, two are idle.
abbrev pool : Pool
pool = record {
  sessions = "a" ∷ "b" ∷ "c" ∷ "d" ∷ [];
  running = "a" ∷ [];
  awaiting = "b" ∷ [];
  last_used = ("a", 1) ∷ ("b", 2) ∷ ("c", 9) ∷ ("d", 4) ∷ [];
}

get_session_test : (get_session 3 10 "e" pool).sessions ≡ "a" ∷ "b" ∷ "e" ∷ []
unfolding get_session evictable_thread evict
get_session_test = refl
