-- ===== src/JobQueue.antt =====
-- The job queue with bounded retries and a dead-letter list (app/jobqueue.py). Delays are in half
-- seconds; the handler is a parameter, which says whether a job's run returns.
pub mod Laws
use dev_ops_copilot.Base.{
  ℕ, zero, suc, ◌+◌, ◌-◌, ◌^◌, min, String, Bool, true, false, List, [], ◌∷◌, ◌++◌, leb,
  if◌then◌else◌,
}

pub record Job : Type 0 where
  pub kind : String
  pub payload : String
  pub attempts : ℕ
  pub id : String

-- `InMemoryJobQueue`, with the jobs that were handled.
pub record Queue : Type 0 where
  pub q : List Job
  pub dead_letter : List Job

unfoldable pub enqueue : Job → Queue → Queue
enqueue job s = record s { q = s.q ++ job ∷ [] }

unfoldable pub to_dead_letter : Job → Queue → Queue
to_dead_letter job s = record s { dead_letter = s.dead_letter ++ job ∷ [] }

pub data Outcome : Type 0 where
  -- `dequeue` waits while the queue is empty
  waiting : Outcome
  done : Job → Outcome
  -- with the delay before the job is enqueued again
  retried : ℕ → Outcome
  dead : Outcome

-- `min(30.0, 0.5 * 2 ** (attempts - 1))`, in half seconds.
abbrev backoff : ℕ → ℕ
backoff attempts = min 60 (2 ^ (attempts - 1))

module _ (handler : Job → Bool) (max_attempts : ℕ) where
  unfoldable pub process : Job → Queue → Queue × Outcome
  unfolding enqueue to_dead_letter
  process job rest =
      let failed = record job { attempts = job.attempts + 1 } in
      if handler job
      then (rest, done job)
      else if leb max_attempts failed.attempts
      then (to_dead_letter failed rest, dead)
      else (enqueue failed rest, retried (backoff failed.attempts))

  unfoldable pub process_one : Queue → Queue × Outcome
  unfolding process
  process_one s = elim s.q [ [] ↦ (s, waiting) | job ∷ jobs ↦ process job (record s { q = jobs }) ]
