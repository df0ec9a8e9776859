-- ===== src/JobQueue/Laws.antt =====
-- The laws of the queue's worker (app/jobqueue.py: process_one, run_worker).
use dev_ops_copilot.Base.{
  ℕ, zero, suc, ◌+◌, ◌-◌, ◌≤◌, ◌<◌, ◌≡◌, refl, ◌∙◌, max, String, Bool, List, [], ◌∷◌, ◌++◌, leb,
  ◌==◌, string_eq, arith, Bool-cases, inl, inr, if◌then◌else◌, ap,
}
use dev_ops_copilot.JobQueue.{Job, Queue, Outcome, waiting, done, process, process_one}

-- How often an id occurs among the jobs.
abbrev pub count : String → List Job → ℕ
count i [] = 0
count i (j ∷ js) = (if j.id == i then 1 else 0) + count i js

count-append : (i : String) (xs ys : List Job) → count i (xs ++ ys) ≡ count i xs + count i ys
count-append i [] ys = omega arith
count-append i (x ∷ xs) ys = omega (arith, count-append i xs ys)

-- The jobs handled by a step.
abbrev pub handled : Outcome → List Job
handled (done j) = j ∷ []
handled _ = []

module _ (handler : Job → Bool) (max_attempts : ℕ) where
  -- The first steps of the worker's loop, with the jobs that they handled.
  unfoldable pub work : ℕ → Queue → Queue × List Job
  work zero s = (s, [])
  work (suc n) s =
      let (s', o) = process_one handler max_attempts s in
      let (s'', js) = work n s' in (s'', handled o ++ js)

  -- The runs that the queued jobs may still take: each at least one.
  abbrev pub runs_left : List Job → ℕ
  runs_left [] = 0
  runs_left (j ∷ js) = max 1 (max_attempts - j.attempts) + runs_left js

  runs_left-append : (xs ys : List Job) → runs_left (xs ++ ys) ≡ runs_left xs + runs_left ys
  runs_left-append [] ys = omega arith
  runs_left-append (x ∷ xs) ys = omega (arith, runs_left-append xs ys)

  process_conserves :
      (i : String) (j : Job) (s : Queue)
      → let (s', o) = process handler max_attempts j s in
        count i s'.q + count i s'.dead_letter + count i (handled o)
        ≡ count i (j ∷ s.q) + count i s.dead_letter
  unfolding process
  process_conserves i j s = elim (Bool-cases (handler j)) [
    | inl ok ↦ rw ok (omega arith)
    | inr bad ↦ rw bad (elim (Bool-cases (leb max_attempts (j.attempts + 1))) [
      | inl last ↦ rw last (omega (arith, count-append i s.dead_letter _))
      | inr again ↦ rw again (omega (arith, count-append i s.q _))
    ])
  ]

  process_shrinks :
      (j : Job) (s : Queue) → runs_left (process handler max_attempts j s).0.q < runs_left (j ∷ s.q)
  unfolding process
  process_shrinks j s = elim (Bool-cases (handler j)) [
    | inl ok ↦ rw ok (omega arith)
    | inr bad ↦ rw bad (elim (Bool-cases (leb max_attempts (j.attempts + 1))) [
      | inl last ↦ rw last (omega arith)
      | inr again ↦ rw again (rw (runs_left-append s.q) (ground arith))
    ])
  ]

  process_one-nil : (s : Queue) → s.q ≡ [] → process_one handler max_attempts s ≡ (s, waiting)
  unfolding process_one
  process_one-nil s h = simp (h, process_one) refl

  process_one-cons :
      (s : Queue) (j : Job) (js : List Job)
      → s.q ≡ j ∷ js
      → process_one handler max_attempts s ≡ process handler max_attempts j (record s { q = js })
  unfolding process_one
  process_one-cons s j js h = rw (h, process_one) refl

  step_conserves :
      (i : String) (s : Queue)
      → let (s', o) = process_one handler max_attempts s in
        count i s'.q + count i s'.dead_letter + count i (handled o)
        ≡ count i s.q + count i s.dead_letter
  step_conserves i s = go s.q refl
    where
      go :
          (js : List Job)
          → s.q ≡ js
          → let (s', o) = process_one handler max_attempts s in
            count i s'.q + count i s'.dead_letter + count i (handled o)
            ≡ count i s.q + count i s.dead_letter
      go [] e = rw (process_one-nil s e) (omega arith)
      go (j ∷ js) e =
          rw (process_one-cons s j js e) (process_conserves i j (record s { q = js }) ∙ rw e refl)

  step_shrinks :
      (s : Queue) (n : ℕ)
      → runs_left s.q ≤ suc n
      → runs_left (process_one handler max_attempts s).0.q ≤ n
  step_shrinks s n h = go s.q refl
    where
      go : (js : List Job) → s.q ≡ js → runs_left (process_one handler max_attempts s).0.q ≤ n
      go [] e = rw (process_one-nil s e) (rw e (omega arith))
      go (j ∷ js) e =
          rw (process_one-cons s j js e)
            (omega (arith, process_shrinks j (record s { q = js }), rw e at h))

  work_conserves :
      (i : String) (n : ℕ) (s : Queue)
      → count i (work n s).0.q + count i (work n s).0.dead_letter + count i (work n s).1
        ≡ count i s.q + count i s.dead_letter
  unfolding work
  work_conserves i zero s = omega arith
  work_conserves i (suc n) s = omega (
    arith,
    count-append i (handled (process_one handler max_attempts s).1)
        (work n (process_one handler max_attempts s).0).1,
    step_conserves i s,
    work_conserves i n (process_one handler max_attempts s).0,
  )

  work_empties : (n : ℕ) (s : Queue) → runs_left s.q ≤ n → (work n s).0.q ≡ []
  unfolding work
  work_empties zero s h = nothing_left s.q h
    where
      nothing_left : (js : List Job) → runs_left js ≤ 0 → js ≡ []
      nothing_left [] h = refl
      nothing_left (j ∷ js) h = absurd (omega arith)
  work_empties (suc n) s h = work_empties n _ (step_shrinks s n h)

  -- After as many steps as the queued jobs have runs left, the queue is empty, and every id is
  -- among the handled and the dead-lettered jobs as often as it was in the queue and in the
  -- dead-letter list before: no job is lost, duplicated or retried for ever.
  pub work_settles :
      (n : ℕ) (s : Queue) (i : String)
      → runs_left s.q ≤ n
      → ((work n s).0.q ≡ [])
        × (count i (work n s).1 + count i (work n s).0.dead_letter
            ≡ count i s.q + count i s.dead_letter)
  work_settles n s i h =
      let empty = work_empties n s h in
      (empty, omega (arith, work_conserves i n s, ap (count i) empty))
