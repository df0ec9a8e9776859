-- ===== src/Api/Gate/Progress.antt =====
-- No wake-up is lost while no task is cancelled in `exclusive`; a cancellation there can lose one.
use dev_ops_copilot.Base.{
  ℕ, zero, suc, ◌≤◌, ◌≡◌, refl, Bool, true, false, List, [], ◌∷◌, map, arith, ltb, some, get_elem?,
  ◌||◌, Option-cases, inl, inr, ◌⊎◌, Bool-cases, All, Bool, subst, any_of,
}
use dev_ops_copilot.Api.Gate.{
  Gate, new, Task, outside, turn_waiting, in_turn, exclusive_waiting, in_exclusive, Action,
  begin_turn, cancel, advance, wake, set, System, settle, schedule, run, all_outside, start,
  Outcome,
}
use dev_ops_copilot.Api.Gate.Counts.{
  Counted, count, turns, exclusives, waiters, schedule-Counted, start-Counted, count-at,
}

abbrev pub is_cancel : Action → Bool
is_cancel cancel = true
is_cancel _ = false

-- A task sleeps only while the gate refuses what it waits for.
abbrev pub Rightly : Gate → Task → Type 0
Rightly g (turn_waiting true) = (g.writer || ltb 0 g.writers_waiting) ≡ true
Rightly g (exclusive_waiting true) = (g.writer || ltb 0 g.readers) ≡ true
Rightly g _ = Unit {0}

-- What a step of another task does to a sleeper: it goes on sleeping rightly, or all are woken.
advance-Rightly :
    (g : Gate) (a : Action) (t u : Task)
    → is_cancel a ≡ false
    → turns t ≤ g.readers
    → Rightly g u
    → ((advance g a t).2 ≡ true) ⊎ Rightly (advance g a t).0 u
unfolding advance
advance-Rightly g begin_turn outside (turn_waiting true) kept h r = ground arith
advance-Rightly g a t u kept h r = ground arith

advance-Rightly_self :
    (g : Gate) (a : Action) (t : Task)
    → is_cancel a ≡ false
    → Rightly g t
    → Rightly (advance g a t).0 (advance g a t).1
unfolding advance
advance-Rightly_self g begin_turn outside kept r = ground arith
advance-Rightly_self g a t kept r = ground arith

wake-Rightly : (g : Gate) (t : Task) → Rightly g (wake t)
wake-Rightly g outside = tt
wake-Rightly g (turn_waiting asleep) = tt
wake-Rightly g in_turn = tt
wake-Rightly g (exclusive_waiting asleep) = tt
wake-Rightly g in_exclusive = tt

woken-Rightly : (g : Gate) (ts : List Task) → All (Rightly g) (map wake ts)
woken-Rightly g [] = tt
woken-Rightly g (t ∷ ts) = (wake-Rightly g t, woken-Rightly g ts)

All-set :
    (g : Gate) (ts : List Task) (i : ℕ) (t : Task)
    → All (Rightly g) ts
    → Rightly g t
    → All (Rightly g) (set ts i t)
All-set g [] i t h r = tt
All-set g (x ∷ xs) zero t h r = (r, h.1)
All-set g (x ∷ xs) (suc i) t h r = (h.0, All-set g xs i t h.1 r)

All-map :
    (g h : Gate) (f : (u : Task) → Rightly g u → Rightly h u) (ts : List Task)
    → All (Rightly g) ts
    → All (Rightly h) ts
All-map g h f [] a = tt
All-map g h f (t ∷ ts) a = (f t a.0, All-map g h f ts a.1)

All-get :
    (g : Gate) (ts : List Task) (i : ℕ) (t : Task)
    → All (Rightly g) ts
    → get_elem? ts i ≡ some t
    → Rightly g t
All-get g [] i t a h = cc
All-get g (x ∷ xs) zero t a h = let e : x ≡ t = cc in subst (Rightly g) e a.0
All-get g (x ∷ xs) (suc i) t a h = All-get g xs i t a.1 h

abbrev AllRight : System → Type 0
AllRight s = All (Rightly s.gate) s.tasks

settle-AllRight :
    (g : Gate) (ts : List Task) (i : ℕ) (o : Outcome)
    → ((u : Task) → Rightly g u → (o.2 ≡ true) ⊎ Rightly o.0 u)
    → Rightly o.0 o.1
    → All (Rightly g) ts
    → AllRight (settle ts i o)
settle-AllRight g ts i (h, t, true) others self a = woken-Rightly h (set ts i t)
settle-AllRight g ts i (h, t, false) others self a = All-set h ts i t (All-map g h kept ts a) self
  where
    kept : (u : Task) → Rightly g u → Rightly h u
    kept u r = elim (others u r) [ inl broken ↦ absurd (cc) | inr right ↦ right ]

schedule-AllRight :
    (s : System) (i : ℕ) (a : Action)
    → is_cancel a ≡ false
    → Counted s
    → AllRight s
    → AllRight (schedule s (i, a))
unfolding schedule
schedule-AllRight s i a kept c all = elim (Option-cases (get_elem? s.tasks i)) [
  | inl out ↦ rw out all
  | inr (t, at) ↦ rw at (
      settle-AllRight s.gate s.tasks i (advance s.gate a t)
        (λ u.
          advance-Rightly s.gate a t u kept
            (omega (arith, count-at turns s.tasks i t at, c.turns_counted)))
        (advance-Rightly_self s.gate a t kept (All-get s.gate s.tasks i t all at)) all)
]

-- A task that its next step takes further: it runs, or it has been woken.
abbrev pub is_ready : Task → Bool
is_ready in_turn = true
is_ready in_exclusive = true
is_ready (turn_waiting false) = true
is_ready (exclusive_waiting false) = true
is_ready _ = false

abbrev pub is_asleep : Task → Bool
is_asleep (turn_waiting asleep) = asleep
is_asleep (exclusive_waiting asleep) = asleep
is_asleep _ = false

none_running :
    (ts : List Task) → any_of is_ready ts ≡ false → (count turns ts ≡ 0) × (count exclusives ts ≡ 0)
none_running [] h = (refl, refl)
none_running (t ∷ ts) h = (ground (arith, none_running ts), ground (arith, none_running ts))

none_waiting :
    (g : Gate) (ts : List Task)
    → g.writer ≡ false
    → g.readers ≡ 0
    → any_of is_ready ts ≡ false
    → All (Rightly g) ts
    → count waiters ts ≡ 0
none_waiting g [] w r h a = refl
none_waiting g (t ∷ ts) w r h a = ground (arith, none_waiting g ts, a.0)

sleeper_false :
    (g : Gate) (t : Task)
    → g.writer ≡ false
    → g.readers ≡ 0
    → g.writers_waiting ≡ 0
    → Rightly g t
    → is_asleep t ≡ false
sleeper_false g (turn_waiting true) w r k right = ground arith
sleeper_false g t w r k right = ground arith

some_ready :
    (s : System) (i : ℕ) (t : Task)
    → Counted s
    → AllRight s
    → get_elem? s.tasks i ≡ some t
    → is_asleep t ≡ true
    → any_of is_ready s.tasks ≡ true
some_ready s i t c all at asleep = elim (Bool-cases (any_of is_ready s.tasks)) [
  | inl ready ↦ ready
  | inr stuck ↦
      let w : s.gate.writer ≡ false =
        ground (arith, c.exclusive_counted, (none_running s.tasks stuck).1) in
      let r : s.gate.readers ≡ 0 = omega (arith, c.turns_counted, (none_running s.tasks stuck).0) in
      let k : s.gate.writers_waiting ≡ 0 =
        omega (arith, c.waiters_counted, none_waiting s.gate s.tasks w r stuck all) in
      let f : is_asleep t ≡ false =
        sleeper_false s.gate t w r k (All-get s.gate s.tasks i t all at) in
      cc
]

pub record Sound (s : System) : Type 0 where
  sound_counts : Counted s
  sound_sleep : AllRight s

outside-AllRight : (g : Gate) (n : ℕ) → All (Rightly g) (all_outside n)
outside-AllRight g zero = tt
outside-AllRight g (suc n) = (tt, outside-AllRight g n)

run-Sound :
    (s : System) (es : List (ℕ × Action))
    → any_of (λ e. is_cancel e.1) es ≡ false
    → Sound s
    → Sound (run s es)
unfolding run
run-Sound s [] kept h = h
run-Sound s ((i, a) ∷ es) kept h = run-Sound (schedule s (i, a)) es (ground arith) (record {
  sound_counts = schedule-Counted s (i, a) h.sound_counts;
  sound_sleep = schedule-AllRight s i a (ground arith) h.sound_counts h.sound_sleep;
})

-- However the steps of any number of tasks interleave, as long as none is cancelled, a task sleeps
-- only while the gate refuses what it waits for, and while one sleeps some task is ready: it runs
-- in a turn or an exclusive block, or it has been woken. No wake-up is lost, and the gate never
-- leaves every task asleep.
pub run_wakes :
    (n : ℕ) (es : List (ℕ × Action)) (i : ℕ) (t : Task)
    → any_of (λ e. is_cancel e.1) es ≡ false
    → get_elem? (run (start n) es).tasks i ≡ some t
    → is_asleep t ≡ true
    → Rightly (run (start n) es).gate t × (any_of is_ready (run (start n) es).tasks ≡ true)
run_wakes n es i t kept at asleep = (
  All-get s.gate s.tasks i t sound.sound_sleep at,
  some_ready s i t sound.sound_counts sound.sound_sleep at asleep,
)
  where
    s : System
    s = run (start n) es

    sound : Sound (run (start n) es)
    sound =
        run-Sound (start n) es kept
          (record { sound_counts = start-Counted n; sound_sleep = outside-AllRight new n })
