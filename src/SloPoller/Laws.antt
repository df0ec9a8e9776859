-- ===== src/SloPoller/Laws.antt =====
-- The cooldown of the poller (app/slo_poller.py: tick, _due).
use dev_ops_copilot.Base.{
  ℕ, ◌+◌, ◌≤◌, ◌≡◌, refl, String, Bool, true, none, some, List, [], ◌∷◌, arith, string_eq,
  Bool-cases, inl, inr,
}
use dev_ops_copilot.Base.Dict.{lookup, insert, lookup-insert}
use dev_ops_copilot.SloPoller.{Burn, Reading, Alert, LastFired, due, sweep, select_alerts, tick}

-- One tick: its time, the services, and what their burn rates and triggers do.
pub record Poll : Type 0 where
  pub now : ℕ
  pub services : List String
  pub burn_fn : String → Reading
  pub trigger_fn : String → Burn → Bool

-- The attempts of a run, the latest first.
abbrev pub Log : Type 0
Log = List (String × ℕ)

abbrev pub log_attempts : ℕ → List String → Log → Log
log_attempts now [] log = log
log_attempts now (s ∷ services) log = log_attempts now services ((s, now) ∷ log)

-- The ticks of a run, one after the other.
unfoldable pub run_polls : ℕ → List Poll → LastFired → Log → Log
run_polls cooldown [] last_fired log = log
run_polls cooldown (p ∷ ps) last_fired log =
    let after = tick p.burn_fn p.trigger_fn cooldown p.services p.now last_fired in
    run_polls cooldown ps after.last_fired (log_attempts p.now after.attempted log)

-- Each attempt comes at least a cooldown after the service's attempt before it.
abbrev pub Spaced : ℕ → Log → Type 0
Spaced cooldown [] = Unit
Spaced cooldown ((s, now) ∷ log) =
    elim (lookup s log) [ none ↦ Unit | some last ↦ last + cooldown ≤ now ] × Spaced cooldown log

-- The log and the table of last attempts agree.
abbrev Agrees : LastFired → Log → Type 0
Agrees last_fired log = (s : String) → lookup s last_fired ≡ lookup s log

Agrees-insert :
    (service : String) (now : ℕ) (last_fired : LastFired) (log : Log)
    → Agrees last_fired log
    → Agrees (insert service now last_fired) ((service, now) ∷ log)
Agrees-insert service now last_fired log h s =
    ground (arith, lookup-insert s service now last_fired, h s)

Spaced-attempt :
    (cooldown now : ℕ) (service : String) (last_fired : LastFired) (log : Log)
    → lookup service last_fired ≡ lookup service log
    → due cooldown last_fired service now ≡ true
    → Spaced cooldown log
    → Spaced cooldown ((service, now) ∷ log)
unfolding due
Spaced-attempt cooldown now service last_fired log h d sp = ground arith

sweep-Spaced :
    (trigger_fn : String → Burn → Bool) (cooldown now : ℕ) (alerts : List Alert)
    (last_fired : LastFired) (log : Log)
    → Agrees last_fired log
    → Spaced cooldown log
    → let after = sweep trigger_fn cooldown now alerts last_fired in
      Agrees after.last_fired (log_attempts now after.attempted log)
      × Spaced cooldown (log_attempts now after.attempted log)
unfolding sweep
sweep-Spaced trigger_fn cooldown now [] last_fired log h sp = (h, sp)
sweep-Spaced trigger_fn cooldown now (a ∷ alerts) last_fired log h sp =
    elim (Bool-cases (due cooldown last_fired a.service now)) [
      | inl d ↦ rw d (
          sweep-Spaced trigger_fn cooldown now alerts (insert a.service now last_fired)
            ((a.service, now) ∷ log) (Agrees-insert a.service now last_fired log h)
            (Spaced-attempt cooldown now a.service last_fired log (h a.service) d sp))
      | inr d ↦ rw d (sweep-Spaced trigger_fn cooldown now alerts last_fired log h sp)
    ]

run_polls-Spaced-from :
    (cooldown : ℕ) (ps : List Poll) (last_fired : LastFired) (log : Log)
    → Agrees last_fired log
    → Spaced cooldown log
    → Spaced cooldown (run_polls cooldown ps last_fired log)
unfolding run_polls tick
run_polls-Spaced-from cooldown [] last_fired log h sp = sp
run_polls-Spaced-from cooldown (p ∷ ps) last_fired log h sp =
    let r =
      sweep-Spaced p.trigger_fn cooldown p.now (select_alerts p.burn_fn p.services) last_fired log h
        sp in
    run_polls-Spaced-from cooldown ps _ _ r.0 r.1

-- Over any sequence of ticks of a new poller, whatever the burn rates and however the triggers
-- end, two consecutive attempts to open an investigation for one service are a cooldown apart.
pub run_polls-Spaced :
    (cooldown : ℕ) (ps : List Poll) → Spaced cooldown (run_polls cooldown ps [] [])
run_polls-Spaced cooldown ps = run_polls-Spaced-from cooldown ps [] [] (λ s. refl) tt
