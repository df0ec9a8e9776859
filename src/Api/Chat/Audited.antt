-- ===== src/Api/Chat/Audited.antt =====
-- Which approvals resume a thread, and that each of these is in the audit trail.
use dev_ops_copilot.Base.{
  ◌≡◌, refl, ◌⊎◌, inl, inr, String, Bool, true, Option, none, some, [], ◌∷◌, ◌++◌, not, contains,
  string_eq, Bool-cases,
}
use dev_ops_copilot.Tenancy.Auth.{Context}
use dev_ops_copilot.Api.{ApiSettings}
use dev_ops_copilot.Api.Access.{require_perm, scoped}
use dev_ops_copilot.Api.Sessions.{end_turn}
use dev_ops_copilot.Api.Chat.{
  Outcome, awaiting_approval, completed, raised, Turn, resume, Desk, called, meter_and_spend,
  decided,
}
use dev_ops_copilot.Api.Chat.Request.{resumed, approve_turn, approve, post_approve}
use dev_ops_copilot.Api.Chat.Guarded.{
  evict_if-calls, evict_if-decisions, on_ok-cases, Permitted, perm-ok,
}

module _ (settings : ApiSettings) (ctx : Context) (turn : Turn) where
  resumed-same :
      (thread_id t : String) (o : Outcome) (d : Desk)
      → ((resumed settings ctx turn thread_id t o d).0.calls ≡ d.calls)
        × ((resumed settings ctx turn thread_id t o d).0.decisions ≡ d.decisions)
  unfolding meter_and_spend end_turn
  resumed-same thread_id t (awaiting_approval r) d = (refl, refl)
  resumed-same thread_id t (completed r) d = (refl, refl)
  resumed-same thread_id t (raised text b) d = (refl, refl)

  -- Nothing is resumed or recorded, or the session of the paused thread is and the decision with it.
  abbrev Resumes : (thread_id t : String) → Bool → (before after : Desk) → Type 0
  Resumes thread_id t approved d d' =
      ((d'.calls ≡ d.calls) × (d'.decisions ≡ d.decisions))
      ⊎ ((d'.calls ≡ d.calls ++ resume t ∷ [])
          × (d'.decisions ≡ d.decisions ++ (thread_id, approved) ∷ [])
          × (contains d.paused t ≡ true))

  approve_turn-Resumes :
      (thread_id t : String) (existed approved : Bool) (d : Desk) (error : Option String)
      → Resumes thread_id t approved d
          (approve_turn settings ctx turn thread_id t existed approved d error).0
  approve_turn-Resumes thread_id t existed approved d (some text) = inl (refl, refl)
  approve_turn-Resumes thread_id t existed approved d none =
      elim (Bool-cases (contains d.paused t)) [
        | inl paused ↦
            let (c, s) =
              resumed-same thread_id t turn.outcome
                (called (resume t) t turn.outcome (decided thread_id approved d)) in
            rw paused (inr (c, s, refl))
        | inr free ↦
            rw free (inl (evict_if-calls (not existed) t d, evict_if-decisions (not existed) t d))
      ]

  approve-Resumes :
      (thread_id : String) (approved : Bool) (d : Desk)
      → Resumes thread_id
          (scoped ctx thread_id)
          approved
          d
          (approve settings ctx turn thread_id approved d).0
  unfolding approve
  approve-Resumes thread_id approved d =
      approve_turn-Resumes thread_id (scoped ctx thread_id) _ approved _ _

  -- An approval resumes nothing and records nothing in the audit trail, or it resumes the session of
  -- the caller's own thread once and records the decision; then the caller may approve actions, and
  -- the thread is paused.
  pub post_approve-audited :
      (thread_id : String) (approved : Bool) (d : Desk)
      → (((post_approve settings ctx turn thread_id approved d).0.calls ≡ d.calls)
          × ((post_approve settings ctx turn thread_id approved d).0.decisions ≡ d.decisions))
        ⊎ (((post_approve settings ctx turn thread_id approved d).0.calls
              ≡ d.calls ++ resume (scoped ctx thread_id) ∷ [])
            × ((post_approve settings ctx turn thread_id approved d).0.decisions
                ≡ d.decisions ++ (thread_id, approved) ∷ [])
            × Permitted settings ctx "approve_action"
            × (contains d.paused (scoped ctx thread_id) ≡ true))
  unfolding post_approve
  post_approve-audited thread_id approved d =
      let next = approve settings ctx turn thread_id approved d in
      elim (on_ok-cases (require_perm settings "approve_action" ctx) d next) [
        | inr barred ↦ rw barred (inl (refl, refl))
        | inl (may, same) ↦ elim (approve-Resumes thread_id approved d) [
          | inl (c, s) ↦ rw same (inl (c, s))
          | inr (c, s, paused) ↦
              rw same (inr (c, s, perm-ok settings ctx "approve_action" may, paused))
        ]
      ]
