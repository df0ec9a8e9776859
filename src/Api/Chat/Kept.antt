-- ===== src/Api/Chat/Kept.antt =====
-- The requests of a client strand no paused thread.
use dev_ops_copilot.Base.{
  ◌≡◌, refl, String, Bool, true, false, Option, none, some, not, contains, ltb, string_eq,
  Bool-cases, inl, inr,
}
use dev_ops_copilot.Api.{Reply, ok, refused, crashed, ApiSettings}
use dev_ops_copilot.Tenancy.Auth.{Context}
use dev_ops_copilot.Tenancy.Usage.{over_quota}
use dev_ops_copilot.Api.Access.{require_perm, quota_gate, check_message, scoped, plan_of}
use dev_ops_copilot.Api.Sessions.{discard, evict, begin_turn, end_turn}
use dev_ops_copilot.Api.Chat.{
  Outcome, awaiting_approval, completed, raised, Turn, ask, resume, Desk, unmark, called,
  meter_and_spend, open_session, leave, evict_if, decided,
}
use dev_ops_copilot.Api.Chat.Request.{
  answered, approve, approve_turn, chat, chat_turn, on_ok, post_approve, post_chat, resumed,
  spend_read,
}
use dev_ops_copilot.Api.Chat.Marks.{
  Keeps-mark, Keeps-pause, Keeps-end, Keeps-unmark, Keeps-drop, Keeps-raise, raise-out,
  discard-gone,
}
use dev_ops_copilot.Api.Chat.Opening.{Opens, open_session-Opens}

-- No thread whose checkpoint holds an interrupt is stranded: it has a session, and is marked.
abbrev pub Kept : Desk → Type 0
Kept d =
    (u : String)
    → contains d.paused u ≡ true
    → (contains d.pool.sessions u ≡ true) × (contains d.pool.awaiting u ≡ true)

module _ (settings : ApiSettings) (ctx : Context) (turn : Turn) where
  pub evict_if-Kept :
      (b : Bool) (t : String) (d : Desk)
      → contains d.paused t ≡ false
      → Kept d
      → Kept (evict_if b t d)
  unfolding evict
  evict_if-Kept false t d out k = k
  evict_if-Kept true t d out k =
      Keeps-drop t d.paused d.pool.sessions _ out
        (Keeps-unmark t d.paused d.pool.sessions d.pool.awaiting out k)

  answered-Kept :
      (thread_id t : String) (existed : Bool) (o : Outcome) (d : Desk)
      → contains d.paused t ≡ false
      → contains d.pool.sessions t ≡ true
      → Kept d
      → Kept (answered settings ctx turn thread_id t existed o (called (ask t) t o (unmark t d))).0
  unfolding meter_and_spend end_turn
  answered-Kept thread_id t existed (awaiting_approval r) d out has k =
      Keeps-pause t d.paused d.pool.sessions _
        (Keeps-unmark t d.paused d.pool.sessions d.pool.awaiting out k) has
  answered-Kept thread_id t existed (completed r) d out has k =
      Keeps-end t d.paused d.pool.sessions _
        (Keeps-unmark t d.paused d.pool.sessions d.pool.awaiting out k)
  answered-Kept thread_id t existed (raised text b) d out has k =
      evict_if-Kept (not existed) t _ (raise-out t b d.paused out) (
        Keeps-raise t b d.paused d.pool.sessions _
          (Keeps-unmark t d.paused d.pool.sessions d.pool.awaiting out k))

  chat_turn-Kept :
      (thread_id t : String) (existed : Bool) (d : Desk) (error : Option String)
      → (existed ≡ false → contains d.paused t ≡ false)
      → (error ≡ none → contains d.pool.sessions t ≡ true)
      → Kept d
      → Kept (chat_turn settings ctx turn thread_id t existed d error).0
  unfolding end_turn
  chat_turn-Kept thread_id t true d (some text) fresh has k = k
  chat_turn-Kept thread_id t false d (some text) fresh has k =
      evict_if-Kept true t (leave turn t d) (fresh refl) k
  chat_turn-Kept thread_id t existed d none fresh has k = elim (Bool-cases (contains d.paused t)) [
    | inl paused ↦ rw paused (Keeps-mark t d.paused d.pool.sessions d.pool.awaiting k)
    | inr out ↦ rw out (answered-Kept thread_id t existed turn.outcome d out (has refl) k)
  ]

  pub opened-Opens :
      (t : String) (d : Desk)
      → Kept d
      → Opens d.paused t (open_session settings turn t (begin_turn t d.pool))
  unfolding begin_turn
  opened-Opens t d k = open_session-Opens settings turn d.paused t (begin_turn t d.pool) k

  pub unpaused_fresh :
      (t : String) (d : Desk)
      → Kept d
      → contains d.pool.sessions t ≡ false
      → contains d.paused t ≡ false
  unpaused_fresh t d k new = elim (Bool-cases (contains d.paused t)) [
    | inl paused ↦ let there : contains d.pool.sessions t ≡ true = (k t paused).0 in cc
    | inr out ↦ out
  ]

  chat-Kept : (thread_id : String) (d : Desk) → Kept d → Kept (chat settings ctx turn thread_id d).0
  unfolding chat
  chat-Kept thread_id d k =
      let t = scoped ctx thread_id in
      let (k', has) = opened-Opens t d k in
      chat_turn-Kept thread_id t (contains d.pool.sessions t) _ _ (unpaused_fresh t d k) has k'

  pub on_ok-Kept :
      {A B : Type 0} (r : Reply A) (d : Desk) (next : Desk × Reply B)
      → Kept d
      → Kept next.0
      → Kept (on_ok r d next).0
  on_ok-Kept (ok a) d next k k' = k'
  on_ok-Kept (refused status detail) d next k k' = k
  on_ok-Kept crashed d next k k' = k

  pub spend_read-Kept :
      (month : String) (d : Desk) → Kept d → Kept (spend_read settings ctx turn month d)
  spend_read-Kept month d k =
      elim (Bool-cases (over_quota (plan_of ctx.current_tenant) month d.store)) [
        | inl over ↦ rw over k
        | inr within ↦ elim (Bool-cases (ltb 0 settings.global_token_cap)) [
          | inl capped ↦ rw (within, capped) k
          | inr uncapped ↦ rw (within, uncapped) k
        ]
      ]

  pub post_chat-Kept :
      (month thread_id message : String) (d : Desk)
      → Kept d
      → Kept (post_chat settings ctx turn month thread_id message d).0
  unfolding post_chat
  post_chat-Kept month thread_id message d k =
      let k' = spend_read-Kept month d k in
      on_ok-Kept (require_perm settings "run_investigation" ctx) d _ k (
        on_ok-Kept (quota_gate settings ctx month _ d.store) _ _ k'
          (on_ok-Kept (check_message settings message) _ _ k' (chat-Kept thread_id _ k')))

  resumed-Kept :
      (thread_id t : String) (approved : Bool) (o : Outcome) (d : Desk)
      → contains d.pool.sessions t ≡ true
      → Kept d
      → Kept
          (resumed settings ctx turn thread_id t o
            (called (resume t) t o (decided thread_id approved d))).0
  unfolding meter_and_spend end_turn
  resumed-Kept thread_id t approved (awaiting_approval r) d has k =
      Keeps-pause t d.paused d.pool.sessions d.pool.awaiting k has
  resumed-Kept thread_id t approved (completed r) d has k =
      Keeps-unmark t (discard t d.paused) d.pool.sessions d.pool.awaiting (discard-gone t d.paused)
        (Keeps-end t d.paused d.pool.sessions d.pool.awaiting k)
  resumed-Kept thread_id t approved (raised text b) d has k =
      Keeps-raise t b d.paused d.pool.sessions d.pool.awaiting k

  approve_turn-Kept :
      (thread_id t : String) (existed approved : Bool) (d : Desk) (error : Option String)
      → (error ≡ none → contains d.pool.sessions t ≡ true)
      → Kept d
      → Kept (approve_turn settings ctx turn thread_id t existed approved d error).0
  unfolding end_turn
  approve_turn-Kept thread_id t existed approved d (some text) has k = k
  approve_turn-Kept thread_id t existed approved d none has k =
      elim (Bool-cases (contains d.paused t)) [
        | inl paused ↦ rw paused (resumed-Kept thread_id t approved turn.outcome d (has refl) k)
        | inr out ↦ rw out (evict_if-Kept (not existed) t d out k)
      ]

  approve-Kept :
      (thread_id : String) (approved : Bool) (d : Desk)
      → Kept d
      → Kept (approve settings ctx turn thread_id approved d).0
  unfolding approve
  approve-Kept thread_id approved d k =
      let t = scoped ctx thread_id in
      let (k', has) = opened-Opens t d k in
      approve_turn-Kept thread_id t (contains d.pool.sessions t) approved _ _ has k'

  pub post_approve-Kept :
      (thread_id : String) (approved : Bool) (d : Desk)
      → Kept d
      → Kept (post_approve settings ctx turn thread_id approved d).0
  unfolding post_approve
  post_approve-Kept thread_id approved d k =
      on_ok-Kept (require_perm settings "approve_action" ctx) d _ k
        (approve-Kept thread_id approved d k)
