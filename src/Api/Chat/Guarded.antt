-- ===== src/Api/Chat/Guarded.antt =====
-- What the requests of a client ask of a session, and under which conditions.
use dev_ops_copilot.Base.{
  ℕ, ◌≡◌, refl, ◌⊎◌, inl, inr, String, Bool, true, false, Option, none, some, [], ◌∷◌, ◌++◌, ◌||◌,
  ◌&&◌, not, contains, ltb, string_eq, Bool-cases, arith, ap,
}
use dev_ops_copilot.Base.Text.{is_blank}
use dev_ops_copilot.Spend
use dev_ops_copilot.Tenancy.Roles.{can}
use dev_ops_copilot.Tenancy.Usage.{over_quota}
use dev_ops_copilot.Tenancy.Auth.{Context}
use dev_ops_copilot.Api.{Reply, ok, refused, crashed, is_ok, ApiSettings}
use dev_ops_copilot.Api.Access.{require_perm, quota_gate, check_message, scoped, plan_of, role_of}
use dev_ops_copilot.Api.Sessions.{end_turn, evict}
use dev_ops_copilot.Api.Chat.{
  Outcome, awaiting_approval, completed, raised, ChatResponse, Turn, ask, Desk, meter_and_spend,
  leave, evict_if,
}
use dev_ops_copilot.Api.Chat.Request.{on_ok, answered, chat_turn, chat, spend_read, post_chat}

pub evict_if-calls : (b : Bool) (t : String) (d : Desk) → (evict_if b t d).calls ≡ d.calls
evict_if-calls true t d = refl
evict_if-calls false t d = refl

pub evict_if-decisions :
    (b : Bool) (t : String) (d : Desk) → (evict_if b t d).decisions ≡ d.decisions
evict_if-decisions true t d = refl
evict_if-decisions false t d = refl

pub on_ok-cases :
    {A : Type 0} (r : Reply A) (d : Desk) (next : Desk × Reply ChatResponse)
    → ((is_ok r ≡ true) × (on_ok r d next ≡ next)) ⊎ ((on_ok r d next).0 ≡ d)
on_ok-cases (ok a) d next = inl (refl, refl)
on_ok-cases (refused status detail) d next = inr refl
on_ok-cases crashed d next = inr refl

module _ (settings : ApiSettings) (ctx : Context) where
  -- The caller may do the action.
  abbrev pub Permitted : String → Type 0
  Permitted action = (not settings.multi_tenant || can (role_of ctx.current_tenant) action) ≡ true

  pub perm-ok :
      (action : String) → is_ok (require_perm settings action ctx) ≡ true → Permitted action
  unfolding require_perm
  perm-ok action h =
      elim (Bool-cases (not settings.multi_tenant || can (role_of ctx.current_tenant) action)) [
        | inl may ↦ may
        | inr bars ↦ let broken : false ≡ true = rw bars at h in cc
      ]

  module _ (turn : Turn) where
    -- The organisation is within its quota, and the fleet below its cap.
    abbrev pub WithinBudget : String → Desk → Type 0
    WithinBudget month d =
        (over_quota (plan_of ctx.current_tenant) month d.store ≡ false)
        × (Spend.over_cap (Spend.total turn.now d.spend).1 settings.global_token_cap ≡ false)

    below_cap :
        (spent : ℕ)
        → (ltb 0 settings.global_token_cap && Spend.over_cap spent settings.global_token_cap)
          ≡ false
        → Spend.over_cap spent settings.global_token_cap ≡ false
    unfolding Spend.over_cap
    below_cap spent h = ground (arith, h)

    quota-ok :
        (month : String) (d : Desk)
        → is_ok (quota_gate settings ctx month (Spend.total turn.now d.spend).1 d.store) ≡ true
        → WithinBudget month d
    unfolding quota_gate
    quota-ok month d h = elim (Bool-cases (over_quota (plan_of ctx.current_tenant) month d.store)) [
      | inl over ↦ let broken : false ≡ true = rw over at h in cc
      | inr within ↦
          elim (Bool-cases (
            ltb 0 settings.global_token_cap
            && Spend.over_cap (Spend.total turn.now d.spend).1 settings.global_token_cap)) [
              | inl above ↦ let broken : false ≡ true = rw (within, above) at h in cc
              | inr below ↦ (within, below_cap (Spend.total turn.now d.spend).1 below)
            ]
    ]

    message-ok :
        (message : String)
        → is_ok (check_message settings message) ≡ true
        → is_blank message ≡ false
    unfolding check_message
    message-ok message h = elim (Bool-cases (is_blank message)) [
      | inl blank ↦ let broken : false ≡ true = rw blank at h in cc
      | inr given ↦ given
    ]

    spend_read-same :
        (month : String) (d : Desk)
        → ((spend_read settings ctx turn month d).calls ≡ d.calls)
          × ((spend_read settings ctx turn month d).paused ≡ d.paused)
    spend_read-same month d =
        elim (Bool-cases (over_quota (plan_of ctx.current_tenant) month d.store)) [
          | inl over ↦ rw over (refl, refl)
          | inr within ↦ elim (Bool-cases (ltb 0 settings.global_token_cap)) [
            | inl capped ↦ rw (within, capped) (refl, refl)
            | inr uncapped ↦ rw (within, uncapped) (refl, refl)
          ]
        ]

    answered-calls :
        (thread_id t : String) (existed : Bool) (o : Outcome) (d : Desk)
        → (answered settings ctx turn thread_id t existed o d).0.calls ≡ d.calls
    unfolding meter_and_spend end_turn evict
    answered-calls thread_id t existed (awaiting_approval r) d = refl
    answered-calls thread_id t existed (completed r) d = refl
    answered-calls thread_id t existed (raised text b) d =
        evict_if-calls (not existed) t (leave turn t d)

    -- A chat asks nothing, or asks the session of a thread that is not paused.
    abbrev Asks : String → (before after : Desk) → Type 0
    Asks t d d' =
        (d'.calls ≡ d.calls) ⊎ ((d'.calls ≡ d.calls ++ ask t ∷ []) × (contains d.paused t ≡ false))

    chat_turn-Asks :
        (thread_id t : String) (existed : Bool) (d : Desk) (error : Option String)
        → Asks t d (chat_turn settings ctx turn thread_id t existed d error).0
    chat_turn-Asks thread_id t existed d (some text) =
        inl (evict_if-calls (not existed) t (leave turn t d))
    chat_turn-Asks thread_id t existed d none = elim (Bool-cases (contains d.paused t)) [
      | inl paused ↦ rw paused (inl refl)
      | inr free ↦ rw free (inr (answered-calls thread_id t existed turn.outcome _, refl))
    ]

    chat-Asks :
        (thread_id : String) (d : Desk)
        → Asks (scoped ctx thread_id) d (chat settings ctx turn thread_id d).0
    unfolding chat
    chat-Asks thread_id d = chat_turn-Asks thread_id (scoped ctx thread_id) _ _ _

    -- A message makes no call of a session, or exactly one, which asks the session of the caller's
    -- own thread; then the caller may run investigations, its organisation is within its quota, the
    -- fleet is below its token cap, the message is not blank, and the thread is not paused.
    pub post_chat-guarded :
        (month thread_id message : String) (d : Desk)
        → ((post_chat settings ctx turn month thread_id message d).0.calls ≡ d.calls)
          ⊎ (((post_chat settings ctx turn month thread_id message d).0.calls
                ≡ d.calls ++ ask (scoped ctx thread_id) ∷ [])
              × Permitted "run_investigation"
              × WithinBudget month d
              × (is_blank message ≡ false)
              × (contains d.paused (scoped ctx thread_id) ≡ false))
    unfolding post_chat
    post_chat-guarded month thread_id message d =
        let (same_calls, same_paused) = spend_read-same month d in
        let d' = spend_read settings ctx turn month d in
        let sent = chat settings ctx turn thread_id d' in
        let checked = on_ok (check_message settings message) d' sent in
        let budget = quota_gate settings ctx month (Spend.total turn.now d.spend).1 d.store in
        elim (on_ok-cases (require_perm settings "run_investigation" ctx) d
          (on_ok budget d' checked)) [
            | inr barred ↦ inl (ap (λ (e : Desk). e.calls) barred)
            | inl (may, next) ↦ elim (on_ok-cases budget d' checked) [
              | inr spent ↦ inl (rw (next, spent) same_calls)
              | inl (within, next') ↦ elim (on_ok-cases (check_message settings message) d' sent) [
                | inr bad ↦ inl (rw (next, next', bad) same_calls)
                | inl (good, next'') ↦ elim (chat-Asks thread_id d') [
                  | inl none_asked ↦ inl (rw (next, next', next'', none_asked) same_calls)
                  | inr (asked, free) ↦ inr (
                    rw (next, next', next'', asked, same_calls) refl,
                    perm-ok "run_investigation" may,
                    quota-ok month d within,
                    message-ok message good,
                    rw (← same_paused) free,
                  )
                ]
              ]
            ]
          ]
