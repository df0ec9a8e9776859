-- ===== src/Api/Chat/StreamKept.antt =====
-- The streaming requests strand no paused thread either.
use dev_ops_copilot.Base.{
  ◌≡◌, refl, String, Bool, true, false, Option, none, some, List, not, contains, string_eq,
  Bool-cases, inl, inr,
}
use dev_ops_copilot.Tenancy.Auth.{Context}
use dev_ops_copilot.Api.{ApiSettings}
use dev_ops_copilot.Api.Access.{require_perm, quota_gate, check_message, scoped}
use dev_ops_copilot.Api.Sessions.{discard, end_turn}
use dev_ops_copilot.Api.Chat.{
  Outcome, awaiting_approval, completed, raised, Turn, ask, resume, Desk, unmark, called,
  meter_and_spend, decided,
}
use dev_ops_copilot.Api.Chat.Stream.{
  streamed, stream_turn, chat_stream, post_chat_stream, resume_streamed, approve_stream_turn,
  approve_stream, post_approve_stream,
}
use dev_ops_copilot.Api.Chat.Marks.{
  Keeps-mark, Keeps-pause, Keeps-end, Keeps-unmark, Keeps-raise, raise-out, discard-gone,
}
use dev_ops_copilot.Api.Chat.Kept.{
  Kept, opened-Opens, evict_if-Kept, on_ok-Kept, spend_read-Kept, unpaused_fresh,
}

module _ (settings : ApiSettings) (ctx : Context) (turn : Turn) (lines : List String) where
  streamed-Kept :
      (t : String) (existed : Bool) (o : Outcome) (d : Desk)
      → contains d.paused t ≡ false
      → contains d.pool.sessions t ≡ true
      → Kept d
      → Kept (streamed settings ctx turn lines t existed o (called (ask t) t o (unmark t d)))
  unfolding meter_and_spend end_turn
  streamed-Kept t existed (awaiting_approval r) d out has k =
      Keeps-pause t d.paused d.pool.sessions _
        (Keeps-unmark t d.paused d.pool.sessions d.pool.awaiting out k) has
  streamed-Kept t existed (completed r) d out has k =
      Keeps-unmark t (discard t d.paused) d.pool.sessions _ (discard-gone t d.paused) (
        Keeps-end t d.paused d.pool.sessions _
          (Keeps-unmark t d.paused d.pool.sessions d.pool.awaiting out k))
  streamed-Kept t existed (raised text b) d out has k =
      evict_if-Kept settings ctx turn (not existed) t _ (raise-out t b d.paused out) (
        Keeps-raise t b d.paused d.pool.sessions _
          (Keeps-unmark t d.paused d.pool.sessions d.pool.awaiting out k))

  stream_turn-Kept :
      (thread_id t : String) (existed : Bool) (d : Desk) (failure : Option String)
      → (existed ≡ false → contains d.paused t ≡ false)
      → (failure ≡ none → contains d.pool.sessions t ≡ true)
      → Kept d
      → Kept (stream_turn settings ctx turn lines thread_id t existed d failure).0
  unfolding end_turn
  stream_turn-Kept thread_id t true d (some text) fresh has k = k
  stream_turn-Kept thread_id t false d (some text) fresh has k =
      evict_if-Kept settings ctx turn true t d (fresh refl) k
  stream_turn-Kept thread_id t existed d none fresh has k =
      elim (Bool-cases (contains d.paused t)) [
        | inl paused ↦ rw paused (Keeps-mark t d.paused d.pool.sessions d.pool.awaiting k)
        | inr out ↦ rw out (streamed-Kept t existed turn.outcome d out (has refl) k)
      ]

  chat_stream-Kept :
      (thread_id : String) (d : Desk)
      → Kept d
      → Kept (chat_stream settings ctx turn lines thread_id d).0
  unfolding chat_stream
  chat_stream-Kept thread_id d k =
      let t = scoped ctx thread_id in
      let (k', has) = opened-Opens settings ctx turn t d k in
      stream_turn-Kept thread_id t (contains d.pool.sessions t) _ _
        (unpaused_fresh settings ctx turn t d k) has k'

  pub post_chat_stream-Kept :
      (month thread_id message : String) (d : Desk)
      → Kept d
      → Kept (post_chat_stream settings ctx turn lines month thread_id message d).0
  unfolding post_chat_stream
  post_chat_stream-Kept month thread_id message d k =
      let k' = spend_read-Kept settings ctx turn month d k in
      on_ok-Kept settings ctx turn (require_perm settings "run_investigation" ctx) d _ k (
        on_ok-Kept settings ctx turn (quota_gate settings ctx month _ d.store) _ _ k' (
          on_ok-Kept settings ctx turn (check_message settings message) _ _ k'
            (chat_stream-Kept thread_id _ k')))

  resume_streamed-Kept :
      (thread_id t : String) (approved : Bool) (o : Outcome) (d : Desk)
      → contains d.pool.sessions t ≡ true
      → Kept d
      → Kept (
          resume_streamed settings ctx turn lines t o
            (called (resume t) t o (decided thread_id approved d)))
  unfolding meter_and_spend end_turn
  resume_streamed-Kept thread_id t approved (awaiting_approval r) d has k =
      Keeps-pause t d.paused d.pool.sessions d.pool.awaiting k has
  resume_streamed-Kept thread_id t approved (completed r) d has k =
      Keeps-unmark t (discard t d.paused) d.pool.sessions d.pool.awaiting (discard-gone t d.paused)
        (Keeps-end t d.paused d.pool.sessions d.pool.awaiting k)
  resume_streamed-Kept thread_id t approved (raised text b) d has k =
      Keeps-raise t b d.paused d.pool.sessions d.pool.awaiting k

  approve_stream_turn-Kept :
      (thread_id t : String) (existed approved : Bool) (d : Desk) (failure : Option String)
      → (failure ≡ none → contains d.pool.sessions t ≡ true)
      → Kept d
      → Kept (approve_stream_turn settings ctx turn lines thread_id t existed approved d failure).0
  unfolding end_turn
  approve_stream_turn-Kept thread_id t existed approved d (some text) has k = k
  approve_stream_turn-Kept thread_id t existed approved d none has k =
      elim (Bool-cases (contains d.paused t)) [
        | inl paused ↦
            rw paused (resume_streamed-Kept thread_id t approved turn.outcome d (has refl) k)
        | inr out ↦ rw out (evict_if-Kept settings ctx turn (not existed) t d out k)
      ]

  approve_stream-Kept :
      (thread_id : String) (approved : Bool) (d : Desk)
      → Kept d
      → Kept (approve_stream settings ctx turn lines thread_id approved d).0
  unfolding approve_stream
  approve_stream-Kept thread_id approved d k =
      let t = scoped ctx thread_id in
      let (k', has) = opened-Opens settings ctx turn t d k in
      approve_stream_turn-Kept thread_id t (contains d.pool.sessions t) approved _ _ has k'

  pub post_approve_stream-Kept :
      (thread_id : String) (approved : Bool) (d : Desk)
      → Kept d
      → Kept (post_approve_stream settings ctx turn lines thread_id approved d).0
  unfolding post_approve_stream
  post_approve_stream-Kept thread_id approved d k =
      on_ok-Kept settings ctx turn (require_perm settings "approve_action" ctx) d _ k
        (approve_stream-Kept thread_id approved d k)
