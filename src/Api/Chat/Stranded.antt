-- ===== src/Api/Chat/Stranded.antt =====
-- A thread that waits for an approval keeps its session: no handler strands it.
use dev_ops_copilot.Base.{
  ◌<>◌, ◌≡◌, refl, String, Bool, true, Option, none, some, List, [], ◌∷◌, contains, string_eq,
  Bool-cases, inl, inr,
}
use dev_ops_copilot.Api.{ApiSettings}
use dev_ops_copilot.Tenancy.Auth.{Context}
use dev_ops_copilot.Api.Sessions.{discard, end_turn}
use dev_ops_copilot.Api.Chat.{
  Outcome, awaiting_approval, completed, raised, Turn, ask, resume, Desk, called, meter_and_spend,
  decided,
}
use dev_ops_copilot.Api.Chat.Request.{post_approve, post_chat}
use dev_ops_copilot.Api.Chat.Stream.{post_chat_stream, post_approve_stream}
use dev_ops_copilot.Api.Chat.StreamKept.{post_chat_stream-Kept, post_approve_stream-Kept}
use dev_ops_copilot.Api.Chat.Trigger.{
  resume_triggered, resume_turn, resumed_quietly, run_triggered, triggered, triggered_turn,
}
use dev_ops_copilot.Api.Chat.Marks.{Keeps-pause, Keeps-end, Keeps-unmark, Keeps-raise, discard-gone}
use dev_ops_copilot.Api.Chat.Kept.{Kept, opened-Opens, post_chat-Kept, post_approve-Kept}

module _ (settings : ApiSettings) (ctx : Context) (turn : Turn) where
  triggered-Kept :
      (t : String) (o : Outcome) (d : Desk)
      → contains d.pool.sessions t ≡ true
      → Kept d
      → Kept (triggered settings ctx turn t o (called (ask t) t o d))
  unfolding meter_and_spend end_turn
  triggered-Kept t (awaiting_approval r) d has k =
      Keeps-pause t d.paused d.pool.sessions d.pool.awaiting k has
  triggered-Kept t (completed r) d has k = Keeps-end t d.paused d.pool.sessions d.pool.awaiting k
  triggered-Kept t (raised text b) d has k =
      Keeps-raise t b d.paused d.pool.sessions d.pool.awaiting k

  triggered_turn-Kept :
      (t : String) (d : Desk) (error : Option String)
      → (error ≡ none → contains d.pool.sessions t ≡ true)
      → Kept d
      → Kept (triggered_turn settings ctx turn t d error)
  unfolding end_turn
  triggered_turn-Kept t d (some text) has k = k
  triggered_turn-Kept t d none has k = triggered-Kept t turn.outcome d (has refl) k

  run_triggered-Kept :
      (incident_id : String) (d : Desk)
      → Kept d
      → Kept (run_triggered settings ctx turn incident_id d)
  unfolding run_triggered
  run_triggered-Kept incident_id d k =
      let t = "pd-" <> incident_id in
      let (k', has) = opened-Opens settings ctx turn t d k in triggered_turn-Kept t _ _ has k'

  resumed_quietly-Kept :
      (t : String) (approved : Bool) (o : Outcome) (d : Desk)
      → contains d.pool.sessions t ≡ true
      → Kept d
      → Kept (resumed_quietly settings ctx turn t o (called (resume t) t o (decided t approved d)))
  unfolding end_turn
  resumed_quietly-Kept t approved (awaiting_approval r) d has k =
      Keeps-pause t d.paused d.pool.sessions d.pool.awaiting k has
  resumed_quietly-Kept t approved (completed r) d has k =
      Keeps-unmark t (discard t d.paused) d.pool.sessions d.pool.awaiting (discard-gone t d.paused)
        (Keeps-end t d.paused d.pool.sessions d.pool.awaiting k)
  resumed_quietly-Kept t approved (raised text b) d has k =
      Keeps-raise t b d.paused d.pool.sessions d.pool.awaiting k

  resume_turn-Kept :
      (t : String) (approved : Bool) (d : Desk) (error : Option String)
      → (error ≡ none → contains d.pool.sessions t ≡ true)
      → Kept d
      → Kept (resume_turn settings ctx turn t approved d error)
  unfolding end_turn
  resume_turn-Kept t approved d (some text) has k = k
  resume_turn-Kept t approved d none has k = elim (Bool-cases (contains d.paused t)) [
    | inl paused ↦ rw paused (resumed_quietly-Kept t approved turn.outcome d (has refl) k)
    | inr out ↦ rw out k
  ]

  resume_triggered-Kept :
      (t : String) (approved : Bool) (d : Desk)
      → Kept d
      → Kept (resume_triggered settings ctx turn t approved d)
  unfolding resume_triggered
  resume_triggered-Kept t approved d k =
      let (k', has) = opened-Opens settings ctx turn t d k in resume_turn-Kept t approved _ _ has k'

-- What comes in: a message or an approval, streamed or not, an incident, or a button in Slack.
pub data Incoming : Type 0 where
  message : Context → (month thread_id text : String) → Incoming
  approval : Context → String → Bool → Incoming
  streamed_message : Context → (month thread_id text : String) → List String → Incoming
  streamed_approval : Context → String → Bool → List String → Incoming
  incident : Context → String → Incoming
  button : Context → String → Bool → Incoming

unfoldable pub handle : ApiSettings → Turn → Incoming → Desk → Desk
unfolding post_chat post_approve post_chat_stream post_approve_stream run_triggered resume_triggered
handle settings turn (message ctx month thread_id text) d =
    (post_chat settings ctx turn month thread_id text d).0
handle settings turn (approval ctx thread_id approved) d =
    (post_approve settings ctx turn thread_id approved d).0
handle settings turn (streamed_message ctx month thread_id text lines) d =
    (post_chat_stream settings ctx turn lines month thread_id text d).0
handle settings turn (streamed_approval ctx thread_id approved lines) d =
    (post_approve_stream settings ctx turn lines thread_id approved d).0
handle settings turn (incident ctx incident_id) d = run_triggered settings ctx turn incident_id d
handle settings turn (button ctx t approved) d = resume_triggered settings ctx turn t approved d

handle-Kept :
    (settings : ApiSettings) (turn : Turn) (i : Incoming) (d : Desk)
    → Kept d
    → Kept (handle settings turn i d)
unfolding handle
handle-Kept settings turn (message ctx month thread_id text) d k =
    post_chat-Kept settings ctx turn month thread_id text d k
handle-Kept settings turn (approval ctx thread_id approved) d k =
    post_approve-Kept settings ctx turn thread_id approved d k
handle-Kept settings turn (streamed_message ctx month thread_id text lines) d k =
    post_chat_stream-Kept settings ctx turn lines month thread_id text d k
handle-Kept settings turn (streamed_approval ctx thread_id approved lines) d k =
    post_approve_stream-Kept settings ctx turn lines thread_id approved d k
handle-Kept settings turn (incident ctx incident_id) d k =
    run_triggered-Kept settings ctx turn incident_id d k
handle-Kept settings turn (button ctx t approved) d k =
    resume_triggered-Kept settings ctx turn t approved d k

unfoldable pub handle_all : ApiSettings → List (Turn × Incoming) → Desk → Desk
handle_all settings [] d = d
handle_all settings ((turn, i) ∷ is) d = handle_all settings is (handle settings turn i d)

-- Whatever messages and approvals, streamed or not, incidents and buttons come in, one after the
-- other, whatever the sessions answer, whether they raise or cannot be built, and whatever the cap
-- on sessions is: where each thread that is paused for an approval has a live session and is marked
-- as waiting at first, so it is after them.
pub handle_all-Kept :
    (settings : ApiSettings) (is : List (Turn × Incoming)) (d : Desk)
    → Kept d
    → Kept (handle_all settings is d)
unfolding handle_all
handle_all-Kept settings [] d k = k
handle_all-Kept settings ((turn, i) ∷ is) d k =
    handle_all-Kept settings is (handle settings turn i d) (handle-Kept settings turn i d k)
