-- ===== src/SocketMode/Handlers.antt =====
-- The callbacks of src/slackbot/socket_mode.rs.
pub mod Checked
use sjmb_slack.Prelude.{
  ℕ, ◌≡◌, Bool, true, false, not, ◌&&◌, ◌||◌, List, [], ◌∷◌, Option, none, some, ltb, any,
  if◌then◌else◌,
}
use sjmb_slack.Prelude.Text.{Text, codes, text_eq, len, is_empty}
use sjmb_slack.Prelude.Result.{Result, ok, err}
use sjmb_slack.Limits.Counters.{Counters, Counter, invalid, bump}
use sjmb_slack.Bot.Intake.{MessageEvent, QueuedMessage, should_process_message, prepare_message}
use sjmb_slack.SocketMode.Health.{
  Health, Failure, different_app, different_installation, authentication_failed, fail,
}
use sjmb_slack.SocketMode.Ingress.{
  EventKey, Ingress, Sent, RetryEventError, worker_unavailable, Enqueued, enqueue,
}

-- What a callback finds in the state of its listener: the workspace with its identity, and what the
-- callbacks change.
pub record BotState : Type 0 where
  pub workspace : ℕ
  pub team_id : Text
  pub app_id : Text
  pub dry_run : Bool
  pub health : Health
  pub ingress : Ingress

-- `handle_hello`.
unfoldable pub handle_hello : Text → BotState → BotState
unfolding fail
handle_hello app_id s =
    if not (text_eq app_id s.app_id)
    then record s { health = fail different_app s.health }
    else record s { health = record s.health { ready = true } }

-- What the client library reports to `handler_error`.
pub data ListenerError : Type 0 where
  protocol_error retry_event other_error : ListenerError
  api_error : Text → ListenerError

abbrev pub authentication_codes : List Text
authentication_codes =
    codes "invalid_auth"
    ∷ codes "not_authed"
    ∷ codes "token_revoked"
    ∷ codes "token_expired"
    ∷ codes "account_inactive"
    ∷ codes "missing_scope"
    ∷ []

pub data StatusCode : Type 0 where
  status_ok service_unavailable : StatusCode

unfoldable pub handler_error : ListenerError → BotState → StatusCode × BotState
unfolding fail
handler_error (api_error code) s =
    if any (λ c. text_eq c code) authentication_codes
    then (status_ok, record s { health = fail (authentication_failed code) s.health })
    else (status_ok, s)
handler_error retry_event s = (service_unavailable, s)
handler_error _ s = (status_ok, s)

-- `body` is the message of an event that has one.
pub record PushEvent : Type 0 where
  pub team_id : Text
  pub api_app_id : Text
  pub event_id : Text
  pub body : Option MessageEvent

-- The result of the callback, and the message that went into the queue.
pub record Pushed : Type 0 where
  pub result : Result RetryEventError (Unit {0})
  pub queue : Option QueuedMessage
  pub state : BotState

abbrev pub ignored : BotState → Pushed
ignored s = record { result = ok tt; queue = none; state = s }

abbrev pub set_counters : Counters → BotState → BotState
set_counters c s = record s { ingress = record s.ingress { counters = c } }

abbrev pub pushed : QueuedMessage → BotState → Enqueued → Pushed
pushed q s r = record {
  result = r.result;
  queue = if r.in_queue then some q else none;
  state = record s { ingress = r.state };
}

-- What follows for a message that was prepared.
unfoldable pub push_prepared :
    PushEvent → ℕ → Sent → BotState → Option QueuedMessage × Counters → Pushed
push_prepared e now sent s (none, c) = ignored (set_counters c s)
push_prepared e now sent s (some q, c) =
    if ltb 256 (len e.event_id) || is_empty e.event_id
    then ignored (set_counters (bump invalid c) s)
    else pushed (record q { dry_run = s.dry_run }) s
        (enqueue (record { team = s.team_id; app = s.app_id; event_id = e.event_id }) now sent
          (record s.ingress { counters = c }))

module _ (in_range : ℕ → Bool) where
  abbrev pub push_body : PushEvent → ℕ → ℕ → Sent → BotState → Option MessageEvent → Pushed
  push_body e now enqueued_at sent s none = ignored s
  push_body e now enqueued_at sent s (some m) =
      if should_process_message m
      then push_prepared e enqueued_at sent s
          (prepare_message in_range s.workspace m now s.ingress.counters)
      else ignored s

  -- The clock is read when the message is prepared and when it is enqueued.
  unfoldable pub handler_push_events : PushEvent → ℕ → ℕ → Sent → BotState → Pushed
  unfolding push_prepared fail
  handler_push_events e now enqueued_at sent s =
      if not (text_eq e.team_id s.team_id) || not (text_eq e.api_app_id s.app_id)
      then ignored (record s { health = fail different_installation s.health })
      else push_body e now enqueued_at sent s e.body
