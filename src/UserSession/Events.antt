-- ===== src/UserSession/Events.antt =====
-- The free functions of src/slackbot/user_session.rs on events and responses.
pub mod Sockets
use sjmb_slack.Prelude.{
  ℕ, ◌+◌, ◌*◌, max, ◌≡◌, Bool, true, false, not, ◌&&◌, ◌||◌, List, [], ◌∷◌, ◌++◌, Option, none,
  some, ltb, leb, ◌==◌, any, all, length, drop, ◌-◌, if◌then◌else◌,
}
use sjmb_slack.Prelude.Text.{Text, codes, text_eq, len, is_empty, starts_with}
use sjmb_slack.Prelude.Result.{Result, ok, err, is_ok, ◌>>=◌, ◌>>◌, ensure}
use sjmb_slack.Url.{Url}
use sjmb_slack.Limits.Counters.{Counters, Counter, invalid, bump}
use sjmb_slack.Harvest.Timestamp.{message_timestamp}
use sjmb_slack.State.{valid_id}
use sjmb_slack.Bot.Names.{or_else, unwrap_or}
use sjmb_slack.Bot.Intake.{MessageEvent, should_process_message}
use sjmb_slack.UserSession.Json.{Value, at_key, as_str, as_u64, is_true, is_text}

abbrev pub channel_prefix : Text → Bool
channel_prefix id = starts_with (codes "C") id || starts_with (codes "G") id

abbrev pub eligible_id : Option Text → Bool
eligible_id none = false
eligible_id (some id) = valid_id id && channel_prefix id

unfoldable pub eligible_channel : Value → Bool
eligible_channel channel =
    eligible_id (as_str (at_key (codes "id") channel))
    && not (is_true (at_key (codes "is_im") channel))
    && not (is_true (at_key (codes "is_mpim") channel))
    && not (is_true (at_key (codes "is_archived") channel))

-- The subtypes that `normalise` lets through.
abbrev pub known_subtype : Option Text → Bool
known_subtype none = true
known_subtype (some s) =
    text_eq s (codes "bot_message")
    || text_eq s (codes "me_message")
    || text_eq s (codes "file_share")
    || text_eq s (codes "thread_broadcast")

-- The parent of the thread that an event is of, which may be the message itself.
abbrev pub parent_of : Text → Option ℕ → Option Text
parent_of ts none = none
parent_of ts (some count) = if ltb 0 count then some ts else none

abbrev pub thread_of : Text → Value → Option Text
thread_of ts event =
    or_else (as_str (at_key (codes "thread_ts") event))
      (parent_of ts (as_u64 (at_key (codes "reply_count") event)))

-- A message with its timestamp and the parent of its thread.
pub record Normal : Type 0 where
  pub message : MessageEvent
  pub ts : Text
  pub thread : Option Text

module _ (in_range : ℕ → Bool) (decode : Value → Option MessageEvent) where
  -- What follows once the event has a timestamp. The codec of serde is a parameter.
  unfoldable pub normalise_at : Text → Value → Counters → Option Normal × Counters
  normalise_at ts event counters =
      if ltb 32 (len ts) || not (is_ok (message_timestamp in_range ts))
      then (none, bump invalid counters)
      else elim (decode event) [
        | none ↦ (none, bump invalid counters)
        | some message ↦
            if should_process_message message
            then (
              some (record { message = message; ts = ts; thread = thread_of ts event }),
              counters,
            )
            else (none, counters)
      ]

  unfoldable pub normalise : Value → Counters → Option Normal × Counters
  unfolding normalise_at
  normalise event counters =
      if not (is_text (codes "message") (at_key (codes "type") event))
        || is_true (at_key (codes "hidden") event)
        || not (known_subtype (as_str (at_key (codes "subtype") event)))
      then (none, counters)
      else elim (as_str (at_key (codes "ts") event)) [
        | none ↦ (none, counters)
        | some ts ↦ normalise_at ts event counters
      ]

-- `ApiError`, and an error of any other type.
pub data ApiError : Type 0 where
  authentication : (code : Text) → ApiError
  request : (method code : Text) → ApiError
  rate_limited : ℕ → ApiError
  other_api_error : ApiError

abbrev pub authentication_codes : List Text
authentication_codes =
    codes "invalid_auth"
    ∷ codes "token_revoked"
    ∷ codes "token_expired"
    ∷ codes "account_inactive"
    ∷ codes "not_authed"
    ∷ codes "session_expired"
    ∷ []

unfoldable pub check_error : Value → Result ApiError (Unit {0})
check_error event =
    let error = at_key (codes "error") event in
    let code =
      unwrap_or (or_else (as_str (at_key (codes "code") error)) (as_str error))
        (codes "websocket_error") in
    if not (is_text (codes "error") (at_key (codes "type") event))
    then ok tt
    else if any (λ c. text_eq c code) authentication_codes
    then err (authentication code)
    else err other_api_error

pub data CursorError : Type 0 where
  cursor_too_long has_more_without_cursor : CursorError

unfoldable pub next_cursor : Value → Result CursorError Text
next_cursor response =
    let cursor =
      unwrap_or
        (as_str (at_key (codes "next_cursor") (at_key (codes "response_metadata") response))) [] in
    if ltb 4096 (len cursor)
    then err cursor_too_long
    else if is_empty cursor && is_true (at_key (codes "has_more") response)
    then err has_more_without_cursor
    else ok cursor

-- `ends_with`.
abbrev pub ends_with : Text → Text → Bool
ends_with suffix t =
    leb (length suffix) (length t) && text_eq (drop (length t - length suffix) t) suffix

abbrev pub trusted_host : Option Text → Bool
trusted_host none = false
trusted_host (some host) = ends_with (codes ".slack.com") host

abbrev pub absent : Option Text → Bool
absent none = true
absent (some t) = false

abbrev pub is_port : ℕ → Option ℕ → Bool
is_port n none = false
is_port n (some p) = p == n

pub data SocketUrlError : Type 0 where
  socket_url_too_long unparsed untrusted : SocketUrlError

unfoldable pub trusted : Url → Bool
trusted url =
    text_eq url.scheme (codes "wss")
    && trusted_host url.host_str
    && is_empty url.username
    && absent url.password
    && is_port 443 url.port_or_known_default
    && absent url.fragment

unfoldable pub validate_socket_url : (Text → Option Url) → Text → Result SocketUrlError Url
unfolding trusted
validate_socket_url parse value =
    if ltb 16384 (len value) then err socket_url_too_long else elim (parse value) [
      | none ↦ err unparsed
      | some url ↦ if trusted url then ok url else err untrusted
    ]

-- `retry_delay`, in milliseconds.
unfoldable pub retry_delay : ℕ → ℕ → ApiError → ℕ
retry_delay backoff jitter (rate_limited pause) = max (backoff * 1000 + jitter) pause
retry_delay backoff jitter _ = backoff * 1000 + jitter
