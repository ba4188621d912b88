-- ===== src/UserSession/Reader.antt =====
-- `read_socket` and `enqueue_event` of src/slackbot/user_session.rs: the heartbeat and the frames of the
-- websocket. An input is what the select of the loop takes, with the readings of the clocks and what
-- came of a write; instants are in milliseconds. The parsers of JSON and of URLs are arguments.
pub mod Outcomes
pub mod Effects
pub mod Barrier
pub mod Tickets
use sjmb_slack.Prelude.{
  ℕ, suc, ◌+◌, ◌-◌, ◌^◌, ◌%◌, ◌≡◌, Bool, true, false, not, ◌&&◌, ◌||◌, List, [], ◌∷◌, Option, none,
  some, ltb, ◌==◌, any, length, if◌then◌else◌,
}
use sjmb_slack.Prelude.Int.{ℤ}
use sjmb_slack.Prelude.Text.{Text, codes, text_eq}
use sjmb_slack.Prelude.Result.{Result, ok, err}
use sjmb_slack.Url.{Url}
use sjmb_slack.Limits.Counters.{Counters, Counter, invalid, full, bump}
use sjmb_slack.UserSession.Json.{Value, at_key, as_str, as_u64}
use sjmb_slack.UserSession.Events.{ApiError, check_error, SocketUrlError, validate_socket_url}

-- `MESSAGE_QUEUE_BOUND`.
abbrev pub message_queue_bound : ℕ
message_queue_bound = 256

abbrev pub pong_timeout : ℕ
pong_timeout = 30000

-- `Event`.
pub data LiveEvent : Type 0 where
  live_message : Value → LiveEvent
  live_checkpoint : (at : ℤ) → LiveEvent

-- The ping that waits for its answer: its number, the instant and the time of its sending.
pub record Pending : Type 0 where
  pub id : ℕ
  pub sent : ℕ
  pub at : ℤ

-- The queue to the consumer: all that it ever took in, the newest first, and how many were received.
pub record EventQueue : Type 0 where
  pub events : List LiveEvent
  pub received : ℕ
  pub receiver_gone : Bool

-- The variables of the loop, and the fields of the session that it changes.
pub record Reader : Type 0 where
  pub pending : Option Pending
  pub sequence : ℕ
  pub queue : EventQueue
  pub reconnect_url : Option Text
  pub counters : Counters

pub data ReadError : Type 0 where
  heartbeat_timed_out write_failed queue_unavailable reconnect_requested : ReadError
  socket_closed socket_failed : ReadError
  session_error : ApiError → ReadError
  bad_reconnect_url : SocketUrlError → ReadError

pub data Input : Type 0 where
  ticks : (instant sent : ℕ) (wall : ℤ) (written : Bool) → Input
  text_frame : Text → Input
  ping_frame : (written : Bool) → Input
  other_frame close_frame stream_ended frame_failed : Input

unfoldable pub has_room : EventQueue → Bool
has_room q = not q.receiver_gone && ltb (length q.events - q.received) message_queue_bound

unfoldable pub enqueue_event : LiveEvent → Reader → Result ReadError (Unit {0}) × Reader
enqueue_event event r =
    if has_room r.queue
    then (ok tt, record r { queue = record r.queue { events = event ∷ r.queue.events } })
    else (err queue_unavailable, record r { counters = bump full r.counters })

-- The tick of the interval.
unfoldable pub tick :
    ℕ → ℕ → ℤ → Bool → Option Pending → Reader → Result ReadError (Unit {0}) × Reader
tick instant sent wall written (some p) r =
    if ltb (instant - p.sent) pong_timeout then (ok tt, r) else (err heartbeat_timed_out, r)
tick instant sent wall written none r =
    let sequence = suc r.sequence % 2 ^ 64 in
    if written
    then (
      ok tt,
      record r {
        sequence = sequence;
        pending = some (record { id = sequence; sent = sent; at = wall });
      },
    )
    else (err write_failed, record r { sequence = sequence })

-- `is_none_or(|reply| reply == id)`.
abbrev pub answers : Pending → Option ℕ → Bool
answers p none = true
answers p (some reply) = reply == p.id

abbrev pub confirmed : Result ReadError (Unit {0}) × Reader → Result ReadError (Unit {0}) × Reader
confirmed (ok u, r) = (ok tt, record r { pending = none })
confirmed (err e, r) = (err e, r)

unfoldable pub pong : Option ℕ → Option Pending → Reader → Result ReadError (Unit {0}) × Reader
pong reply none r = (ok tt, r)
pong reply (some p) r =
    if answers p reply then confirmed (enqueue_event (live_checkpoint p.at) r) else (ok tt, r)

-- The types that are passed on to the consumer.
abbrev pub live_types : List Text
live_types =
    codes "message"
    ∷ codes "channel_joined"
    ∷ codes "group_joined"
    ∷ codes "channel_left"
    ∷ codes "group_left"
    ∷ []

unfoldable pub is_live : Text → Bool
is_live kind = any (λ t. text_eq t kind) live_types

unfoldable pub leaves : Text → Bool
leaves kind = text_eq kind (codes "goodbye") || text_eq kind (codes "disconnect")

module _ (parse_url : Text → Option Url) where
  unfoldable pub reconnect_ticket : Option Text → Reader → Result ReadError (Unit {0}) × Reader
  reconnect_ticket none r = (ok tt, r)
  reconnect_ticket (some url) r = elim (validate_socket_url parse_url url) [
    | err e ↦ (err (bad_reconnect_url e), r)
    | ok _ ↦ (ok tt, record r { reconnect_url = some url })
  ]

  unfoldable pub dispatch : Option Text → Value → Reader → Result ReadError (Unit {0}) × Reader
  dispatch none event r = (ok tt, r)
  dispatch (some kind) event r =
      if text_eq kind (codes "pong")
      then pong (as_u64 (at_key (codes "reply_to") event)) r.pending r
      else if text_eq kind (codes "reconnect_url")
      then reconnect_ticket (as_str (at_key (codes "url") event)) r
      else if leaves kind
      then (err reconnect_requested, r)
      else if is_live kind
      then enqueue_event (live_message event) r
      else (ok tt, r)

  unfoldable pub handle_text : Option Value → Reader → Result ReadError (Unit {0}) × Reader
  handle_text none r = (ok tt, record r { counters = bump invalid r.counters })
  handle_text (some event) r = elim (check_error event) [
    | err e ↦ (err (session_error e), r)
    | ok _ ↦ dispatch (as_str (at_key (codes "type") event)) event r
  ]

  module _ (parse_json : Text → Option Value) where
    -- A round of the loop.
    unfoldable pub read : Input → Reader → Result ReadError (Unit {0}) × Reader
    read (ticks instant sent wall written) r = tick instant sent wall written r.pending r
    read (text_frame t) r = handle_text (parse_json t) r
    read (ping_frame written) r = if written then (ok tt, r) else (err write_failed, r)
    read other_frame r = (ok tt, r)
    read close_frame r = (err socket_closed, r)
    read stream_ended r = (err socket_closed, r)
    read frame_failed r = (err socket_failed, r)

    -- The loop, up to an error; at the end of the inputs it still runs.
    unfoldable pub read_socket : List Input → Reader → Result ReadError (Unit {0}) × Reader
    unfolding read
    read_socket [] r = (ok tt, r)
    read_socket (c ∷ cs) r =
        let one = read c r in elim one.0 [ ok _ ↦ read_socket cs one.1 | err e ↦ (err e, one.1) ]

-- The start of `read_socket`, on a queue that is new.
unfoldable pub open_reader : Option Text → Counters → Reader
open_reader ticket counters = record {
  pending = none;
  sequence = 0;
  queue = record { events = []; received = 0; receiver_gone = false };
  reconnect_url = ticket;
  counters = counters;
}
