-- ===== src/Tests/ReaderTests.antt =====
-- Runs of the reader of a websocket.
use sjmb_slack.Prelude.{refl, true, false, [], ◌∷◌, List, Option, none, some}
use sjmb_slack.Prelude.Int.{pos}
use sjmb_slack.Prelude.Text.{Text, codes}
use sjmb_slack.Limits.Counters.{zero_counters}
use sjmb_slack.UserSession.Json.{Value, text, object, field, no_fields}
use sjmb_slack.UserSession.Events.{check_error}
use sjmb_slack.UserSession.Reader.{
  LiveEvent, live_message, live_checkpoint, Reader, Input, ticks, text_frame, read, open_reader,
  tick, dispatch, handle_text, enqueue_event, pong, has_room, leaves, is_live,
}
use sjmb_slack.UserSession.Reader.Outcomes.{After}
use sjmb_slack.UserSession.Reader.Effects.{read-After}
use sjmb_slack.UserSession.Reader.Barrier.{Reads, opened, reads, Barriers, Reads-Barriers}
use sjmb_slack.Tests.SessionTests.{parse_host_only}

-- A parser that takes the text for the type of an event.
abbrev parse_type : Text → Option Value
parse_type t = some (object (field (codes "type") (text t) no_fields))

abbrev message : Value
message = object (field (codes "type") (text (codes "message")) no_fields)

abbrev inputs : List Input
inputs =
    text_frame (codes "message")
    ∷ ticks 0 1 (pos 100) true
    ∷ text_frame (codes "message")
    ∷ text_frame (codes "pong")
    ∷ []

abbrev reader : List LiveEvent → Reader
reader events = record {
  pending = none;
  sequence = 1;
  queue = record { events = events; received = 0; receiver_gone = false };
  reconnect_url = none;
  counters = zero_counters;
}

abbrev waiting : List LiveEvent → Reader
waiting events = record (reader events) {
  pending = some (record { id = 1; sent = 1; at = pos 100 });
}

abbrev final_events : List LiveEvent
final_events = live_checkpoint (pos 100) ∷ live_message message ∷ live_message message ∷ []

abbrev reached : Reads parse_host_only parse_type none zero_counters inputs (reader final_events)
unfolding read open_reader tick dispatch handle_text enqueue_event pong has_room leaves is_live
    check_error
reached =
    reads {s = reader final_events}
      (reads {s = waiting (live_message message ∷ live_message message ∷ [])}
        (reads {s = waiting (live_message message ∷ [])}
          (reads {s = record (reader (live_message message ∷ [])) { sequence = 0 }} opened
            (text_frame (codes "message")) refl)
          (ticks 0 1 (pos 100) true) refl)
        (text_frame (codes "message")) refl)
      (text_frame (codes "pong")) refl

Reads-Barriers_example : Barriers parse_host_only parse_type none zero_counters inputs final_events
Reads-Barriers_example = Reads-Barriers parse_host_only parse_type none zero_counters reached

read-After_example :
    After parse_type
      (text_frame (codes "pong"))
      (waiting [])
      (read parse_host_only parse_type (text_frame (codes "pong")) (waiting []))
read-After_example = read-After parse_host_only parse_type (text_frame (codes "pong")) (waiting [])
