-- ===== src/Tests/SessionTests.antt =====
-- Runs of the user session, and witnesses for the theorems about it.
use sjmb_slack.Prelude.{
  ℕ, ◌≡◌, refl, sym, ap, Bool, true, false, [], ◌∷◌, Option, none, some, length,
}
use sjmb_slack.Prelude.Int.{pos}
use sjmb_slack.Prelude.Text.{Text, codes}
use sjmb_slack.Prelude.Result.{ok, err}
use sjmb_slack.Limits.Counters.{zero_counters}
use sjmb_slack.Url.{Url}
use sjmb_slack.Prelude.Map.{map_values, retain_entries}
use sjmb_slack.State.Prune.{prune, cap_threads, drop_old_threads}
use sjmb_slack.State.Store.{seen, threads, processed}
use sjmb_slack.Harvest.Timestamp.{message_timestamp}
use sjmb_slack.Bot.Intake.{MessageEvent, prepare_message, should_process_message}
use sjmb_slack.UserSession.Json.{
  Value, text, array, object, no_items, item, no_fields, field, as_str, at_key,
}
use sjmb_slack.UserSession.Events.{
  normalise, authentication, validate_socket_url, untrusted, check_error, next_cursor,
}
use sjmb_slack.UserSession.Process.{receipt, worker_closed, Session, Clock, process}
use sjmb_slack.UserSession.Process.Settled.{Settled, process-Settled}
use sjmb_slack.UserSession.Recovery.{World, recover_channel, page_limit, recover_pages}
use sjmb_slack.UserSession.Recovery.Failures.{Fails, recover_channel-Recovered}
use sjmb_slack.UserSession.Recovery.Own.{KeepsChannel}
use sjmb_slack.UserSession.Recovery.Pages.{Recovered}

abbrev pub any_second : ℕ → Bool
any_second n = true

abbrev pub socket_url : Text → Url
socket_url host = record {
  scheme = codes "wss";
  host = none;
  host_str = some host;
  username = [];
  password = none;
  port_or_known_default = some 443;
  fragment = none;
  text = codes "wss://";
}

-- A parser that takes the text for the host.
abbrev pub parse_host_only : Text → Option Url
parse_host_only t = some (socket_url t)

abbrev pub gateway : Text
gateway = codes "wss-primary.slack.com"

accepts_gateway : validate_socket_url parse_host_only gateway ≡ ok (socket_url gateway)
unfolding validate_socket_url
accepts_gateway = refl

refuses_other : validate_socket_url parse_host_only (codes "evil-slack.com") ≡ err untrusted
unfolding validate_socket_url
refuses_other = refl

expired_session :
    check_error (
      object (
        field
          (codes "type")
          (text (codes "error"))
          (field (codes "error") (text (codes "token_expired")) no_fields)))
    ≡ err (authentication (codes "token_expired"))
unfolding check_error
expired_session = refl

abbrev pub c1 : Text
c1 = codes "C1"

abbrev pub session : Session
session = record {
  store = record {
    snapshot = record {
      version = 1;
      team = codes "T1";
      user = codes "U1";
      channels =
          (c1, record { covered_until = pos 40; threads = []; recovering = true; failed = false })
          ∷ [];
      seen = [];
    };
    window = pos 86400;
  };
  counters = zero_counters;
  offered = [];
}

abbrev message_object : Value
message_object = object (
    field (codes "ts") (text (codes "50.000001"))
      (field (codes "text") (text (codes "hi")) no_fields))

-- A decoder that reads the text, the channel and the timestamp.
abbrev pub decode_message : Value → Option MessageEvent
decode_message v = some (record {
  hidden = none;
  subtype = none;
  content = some (as_str (at_key (codes "text") v));
  channel = as_str (at_key (codes "channel") v);
  ts = codes "50.000001";
  sender = record { username = none; user_profile = none; user = some (codes "U2"); bot_id = none };
})

abbrev pub live_message : Value
live_message = object (
    field (codes "type") (text (codes "message")) (
      field (codes "channel") (text c1) (
        field (codes "ts") (text (codes "50.000001"))
          (field (codes "text") (text (codes "hi")) no_fields))))

abbrev pub clock : Clock
clock = record {
  thread_at = pos 100;
  pruned_at = pos 100;
  prepared_at = 100;
  processed_at = pos 100;
}

process-Settled_example :
    Settled any_second decode_message live_message worker_closed session
      (process any_second decode_message 0 false live_message clock 0 worker_closed session)
process-Settled_example =
    process-Settled any_second decode_message 0 false live_message clock 0 worker_closed session

-- One page of history with one message, which the worker handles.
abbrev pub world : World
world = record {
  fetch = λ method id thread page cursor.
      ok (object (field (codes "messages") (array (item message_object no_items)) no_fields));
  clock = λ s. clock;
  handled = λ s. receipt true;
}

no_pages :
    (recover_channel any_second decode_message 0 false world 0 c1 (pos 0) (pos 100) session).0
    ≡ err page_limit
unfolding recover_channel recover_pages
no_pages = refl

recovers_one :
    length
      (recover_channel any_second decode_message 0 false world 3 c1
        (pos 0)
        (pos 100)
        session).1.offered
    ≡ 1
unfolding recover_channel recover_pages process normalise message_timestamp should_process_message
    seen prepare_message next_cursor threads processed prune cap_threads map_values drop_old_threads
    retain_entries
recovers_one = refl

pub keeps_channel : KeepsChannel decode_message
keeps_channel v m e = ap and_channel (sym e)
  where
    and_channel : Option MessageEvent → Option Text
    and_channel none = none
    and_channel (some x) = x.channel

recover_channel-Recovered_example :
    Recovered any_second decode_message 0 false world keeps_channel c1 session
      (recover_channel any_second decode_message 0 false world 3 c1 (pos 0) (pos 100) session)
    × Fails c1 session.store
        (recover_channel any_second decode_message 0 false world 3 c1 (pos 0) (pos 100) session)
recover_channel-Recovered_example =
    recover_channel-Recovered any_second decode_message 0 false world keeps_channel 3 c1 (pos 0)
      (pos 100) session
