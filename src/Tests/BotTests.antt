-- ===== src/Tests/BotTests.antt =====
-- Runs of the message pipeline and of the Socket Mode callbacks, and witnesses for the theorems.
use sjmb_slack.Prelude.{
  ℕ, ◌+◌, ◌≡◌, refl, Bool, true, false, not, ◌&&◌, List, [], ◌∷◌, ◌++◌, map, Option, none, some,
  arith,
}
use sjmb_slack.Prelude.Text.{Text, codes, text_Eq}
use sjmb_slack.Prelude.Result.{ok}
use sjmb_slack.Limits.Cache.{ExpiringCache, get, insert}
use sjmb_slack.Limits.Counters.{zero_counters}
use sjmb_slack.Limits.LogText.{log_text, clean}
use sjmb_slack.Harvest.Timestamp.{message_timestamp}
use sjmb_slack.Harvest.Urls.{extract_urls}
use sjmb_slack.Url.{ipv4, UrlParsers}
use sjmb_slack.UrlFilter.Address.{quad, is_public_address}
use sjmb_slack.UrlFilter.Filter.{empty_filter, timed_out, check, host_addresses, check_addresses}
use sjmb_slack.Bot.Names.{User, sender_info}
use sjmb_slack.Bot.Database.{rows_affected, db_add_url}
use sjmb_slack.Bot.Workspace.{Workspace, response, Times, seconds, sender_nick, channel_name}
use sjmb_slack.Bot.Workspace.Cached.{user_only}
use sjmb_slack.Bot.Intake.{MessageEvent, QueuedMessage, prepare_message, should_process_message}
use sjmb_slack.Bot.Intake.Accepted.{Prepared, prepare_message-Prepared}
use sjmb_slack.Bot.Worker.{Worker, Replies, handle_msg, handle_messages, drain, received}
use sjmb_slack.Bot.Worker.Stored.{Ready, admitted, refuses, records, handle_msg-sends}
use sjmb_slack.Bot.Worker.Receipts.{handle_messages-waiters}
use sjmb_slack.UrlFilter.Filter.{compile, include}
use sjmb_slack.Bot.Config.{Config, socket_mode, Checks, from_config, check_workspace}
use sjmb_slack.Prelude.{◌≤◌}
use sjmb_slack.Bot.Config.Usable.{Accepted, from_config-Accepted}
use sjmb_slack.SocketMode.Health.{different_app}
use sjmb_slack.SocketMode.Ingress.{EventKey, key_Eq, Ingress, queued, queue_full, enqueue}
use sjmb_slack.SocketMode.Ingress.Outcomes.{Outcome, enqueue-Outcome}
use sjmb_slack.SocketMode.Ingress.Once.{Delivery}
use sjmb_slack.SocketMode.Handlers.{BotState, PushEvent, handler_push_events}
use sjmb_slack.SocketMode.Handlers.Checked.{IsFrom, handler_push_events-IsFrom}
use sjmb_slack.SocketMode.Backoff.{Ended, rate_limit, other_error}

abbrev any_second : ℕ → Bool
any_second n = true

abbrev u1 : Text
u1 = codes "U1"

abbrev empty_cache : ExpiringCache Text Text
empty_cache = record { entries = []; capacity = 4096 }

abbrev workspace : Workspace
workspace = record {
  name = codes "foo";
  url_filter = empty_filter;
  team_id = codes "T1";
  app_id = codes "A1";
  users = empty_cache;
  channels = empty_cache;
  user_retry_at = none;
  channel_retry_at = none;
}

abbrev at : ℕ → Times
at n = record { read_at = n; allowed_at = n; answered_at = n; write_at = n }

abbrev ann : User
ann = record { profile = none; real_name = some (codes " "); name = some (codes "ann") }

looked_up : (sender_nick (user_only u1) (response ann) (at 5) workspace).0 ≡ codes "ann"
unfolding sender_nick get log_text insert clean
looked_up = refl

abbrev event : MessageEvent
event = record {
  hidden = none;
  subtype = none;
  content = some (some (codes "<addr>"));
  channel = some (codes "C1");
  ts = codes "1234.000001";
  sender = record { username = none; user_profile = none; user = some u1; bot_id = none };
}

prepare_message-Prepared_example :
    Prepared any_second 0 event 5 zero_counters (prepare_message any_second 0 event 5 zero_counters)
prepare_message-Prepared_example = prepare_message-Prepared any_second 0 event 5 zero_counters

-- A message with one link, to a public address.
abbrev message : QueuedMessage
message = record {
  workspace = 0;
  expires_at = 100;
  ts = 1234;
  channel = codes "C1";
  text = codes "<addr>";
  sender = user_only u1;
  completion = some 7;
  dry_run = false;
}

abbrev parsers : UrlParsers
parsers = record {
  parse_ip = λ t. none;
  parse_host = λ t. none;
  parse_url = λ t. some (record {
    scheme = codes "http";
    host = some (ipv4 (quad 1 1 1 1));
    host_str = some (codes "1.1.1.1");
    username = [];
    password = none;
    port_or_known_default = some 80;
    fragment = none;
    text = codes "http://1.1.1.1/";
  });
}

-- A configuration of one workspace, which any bytes stand for.
abbrev one_workspace : Config
one_workspace = record {
  backend = socket_mode;
  window_seconds = 86400;
  max_pages_per_channel = 100;
  state_dir = codes "state";
  url_regex = codes "(.*)";
  url_log_db = codes "postgres:";
  url_blacklist = [];
  workspaces =
      record {
        name = codes "foo";
        url_blacklist = [];
        api_token = codes "xoxb";
        socket_token = codes "xapp";
        cookie = [];
      }
      ∷ [];
}

abbrev checks : Checks
checks = record {
  parse_json = λ b. some one_workspace;
  compiled_in = λ b. true;
  expand = λ t. some t;
  valid_header = λ t. true;
  valid_db = λ t. true;
  captures_len = λ t. some 2;
}

accepted : from_config checks parsers [] ≡ ok (one_workspace, empty_filter ∷ [])
unfolding from_config check_workspace compile include
accepted = refl

from_config-Accepted_example : Accepted parsers (one_workspace, empty_filter ∷ []) × (1 ≤ 1)
from_config-Accepted_example =
    from_config-Accepted checks parsers [] (one_workspace, empty_filter ∷ []) accepted

abbrev one_link : Text → List (Option Text)
one_link t = some (codes "addr") ∷ []

abbrev replies : Replies
replies = record {
  user = response ann;
  user_times = at 5;
  channel = response (some (codes "news"));
  channel_times = at 5;
  lookup_host = λ name. timed_out;
  db = λ ur. rows_affected 1;
}

abbrev worker : Worker
worker = record { workspaces = λ i. workspace; counters = zero_counters; sent = [] }

stores_one :
    (handle_messages parsers one_link
      (drain ∷ received message 6 replies ∷ received message 100 replies ∷ [])
      worker).0
    ≡ (7, true) ∷ (7, false) ∷ []
unfolding handle_messages handle_msg sender_nick channel_name get insert log_text extract_urls check
    host_addresses check_addresses is_public_address db_add_url clean
stores_one = refl

ready : Ready message workspace
ready = record {
  named = record { users = tt; channels = tt };
  short_name = omega arith;
  short_sender = record { bot = tt; hint = tt };
  short_channel = omega arith;
}

handle_msg-sends_example :
    ((handle_msg parsers one_link replies message worker).1.sent
      ≡ []
        ++ admitted parsers replies empty_filter (records parsers one_link replies message worker))
    × ((handle_msg parsers one_link replies message worker).0
        ≡ not (
            true
            && refuses parsers replies empty_filter (
                admitted parsers replies empty_filter
                  (records parsers one_link replies message worker))))
handle_msg-sends_example = handle_msg-sends parsers one_link replies message worker ready

handle_messages-waiters_example :
    map
      (λ x. x.0)
      (handle_messages parsers one_link
        (received message 6 replies ∷ drain ∷ received message 100 replies ∷ [])
        worker).0
    ≡ 7 ∷ 7 ∷ []
handle_messages-waiters_example =
    handle_messages-waiters parsers one_link
      (received message 6 replies ∷ drain ∷ received message 100 replies ∷ []) worker

abbrev key : EventKey
key = record { team = codes "T1"; app = codes "A1"; event_id = codes "E1" }

abbrev other : EventKey
other = record { team = codes "T1"; app = codes "A1"; event_id = codes "E2" }

abbrev ingress : Ingress
ingress = record {
  accepting = true;
  seen = record { entries = []; capacity = 8192 };
  counters = zero_counters;
}

abbrev knows : Ingress
knows = record ingress {
  seen = record { entries = record { key = key; expires = 100; value = tt } ∷ []; capacity = 8192 };
}

enqueue-Outcome_example : Outcome key 5 ingress (enqueue key 5 queue_full ingress)
enqueue-Outcome_example = enqueue-Outcome key 5 queue_full ingress

enters : (enqueue key 5 queued ingress).in_queue ≡ true
unfolding enqueue get
enters = refl

abbrev between : List Delivery
between =
    record { key = other; now = 10; sent = queued }
    ∷ record { key = key; now = 20; sent = queued }
    ∷ []

abbrev state : BotState
state = record {
  workspace = 0;
  team_id = codes "T1";
  app_id = codes "A1";
  dry_run = false;
  health = record { ready = false; failure = some different_app };
  ingress = ingress;
}

abbrev push : PushEvent
push = record {
  team_id = codes "T1";
  api_app_id = codes "A1";
  event_id = codes "E1";
  body = some event;
}

abbrev pushed_message : QueuedMessage
pushed_message = record {
  workspace = 0;
  expires_at = 5 + seconds 180;
  ts = 1234;
  channel = codes "C1";
  text = codes "<addr>";
  sender = sender_info event.sender;
  completion = none;
  dry_run = false;
}

push_queues : (handler_push_events any_second push 5 5 queued state).queue ≡ some pushed_message
unfolding handler_push_events should_process_message prepare_message message_timestamp enqueue get
push_queues = refl

handler_push_events-IsFrom_example : IsFrom any_second push 5 state pushed_message
handler_push_events-IsFrom_example =
    handler_push_events-IsFrom any_second push 5 5 queued state pushed_message push_queues

abbrev endings : List Ended
endings =
    record { connected_ms = none; error = other_error; jitter = 1 }
    ∷ record { connected_ms = some 60000; error = rate_limit (some 90000); jitter = 2 }
    ∷ []
