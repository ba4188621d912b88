-- ===== src/Tests/SocketTests.antt =====
-- Runs of the Socket Mode sessions.
use sjmb_slack.Prelude.{◌≡◌, refl, true, false, [], ◌∷◌, List, none, some, arith}
use sjmb_slack.Prelude.Text.{Text, codes, text_Eq}
use sjmb_slack.Prelude.Result.{ok}
use sjmb_slack.Limits.Counters.{zero_counters}
use sjmb_slack.UrlFilter.Filter.{empty_filter}
use sjmb_slack.SocketMode.Health.{different_app, default_health, fail, check_health}
use sjmb_slack.SocketMode.Health.Waits.{
  WatchStep, waits, notifies, fails, watch, run_watch, three_waits, wait_at, notify, IsFinished,
  run_watch-wakes,
}
use sjmb_slack.SocketMode.Ingress.{EventKey, key_Eq, Ingress, queued, enqueue}
use sjmb_slack.SocketMode.Sessions.{SessionEvents, begin_session, run_socket_sessions}
use sjmb_slack.SocketMode.Sessions.Once.{run_socket_sessions-remembered}
use sjmb_slack.SocketMode.Startup.{
  Startup, duplicate_installation, connect_and_watch, connect, listen, cache_pages,
}
use sjmb_slack.SocketMode.Startup.Distinct.{Sound, connect_and_watch-Sound}
use sjmb_slack.CommandLine.{OptsCommon, info_level, log_filter}

-- A failure between the check of the waiter and its sleep.
abbrev watch_steps : List WatchStep
watch_steps = waits ∷ fails different_app ∷ notifies ∷ waits ∷ []

calm : (run_watch true watch_steps (watch default_health false)).owed ≡ 0
unfolding wait_at check_health notify fail
calm = refl

broken :
    (run_watch true watch_steps (watch default_health false)).health.failure ≡ some different_app
unfolding wait_at check_health notify fail
broken = refl

run_watch-wakes_example :
    IsFinished (three_waits true (run_watch true watch_steps (watch default_health false))).waiter
run_watch-wakes_example =
    run_watch-wakes true watch_steps default_health false different_app calm broken

abbrev event_key : Text → EventKey
event_key id = record { team = codes "T1"; app = codes "A1"; event_id = id }

abbrev knowing : Ingress
knowing = record {
  accepting = false;
  seen = record {
    entries = record { key = event_key (codes "E1"); expires = 100; value = tt } ∷ [];
    capacity = 8192;
  };
  counters = zero_counters;
}

abbrev two_sessions : List SessionEvents
two_sessions =
    record {
      delivered = record { key = event_key (codes "E2"); now = 10; sent = queued } ∷ [];
      late = record { key = event_key (codes "E3"); now = 12; sent = queued } ∷ [];
    }
    ∷ record {
      delivered = record { key = event_key (codes "E4"); now = 20; sent = queued } ∷ [];
      late = [];
    }
    ∷ []

run_socket_sessions-remembered_example :
    ((enqueue
        (event_key (codes "E1"))
        50
        queued
        (begin_session (run_socket_sessions two_sessions knowing))).in_queue
      ≡ false)
    × ((enqueue
          (event_key (codes "E1"))
          50
          queued
          (begin_session (run_socket_sessions two_sessions knowing))).result
        ≡ ok tt)
run_socket_sessions-remembered_example =
    run_socket_sessions-remembered (event_key (codes "E1")) 100 two_sessions knowing 50 queued
      (record { found = refl; free = omega arith }) ((omega arith, tt), ((omega arith, tt), tt))
      (omega arith)

abbrev startup : Text → Startup
startup name = record {
  name = name;
  url_filter = empty_filter;
  auth_test = ok (record { auth_team = codes "T1"; auth_bot = some (codes "B1") });
  bots_info = λ bot. ok (codes "A1");
  pages = ok (record { channel_id = codes "C1"; name_normalized = some (codes "main") } ∷ []) ∷ [];
  clock = λ page n. 10;
  registered = ok tt;
  started = true;
  hello = some (ok tt);
}

-- Two workspaces of one installation.
abbrev startups : List Startup
startups = startup (codes "foo") ∷ startup (codes "bar") ∷ []

refused : (connect_and_watch startups 5 none).error ≡ duplicate_installation
unfolding connect_and_watch connect listen cache_pages
refused = refl

connect_and_watch-Sound_example : Sound startups (connect_and_watch startups 5 none)
connect_and_watch-Sound_example = connect_and_watch-Sound startups 5 none

abbrev tracing : OptsCommon
tracing = record { verbose = false; debug = false; trace = true; bot_config = [] }

traced : (log_filter tracing).default_level ≡ info_level
unfolding log_filter
traced = refl
