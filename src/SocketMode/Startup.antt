-- ===== src/SocketMode/Startup.antt =====
-- `Workspace::connect` and `connect_and_watch` of src/slackbot/socket_mode.rs: how a session of all
-- workspaces comes to be. What the Slack client answers within its time limits is an argument.
pub mod Distinct
use sjmb_slack.Prelude.{
  ℕ, suc, ◌≡◌, Bool, true, false, not, ◌&&◌, ◌||◌, List, [], ◌∷◌, ◌++◌, Option, none, some, any,
  if◌then◌else◌,
}
use sjmb_slack.Prelude.Text.{Text, text_eq, text_Eq}
use sjmb_slack.Prelude.Result.{Result, ok, err}
use sjmb_slack.Limits.Cache.{ExpiringCache, insert}
use sjmb_slack.Limits.LogText.{log_text}
use sjmb_slack.UrlFilter.Filter.{UrlFilter}
use sjmb_slack.Bot.Names.{non_empty}
use sjmb_slack.Bot.Workspace.{Workspace, channel_ttl}
use sjmb_slack.SocketMode.Health.{Failure}

pub data StartupError : Type 0 where
  call_failed call_timed_out no_bot_id duplicate_installation : StartupError
  token_refused listener_not_started no_hello monitors_stopped : StartupError
  unhealthy : Failure → StartupError

-- The answers to `auth.test` and `bots.info`, as far as they are read.
pub record AuthTest : Type 0 where
  pub auth_team : Text
  pub auth_bot : Option Text

pub record ListedChannel : Type 0 where
  pub channel_id : Text
  pub name_normalized : Option Text

abbrev pub cache_capacity : ℕ
cache_capacity = 4096

abbrev pub empty_cache : ExpiringCache Text Text
empty_cache = record { entries = []; capacity = cache_capacity }

abbrev pub plain_name : Option Text → Option Text
plain_name none = none
plain_name (some name) = non_empty name

abbrev pub cache_name : Text → Option Text → ℕ → ExpiringCache Text Text → ExpiringCache Text Text
cache_name id none now cache = cache
cache_name id (some name) now cache = insert cache id (log_text name 256) now channel_ttl

-- The loop over the channels of a page; the clock is read at each.
unfoldable pub cache_page :
    (ℕ → ℕ) → ℕ → List ListedChannel → ExpiringCache Text Text → ExpiringCache Text Text
cache_page clock n [] cache = cache
cache_page clock n (c ∷ rest) cache =
    cache_page clock (suc n) rest
      (cache_name c.channel_id (plain_name c.name_normalized) (clock n) cache)

-- The loop over the pages of the scroller, which ends with the first error.
unfoldable pub cache_pages :
    (ℕ → ℕ → ℕ)
    → ℕ
    → List (Result StartupError (List ListedChannel))
    → ExpiringCache Text Text
    → Result StartupError (ExpiringCache Text Text)
unfolding cache_page
cache_pages clock n [] cache = ok cache
cache_pages clock n (err e ∷ rest) cache = err e
cache_pages clock n (ok page ∷ rest) cache =
    cache_pages clock (suc n) rest (cache_page (clock n) 0 page cache)

-- What is known of a workspace from its configuration and from Slack.
pub record Startup : Type 0 where
  pub name : Text
  pub url_filter : UrlFilter
  pub auth_test : Result StartupError AuthTest
  pub bots_info : Text → Result StartupError Text
  pub pages : List (Result StartupError (List ListedChannel))
  pub clock : ℕ → ℕ → ℕ
  pub registered : Result StartupError (Unit {0})
  pub started : Bool
  pub hello : Option (Result Failure (Unit {0}))

abbrev pub connected_as :
    Startup
    → Text
    → Text
    → Result StartupError (ExpiringCache Text Text)
    → Result StartupError Workspace
connected_as s team app (err e) = err e
connected_as s team app (ok cache) = ok (record {
  name = s.name;
  url_filter = s.url_filter;
  team_id = team;
  app_id = app;
  users = empty_cache;
  channels = cache;
  user_retry_at = none;
  channel_retry_at = none;
})

abbrev pub known_app : Startup → Text → Result StartupError Text → Result StartupError Workspace
known_app s team (err e) = err e
known_app s team (ok app) = connected_as s team app (cache_pages s.clock 0 s.pages empty_cache)

abbrev pub known_team : Startup → Result StartupError AuthTest → Result StartupError Workspace
known_team s (err e) = err e
known_team s (ok auth) = elim auth.auth_bot [
  | none ↦ err no_bot_id
  | some bot ↦ known_app s auth.auth_team (s.bots_info bot)
]

unfoldable pub connect : Startup → Result StartupError Workspace
unfolding cache_pages
connect s = known_team s s.auth_test

-- `(team_id, app_id)`, and the set of those.
abbrev pub same_installation : Workspace → Workspace → Bool
same_installation v w = text_eq v.team_id w.team_id && text_eq v.app_id w.app_id

abbrev pub installed : List Workspace → Workspace → Bool
installed ws w = any (same_installation w) ws

-- The listener of a workspace, from its registration to its hello.
unfoldable pub listen : Startup → Result StartupError (Unit {0})
listen s = elim s.registered [
  | err e ↦ err e
  | ok _ ↦ if not s.started then err listener_not_started else elim s.hello [
    | none ↦ err no_hello
    | some (err f) ↦ err (unhealthy f)
    | some (ok _) ↦ ok tt
  ]
]

-- The loop over the workspaces: its result, and those that have a listener to be shut down.
unfoldable pub start_all :
    List Startup → List Workspace → Result StartupError (Unit {0}) × List Workspace
unfolding connect listen
start_all [] listeners = (ok tt, listeners)
start_all (s ∷ rest) listeners = elim (connect s) [
  | err e ↦ (err e, listeners)
  | ok w ↦ elim (installed listeners w) [
    | true ↦ (err duplicate_installation, listeners)
    | false ↦ elim (listen s) [
      | err e ↦ (err e, listeners ++ w ∷ [])
      | ok _ ↦ start_all rest (listeners ++ w ∷ [])
    ]
  ]
]

-- `connect_and_watch`: its error, the time since when all are connected, and the listeners. The first
-- failure that a monitor meets ends it.
pub record Watched : Type 0 where
  pub error : StartupError
  pub registered_since : Option ℕ
  pub listeners : List Workspace

abbrev pub watched : ℕ → Option Failure → Result StartupError (Unit {0}) × List Workspace → Watched
watched now failure (err e, listeners) = record {
  error = e;
  registered_since = none;
  listeners = listeners;
}
watched now failure (ok _, listeners) = record {
  error = elim failure [ none ↦ monitors_stopped | some f ↦ unhealthy f ];
  registered_since = some now;
  listeners = listeners;
}

unfoldable pub connect_and_watch : List Startup → ℕ → Option Failure → Watched
unfolding start_all
connect_and_watch startups now failure = watched now failure (start_all startups [])
