-- ===== src/UserSession/Connection.antt =====
-- `Session::new`, `run` and `connection` of src/slackbot/user_session.rs: the log-in, the loop of
-- connections with its back-off, and the start of a connection. Durations are in milliseconds; what
-- Slack and the disk do is an argument, and so are the parsers and the address of the gateway.
pub mod Persists
pub mod Dials
use sjmb_slack.Prelude.{
  ℕ, zero, suc, ◌*◌, ◌≡◌, min, Bool, true, false, not, ◌&&◌, ◌||◌, List, [], ◌∷◌, ◌++◌, Option,
  none, some, leb, ◌==◌, if◌then◌else◌,
}
use sjmb_slack.Prelude.Int.{ℤ}
use sjmb_slack.Prelude.Text.{Text, codes}
use sjmb_slack.Prelude.Result.{Result, ok, err}
use sjmb_slack.Url.{Url}
use sjmb_slack.State.{valid_id}
use sjmb_slack.State.Store.{Store, StoreError, begin_connection}
use sjmb_slack.Bot.Names.{unwrap_or}
use sjmb_slack.UserSession.Json.{Value, at_key, as_str, is_text}
use sjmb_slack.UserSession.Events.{
  ApiError, authentication, rate_limited, other_api_error, check_error, retry_delay,
  validate_socket_url,
}
use sjmb_slack.UserSession.Api.{authentication_error, retry_after}
use sjmb_slack.UserSession.Process.{Session}
use sjmb_slack.UserSession.Members.{Directory, DiscoveryError, Members, discover_channels}
use sjmb_slack.UserSession.Consumer.{Live, with_store}

-- An answer to `auth.test`, with the jitter of the pause after it.
pub record AuthAttempt : Type 0 where
  pub answer : Result ApiError Value
  pub auth_jitter : ℕ

-- The loop of `Session::new`: the pauses, and how it ends, if it has ended.
unfoldable pub authenticate : ℕ → List AuthAttempt → List ℕ × Option (Result ApiError Value)
authenticate delay [] = ([], none)
authenticate delay (a ∷ rest) = elim a.answer [
  | ok auth ↦ ([], some (ok auth))
  | err e ↦
      let later = authenticate (min (delay * 2) 30) rest in
      if authentication_error e
      then ([], some (err e))
      else (retry_delay delay a.auth_jitter e ∷ later.0, later.1)
]

pub data IdentityError : Type 0 where
  invalid_team_id invalid_user_id : IdentityError

abbrev pub valid_field : Option Text → Option Text
valid_field none = none
valid_field (some id) = if valid_id id then some id else none

-- The team and the user of an answer, and the id that stands for the app.
unfoldable pub identify : Value → Result IdentityError (Text × Text × Text)
identify auth = elim (valid_field (as_str (at_key (codes "team_id") auth))) [
  | none ↦ err invalid_team_id
  | some team ↦ elim (valid_field (as_str (at_key (codes "user_id") auth))) [
    | none ↦ err invalid_user_id
    | some user ↦ ok (team, user, codes "user-session-" ++ user)
  ]
]

-- A connection that ended: how long it was, whether the state was saved after it, the error and the
-- jitter. An end without an error counts as an error of no particular type.
pub record EndedConnection : Type 0 where
  pub error : ApiError
  pub saved : Bool
  pub elapsed : ℕ
  pub jitter : ℕ

pub data SessionEnd : Type 0 where
  still_running save_failed : SessionEnd
  session_refused : ApiError → SessionEnd

abbrev pub reset : ℕ → ℕ → ℕ
reset elapsed backoff = if leb 60000 elapsed then 2 else backoff

-- The loop of `Session::run`, for connections that end one after another: its pauses, and its end.
unfoldable pub run_session : ℕ → List EndedConnection → List ℕ × SessionEnd
run_session backoff [] = ([], still_running)
run_session backoff (c ∷ rest) =
    let now = reset c.elapsed backoff in
    let later = run_session (min (now * 2) 30) rest in
    if not c.saved
    then ([], save_failed)
    else if authentication_error c.error
    then ([], session_refused c.error)
    else (retry_delay now c.jitter c.error ∷ later.0, later.1)

-- How the websocket's handshake ends.
pub data Handshake : Type 0 where
  connected connect_timed_out connect_failed : Handshake
  http_refused : (status : ℕ) (retry_header : Option Text) → Handshake

unfoldable pub check_handshake : (ℕ → Text) → Handshake → Result ApiError (Unit {0})
check_handshake display_status connected = ok tt
check_handshake display_status connect_timed_out = err other_api_error
check_handshake display_status connect_failed = err other_api_error
check_handshake display_status (http_refused status header) =
    if status == 401 || status == 403
    then err (authentication (codes "websocket HTTP " ++ display_status status))
    else if status == 429
    then err (rate_limited (retry_after header))
    else err other_api_error

-- A frame before the hello: the JSON of a text, none if it is invalid.
pub data HelloFrame : Type 0 where
  hello_text : Option Value → HelloFrame
  hello_ping : (answered : Bool) → HelloFrame
  hello_other hello_close hello_failed : HelloFrame

-- The loop up to the hello, on the frames that come in time.
unfoldable pub await_hello : List HelloFrame → Result ApiError (Unit {0})
await_hello [] = err other_api_error
await_hello (hello_text none ∷ rest) = err other_api_error
await_hello (hello_text (some event) ∷ rest) = elim (check_error event) [
  | err e ↦ err e
  | ok _ ↦ elim (is_text (codes "hello") (at_key (codes "type") event)) [
    | true ↦ ok tt
    | false ↦ await_hello rest
  ]
]
await_hello (hello_ping true ∷ rest) = await_hello rest
await_hello (hello_ping false ∷ rest) = err other_api_error
await_hello (hello_other ∷ rest) = await_hello rest
await_hello (hello_close ∷ rest) = err other_api_error
await_hello (hello_failed ∷ rest) = err other_api_error

-- A connection up to the hello: its result, the ticket that is left, and the websocket that was dialed,
-- with the session's cookie.
pub record Opening : Type 0 where
  pub result : Result ApiError (Unit {0})
  pub ticket : Option Text
  pub dialed : Option Url

module _ (parse_url : Text → Option Url) (display_status : ℕ → Text) (gateway : Text) where
  abbrev pub greet : Handshake → List HelloFrame → Result ApiError (Unit {0})
  greet h frames = elim (check_handshake display_status h) [
    | err e ↦ err e
    | ok _ ↦ await_hello frames
  ]

  unfoldable pub open_connection : Handshake → List HelloFrame → Option Text → Opening
  open_connection h frames ticket =
      elim (validate_socket_url parse_url (unwrap_or ticket gateway)) [
        | err e ↦ record { result = err other_api_error; ticket = none; dialed = none }
        | ok url ↦ record { result = greet h frames; ticket = none; dialed = some url }
      ]

pub data StartError : Type 0 where
  from_discovery : DiscoveryError → StartError
  from_store : StoreError → StartError
  start_save_failed start_unfinished : StartError

-- The start of the processing: the members, the recovery state of the connection, and its save.
unfoldable pub begun :
    ℤ → Bool → Live → Result StoreError (Unit {0}) × Store → Result StartError (Unit {0}) × Live
begun began saved l (err e, store) = (err (from_store e), with_store l store)
begun began saved l (ok u, store) =
    (if saved then ok tt else err start_save_failed, with_store l store)

unfoldable pub start_processing :
    ℤ
    → Bool
    → Option (Result DiscoveryError (Unit {0}) × Members)
    → Live
    → Result StartError (Unit {0}) × Live
unfolding begun
start_processing began saved none l = (err start_unfinished, l)
start_processing began saved (some (err e, m)) l =
    (err (from_discovery e), record l { members = m })
start_processing began saved (some (ok u, m)) l =
    begun began saved (record l { members = m }) (begin_connection m.members began l.session.store)
