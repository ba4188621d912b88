-- ===== src/UserSession/Recovery.antt =====
-- src/slackbot/user_session/recovery.rs: the messages of a gap, page by page. What Slack answers to a
-- page, and what becomes of a message, are arguments.
pub mod Own
pub mod Reached
pub mod Pages
pub mod Recovered
pub mod Failures
pub mod Fetched
pub mod Fetches
pub mod Complete
pub mod Pass
use sjmb_slack.Prelude.{
  ℕ, zero, suc, ◌+◌, ◌≡◌, Bool, true, false, not, ◌&&◌, ◌||◌, List, [], ◌∷◌, Option, none, some,
  leb, any, length, if◌then◌else◌,
}
use sjmb_slack.Prelude.Int.{ℤ, pos, leb_ℤ}
use sjmb_slack.Prelude.Text.{Text, codes, text_eq, is_empty}
use sjmb_slack.Prelude.Result.{Result, ok, err}
use sjmb_slack.Harvest.Timestamp.{message_timestamp}
use sjmb_slack.State.Store.{forget_thread, threads}
use sjmb_slack.Bot.Intake.{MessageEvent}
use sjmb_slack.UserSession.Json.{
  Value, null, text, array, object, Items, no_items, item, Fields, no_fields, field, at_key, as_str,
}
use sjmb_slack.UserSession.Events.{ApiError, request, CursorError, next_cursor}
use sjmb_slack.UserSession.Process.{Handled, ProcessError, Session, Clock, process}

pub data RecoveryError : Type 0 where
  from_api : ApiError → RecoveryError
  from_cursor : CursorError → RecoveryError
  from_process : ProcessError → RecoveryError
  missing_messages too_many_messages invalid_message cursor_repeated page_limit : RecoveryError

-- `object.insert`.
abbrev pub set_field : Text → Value → Fields → Fields
set_field k v no_fields = field k v no_fields
set_field k v (field j w rest) =
    if text_eq j k then field k v rest else field j w (set_field k v rest)

abbrev pub has_field : Text → Fields → Bool
has_field k no_fields = false
has_field k (field j w rest) = if text_eq j k then true else has_field k rest

-- `entry(key).or_insert_with(...)`.
abbrev pub default_field : Text → Value → Fields → Fields
default_field k v fields = if has_field k fields then fields else set_field k v fields

abbrev pub default_thread : Option Text → Fields → Fields
default_thread none fields = fields
default_thread (some thread) fields = default_field (codes "thread_ts") (text thread) fields

-- A history object with its channel, its type and its thread.
abbrev pub completed : Text → Option Text → Fields → Value
completed id thread fields = object (
    default_thread thread (
      default_field (codes "type") (text (codes "message"))
        (set_field (codes "channel") (text id) fields)))

abbrev pub count : Items → ℕ
count no_items = 0
count (item v rest) = suc (count rest)

-- What the world does during a recovery: the answer to a page, and for a message the clock and how it
-- is handled. A page is asked for by the method, the channel, the thread, its number and the cursor;
-- what becomes of a message may depend on all that was done before.
pub record World : Type 0 where
  pub fetch : Text → Text → Option Text → ℕ → Text → Result ApiError Value
  pub clock : Session → Clock
  pub handled : Session → Handled

module _ (in_range : ℕ → Bool) (decode : Value → Option MessageEvent) (workspace : ℕ)
    (dry_run : Bool) (w : World) where
  -- The bounds are whole seconds, the lower one and the upper one included.
  abbrev pub wanted : ℤ → ℤ → Option Text → Bool
  wanted oldest through none = false
  wanted oldest through (some ts) = elim (message_timestamp in_range ts) [
    | err _ ↦ false
    | ok seconds ↦ leb_ℤ oldest (pos seconds) && leb_ℤ (pos seconds) through
  ]

  abbrev pub process_wanted : Bool → Value → Session → Result ProcessError (Unit {0}) × Session
  process_wanted false event s = (ok tt, s)
  process_wanted true event s =
      process in_range decode workspace dry_run event (w.clock s) (length s.offered) (w.handled s) s

  -- The messages of a page, up to the first that fails.
  unfoldable pub process_page :
      Text → Option Text → ℤ → ℤ → Items → Session → Result RecoveryError (Unit {0}) × Session
  process_page id thread oldest through no_items s = (ok tt, s)
  process_page id thread oldest through (item (object fields) rest) s =
      let event = completed id thread fields in
      let one =
        process_wanted (wanted oldest through (as_str (at_key (codes "ts") event))) event s in
      elim one.0 [
        | err e ↦ (err (from_process e), one.1)
        | ok _ ↦ process_page id thread oldest through rest one.1
      ]
  process_page id thread oldest through (item _ rest) s = (err invalid_message, s)

  -- The messages of a response.
  unfoldable pub process_response :
      Text → Option Text → ℤ → ℤ → Value → Session → Result RecoveryError (Unit {0}) × Session
  unfolding process_page
  process_response id thread oldest through (array items) s =
      if leb (count items) 1000
      then process_page id thread oldest through items s
      else (err too_many_messages, s)
  process_response id thread oldest through _ s = (err missing_messages, s)

  abbrev pub repeated : List Text → Text → Bool
  repeated cursors cursor = any (λ c. text_eq c cursor) cursors

  -- The loop of `recover_pages`, of at most so many pages; the cursors are those of the pages so far.
  unfoldable pub recover_pages_from :
      Text
      → Text
      → Option Text
      → ℤ
      → ℤ
      → ℕ
      → ℕ
      → List Text
      → Text
      → Session
      → Result RecoveryError (Unit {0}) × Session
  unfolding process_response
  recover_pages_from method id thread oldest through zero page cursors cursor s =
      (err page_limit, s)
  recover_pages_from method id thread oldest through (suc left) page cursors cursor s =
      elim (w.fetch method id thread page cursor) [
        | err e ↦ (err (from_api e), s)
        | ok response ↦
            let done =
              process_response id thread oldest through (at_key (codes "messages") response) s in
            elim done.0 [
              | err e ↦ (err e, done.1)
              | ok _ ↦ elim (next_cursor response) [
                | err e ↦ (err (from_cursor e), done.1)
                | ok next ↦ elim (is_empty next) [
                  | true ↦ (ok tt, done.1)
                  | false ↦ elim (repeated cursors next) [
                    | true ↦ (err cursor_repeated, done.1)
                    | false ↦
                        recover_pages_from method id thread oldest through left (suc page)
                          (next ∷ cursors) next done.1
                  ]
                ]
              ]
            ]
      ]

  unfoldable pub recover_pages :
      ℕ → Text → Text → Option Text → ℤ → ℤ → Session → Result RecoveryError (Unit {0}) × Session
  unfolding recover_pages_from
  recover_pages max_pages method id thread oldest through s =
      recover_pages_from method id thread oldest through max_pages 0 [] [] s

  abbrev pub thread_gone : RecoveryError → Bool
  thread_gone (from_api (request method code)) = text_eq code (codes "thread_not_found")
  thread_gone _ = false

  -- The loop over the threads of the channel.
  unfoldable pub recover_threads :
      ℕ → Text → ℤ → ℤ → List Text → Session → Result RecoveryError (Unit {0}) × Session
  recover_threads max_pages id oldest through [] s = (ok tt, s)
  recover_threads max_pages id oldest through (thread ∷ rest) s =
      let one =
        recover_pages max_pages (codes "conversations.replies") id (some thread) oldest through s in
      elim one.0 [
        | ok _ ↦ recover_threads max_pages id oldest through rest one.1
        | err e ↦ elim (thread_gone e) [
          | true ↦
              recover_threads max_pages id oldest through rest
                (record one.1 { store = forget_thread id thread one.1.store })
          | false ↦ (err e, one.1)
        ]
      ]

  unfoldable pub recover_channel :
      ℕ → Text → ℤ → ℤ → Session → Result RecoveryError (Unit {0}) × Session
  unfolding recover_threads
  recover_channel max_pages id oldest through s =
      let history =
        recover_pages max_pages (codes "conversations.history") id none oldest through s in
      elim history.0 [
        | err e ↦ (err e, history.1)
        | ok _ ↦ recover_threads max_pages id oldest through (threads id history.1.store) history.1
      ]
