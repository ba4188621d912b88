-- ===== src/UserSession/Consumer.antt =====
-- `consume` of src/slackbot/user_session.rs: the live events, one after another. What Slack, the queue
-- and the worker make of an event, and the readings of the clocks, are arguments.
pub mod Calls
pub mod Events
pub mod Consumed
pub mod Frozen
use sjmb_slack.Prelude.{
  ℕ, zero, suc, ◌≡◌, Bool, true, false, not, ◌&&◌, ◌||◌, List, [], ◌∷◌, Option, none, some, ltb,
  length, if◌then◌else◌,
}
use sjmb_slack.Prelude.Int.{ℤ}
use sjmb_slack.Prelude.Text.{Text, codes}
use sjmb_slack.Prelude.Result.{Result, ok, err}
use sjmb_slack.State.{max_channels, valid_id}
use sjmb_slack.State.Store.{Store, StoreError, contains, add_channel, checkpoint}
use sjmb_slack.Bot.Intake.{MessageEvent}
use sjmb_slack.UserSession.Json.{Value, at_key, as_str, is_true, is_text}
use sjmb_slack.UserSession.Events.{ApiError, channel_prefix, eligible_channel}
use sjmb_slack.UserSession.Process.{Handled, ProcessError, Session, Clock, process}
use sjmb_slack.UserSession.Reader.{LiveEvent, live_message, live_checkpoint}
use sjmb_slack.UserSession.Members.{
  Directory, DiscoveryError, Members, add_id, cache_channel, discover_channels,
}

pub data ConsumeError : Type 0 where
  from_discovery : DiscoveryError → ConsumeError
  from_store : StoreError → ConsumeError
  from_info : ApiError → ConsumeError
  from_process : ProcessError → ConsumeError
  save_failed joined_limit discovery_unfinished receiver_closed : ConsumeError

pub record Live : Type 0 where
  pub session : Session
  pub members : Members

-- What the world does with one event: the prune after a checkpoint and the save; the list of channels
-- and the clock at each of them; the answer on an unknown channel, with the clocks at its entry; the
-- clock and the number of the message, and how the message is handled.
pub record LiveWorld : Type 0 where
  pub pruned_at : ℤ
  pub saved : Bool
  pub directory : Directory
  pub added_at : ℕ → ℤ
  pub info : Result ApiError Value
  pub joined_at : ℤ
  pub cached_at : ℕ
  pub clock : Clock
  pub waiter : ℕ
  pub handled : Handled

abbrev pub with_store : Live → Store → Live
with_store l store = record l { session = record l.session { store = store } }

unfoldable pub consume_checkpoint : ℤ → LiveWorld → Live → Result ConsumeError (Unit {0}) × Live
consume_checkpoint at w l =
    let after = with_store l (checkpoint at w.pruned_at l.session.store) in
    if w.saved then (ok tt, after) else (err save_failed, after)

-- The loop over the members after a discovery.
unfoldable pub add_members :
    (ℕ → ℤ) → ℕ → List Text → Store → Result ConsumeError (Unit {0}) × Store
add_members at n [] s = (ok tt, s)
add_members at n (id ∷ ids) s =
    let one = add_channel id (at n) s in
    elim one.0 [ err e ↦ (err (from_store e), one.1) | ok _ ↦ add_members at (suc n) ids one.1 ]

abbrev pub stored :
    Live → Result ConsumeError (Unit {0}) × Store → Result ConsumeError (Unit {0}) × Live
stored l out = (out.0, with_store l out.1)

unfoldable pub consume_change :
    Option (Result DiscoveryError (Unit {0}) × Members)
    → LiveWorld
    → Live
    → Result ConsumeError (Unit {0}) × Live
unfolding add_members
consume_change none w l = (err discovery_unfinished, l)
consume_change (some (err e, m)) w l = (err (from_discovery e), record l { members = m })
consume_change (some (ok _, m)) w l =
    stored (record l { members = m }) (add_members w.added_at 0 m.members l.session.store)

-- The channel of a message, if it may be one of the session.
unfoldable pub live_channel : Value → Option Text
live_channel event = elim (as_str (at_key (codes "channel") event)) [
  | none ↦ none
  | some id ↦ if valid_id id && channel_prefix id then some id else none
]

module _ (in_range : ℕ → Bool) (decode : Value → Option MessageEvent) (workspace : ℕ)
    (dry_run : Bool) where
  abbrev pub processed_live :
      Live → Result ProcessError (Unit {0}) × Session → Result ConsumeError (Unit {0}) × Live
  processed_live l (ok u, s) = (ok tt, record l { session = s })
  processed_live l (err e, s) = (err (from_process e), record l { session = s })

  unfoldable pub process_live : Value → LiveWorld → Live → Result ConsumeError (Unit {0}) × Live
  process_live event w l =
      processed_live l
        (process in_range decode workspace dry_run event w.clock w.waiter w.handled l.session)

  abbrev pub join_member : Text → Live → Live
  join_member id l = record l {
    members = record l.members { members = add_id id l.members.members };
  }

  -- An unknown channel that the session is a member of becomes known.
  unfoldable pub admit_channel :
      Text → Value → Value → LiveWorld → Live → Result ConsumeError (Unit {0}) × Live
  unfolding process_live
  admit_channel id channel event w l =
      let joined = join_member id l in
      let added = add_channel id w.joined_at l.session.store in
      elim added.0 [
        | err e ↦ (err (from_store e), with_store joined added.1)
        | ok _ ↦ process_live event w (record (with_store joined added.1) {
          members = record joined.members {
            names = cache_channel channel w.cached_at l.members.names;
          };
        })
      ]

  unfoldable pub meet_channel :
      Text
      → Result ApiError Value
      → Value
      → LiveWorld
      → Live
      → Result ConsumeError (Unit {0}) × Live
  unfolding admit_channel
  meet_channel id (err e) event w l = (err (from_info e), l)
  meet_channel id (ok response) event w l =
      let channel = at_key (codes "channel") response in
      if not (eligible_channel channel) || not (is_true (at_key (codes "is_member") channel))
      then (ok tt, l)
      else if ltb (length l.members.members) max_channels
      then admit_channel id channel event w l
      else (err joined_limit, l)

  unfoldable pub consume_message :
      Option Text → Value → LiveWorld → Live → Result ConsumeError (Unit {0}) × Live
  unfolding meet_channel
  consume_message none event w l = (ok tt, l)
  consume_message (some id) event w l =
      if contains l.members.members id
      then process_live event w l
      else meet_channel id w.info event w l

  unfoldable pub consume_event :
      LiveEvent → LiveWorld → Live → Result ConsumeError (Unit {0}) × Live
  unfolding consume_checkpoint consume_change consume_message
  consume_event (live_checkpoint at) w l = consume_checkpoint at w l
  consume_event (live_message event) w l =
      if not (is_text (codes "message") (at_key (codes "type") event))
      then consume_change (discover_channels w.directory l.members) w l
      else consume_message (live_channel event) event w l

  -- The loop, on the events that come before the queue is closed.
  unfoldable pub consume : List (LiveEvent × LiveWorld) → Live → ConsumeError × Live
  unfolding consume_event
  consume [] l = (receiver_closed, l)
  consume ((event, w) ∷ rest) l =
      let one = consume_event event w l in
      elim one.0 [ err e ↦ (e, one.1) | ok _ ↦ consume rest one.1 ]
