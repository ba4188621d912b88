-- ===== src/Tests/RecoveryTests.antt =====
-- Runs of the discovery, of the consumer and of the passes of a recovery.
use sjmb_slack.Prelude.{◌≡◌, refl, true, false, [], ◌∷◌, List, arith}
use sjmb_slack.Prelude.Int.{pos, ◌-ℤ◌}
use sjmb_slack.Prelude.Text.{Text, codes}
use sjmb_slack.Prelude.Map.{modify, map_values, retain_entries}
use sjmb_slack.Prelude.Result.{ok}
use sjmb_slack.State.{Channel}
use sjmb_slack.State.Prune.{prune, cap_threads, drop_old_threads}
use sjmb_slack.State.Store.{retry_channel, seen, threads, processed}
use sjmb_slack.Harvest.Timestamp.{message_timestamp}
use sjmb_slack.Bot.Intake.{prepare_message, should_process_message}
use sjmb_slack.UserSession.Events.{normalise, next_cursor}
use sjmb_slack.State.Store.Progress.{mark_of}
use sjmb_slack.State.Store.Frozen.{IsFrozenAt}
use sjmb_slack.Limits.Cache.{ExpiringCache}
use sjmb_slack.UserSession.Json.{text, array, object, no_items, item, no_fields, field, boolean}
use sjmb_slack.UserSession.Process.{receipt, worker_closed, process}
use sjmb_slack.UserSession.Reader.{LiveEvent, live_message, live_checkpoint}
use sjmb_slack.UserSession.Members.{Directory, Members, discover_channels}
use sjmb_slack.UserSession.Members.Discovered.{Discovered, discover_channels-Discovered}
use sjmb_slack.UserSession.Members.Roster.{IsRoster}
use sjmb_slack.UserSession.Consumer.{Live, LiveWorld, consume}
use sjmb_slack.UserSession.Consumer.Consumed.{Consumed, consume-Consumed}
use sjmb_slack.UserSession.Consumer.Frozen.{consume-IsFrozenAt}
use sjmb_slack.UserSession.Recovery.{recover_channel, recover_pages}
use sjmb_slack.UserSession.Recovery.Pass.{oldest_of, recover_one}
use sjmb_slack.UserSession.Recovery.Pass.Marks.{Ended, recover_one-Ended}
use sjmb_slack.Tests.SessionTests.{
  any_second, c1, session, decode_message, keeps_channel, live_message as live_value, clock, world,
}

abbrev no_names : ExpiringCache Text Text
no_names = record { entries = []; capacity = 4 }

abbrev no_members : Members
no_members = record { members = []; names = no_names }

no_members-IsRoster : IsRoster no_members.members no_members.names
no_members-IsRoster = record {
  few = omega arith;
  distinct = tt;
  joinable = tt;
  cache = record { positive = omega arith; bounded = omega arith; distinct = tt };
  short = tt;
}

-- A directory of one page with one channel.
abbrev directory : Directory
directory = record {
  fetch = λ page cursor. ok (
      object (
        field (codes "channels")
          (array (item (object (field (codes "id") (text c1) no_fields)) no_items)) no_fields));
  clock = λ n. n;
}

discover_channels-Discovered_example :
    Discovered no_members (discover_channels directory no_members)
discover_channels-Discovered_example =
    discover_channels-Discovered directory no_members no_members-IsRoster

abbrev live_world : LiveWorld
live_world = record {
  pruned_at = pos 100;
  saved = true;
  directory = directory;
  added_at = λ n. pos 100;
  info = ok (
      object (
        field (codes "channel")
          (object
            (field (codes "id") (text c1) (field (codes "is_member") (boolean true) no_fields)))
          no_fields));
  joined_at = pos 100;
  cached_at = 100;
  clock = clock;
  waiter = 0;
  handled = receipt true;
}

abbrev live : Live
live = record { session = session; members = no_members }

-- A message, a checkpoint, and a message that is not handled.
abbrev events : List (LiveEvent × LiveWorld)
events =
    (live_message live_value, live_world)
    ∷ (live_checkpoint (pos 90), live_world)
    ∷ (live_message live_value, record live_world { handled = worker_closed })
    ∷ []

consume-Consumed_example :
    Consumed any_second decode_message events live
      (consume any_second decode_message 0 false events live).1
consume-Consumed_example =
    consume-Consumed any_second decode_message 0 false events live no_members-IsRoster

-- The session with a failed message in its channel.
abbrev failed_live : Live
failed_live = record live {
  session = record session {
    store = record session.store {
      snapshot = record session.store.snapshot {
        channels =
            (c1, record { covered_until = pos 40; threads = []; recovering = true; failed = true })
            ∷ [];
      };
    };
  };
}

consume-IsFrozenAt_example :
    IsFrozenAt
      (pos 40)
      (mark_of (consume any_second decode_message 0 false events failed_live).1.session.store c1)
consume-IsFrozenAt_example =
    consume-IsFrozenAt any_second decode_message 0 false events failed_live c1 (pos 40)
      no_members-IsRoster (refl, refl)

abbrev recovering_channel : Channel
recovering_channel = record {
  covered_until = pos 40;
  threads = [];
  recovering = true;
  failed = false;
}

recover_one-Ended_example :
    Ended any_second decode_message 0 false 3
      (pos 86400)
      (pos 100)
      world
      c1
      recovering_channel
      session
      (recover_one any_second decode_message 0 false 3
        (pos 86400)
        (pos 100)
        world
        c1
        recovering_channel
        session)
recover_one-Ended_example =
    recover_one-Ended any_second decode_message 0 false 3 (pos 86400) (pos 100) world keeps_channel
      c1 recovering_channel session

recovers :
    (recover_one any_second decode_message 0 false 3
      (pos 86400)
      (pos 100)
      world
      c1
      recovering_channel
      session).0
    ≡ ok tt
unfolding recover_one recover_channel recover_pages process normalise message_timestamp
    should_process_message seen prepare_message next_cursor threads processed prune cap_threads
    map_values drop_old_threads retain_entries retry_channel oldest_of ◌-ℤ◌ modify
recovers = refl
