-- ===== src/UserSession/Process.antt =====
-- `Session::process` of src/slackbot/user_session.rs: one event, from its admission to the record that
-- it was processed. What the queue and the worker make of the message is an argument.
pub mod Settled
use sjmb_slack.Prelude.{
  ℕ, ◌≡◌, Bool, true, false, List, [], ◌∷◌, ◌++◌, Option, none, some, if◌then◌else◌,
}
use sjmb_slack.Prelude.Int.{ℤ}
use sjmb_slack.Prelude.Text.{Text}
use sjmb_slack.Prelude.Result.{Result, ok, err}
use sjmb_slack.Limits.Counters.{Counters, Counter, duplicates, bump}
use sjmb_slack.State.Store.{Store, seen, processed, remember_thread, failed}
use sjmb_slack.Bot.Intake.{MessageEvent, QueuedMessage, prepare_message}
use sjmb_slack.UserSession.Json.{Value}
use sjmb_slack.UserSession.Events.{Normal, normalise}

-- How the wait for a message ends: the worker's receipt, or why there is none.
pub data Handled : Type 0 where
  receipt : Bool → Handled
  admission_timed_out worker_closed processing_timed_out receipt_dropped : Handled

pub data ProcessError : Type 0 where
  missing_channel : ProcessError
  unhandled : Handled → ProcessError

-- The part of `Session` that an event changes, and the messages that were offered to the queue.
pub record Session : Type 0 where
  pub store : Store
  pub counters : Counters
  pub offered : List QueuedMessage

-- The readings of the clock: for the thread, for the prune after it, for the message, and at the end.
pub record Clock : Type 0 where
  pub thread_at : ℤ
  pub pruned_at : ℤ
  pub prepared_at : ℕ
  pub processed_at : ℤ

module _ (in_range : ℕ → Bool) (decode : Value → Option MessageEvent) (workspace : ℕ)
    (dry_run : Bool) where
  abbrev pub remember : Text → Option Text → Clock → Store → Store
  remember id none t s = s
  remember id (some parent) t s = remember_thread in_range id parent t.thread_at t.pruned_at s

  -- The end: the message is recorded only if the worker's receipt is positive.
  unfoldable pub finish :
      Text → Normal → Clock → Handled → Session → Result ProcessError (Unit {0}) × Session
  finish id n t (receipt true) s =
      (ok tt, record s { store = processed in_range id n.ts n.thread t.processed_at s.store })
  finish id n t h s = (err (unhandled h), record s { store = failed id s.store })

  -- `waiter` is the number of the receipt.
  abbrev pub offer : ℕ → QueuedMessage → QueuedMessage
  offer waiter q = record q { completion = some waiter; dry_run = dry_run }

  unfoldable pub process_prepared :
      Text
      → Normal
      → Clock
      → ℕ
      → Handled
      → Session
      → Option QueuedMessage × Counters
      → Result ProcessError (Unit {0}) × Session
  unfolding finish
  process_prepared id n t waiter h s (none, counters) = (ok tt, record s { counters = counters })
  process_prepared id n t waiter h s (some q, counters) =
      finish id n t h (record s { counters = counters; offered = s.offered ++ offer waiter q ∷ [] })

  unfoldable pub process_new :
      Text → Normal → Clock → ℕ → Handled → Session → Result ProcessError (Unit {0}) × Session
  unfolding process_prepared
  process_new id n t waiter h s =
      if seen id n.ts s.store
      then (ok tt, record s { counters = bump duplicates s.counters })
      else process_prepared id n t waiter h s
          (prepare_message in_range workspace n.message t.prepared_at s.counters)

  abbrev pub process_normal :
      Clock
      → ℕ
      → Handled
      → Session
      → Option Normal × Counters
      → Result ProcessError (Unit {0}) × Session
  process_normal t waiter h s (none, counters) = (ok tt, record s { counters = counters })
  process_normal t waiter h s (some n, counters) = elim n.message.channel [
    | none ↦ (err missing_channel, record s { counters = counters })
    | some id ↦
        process_new id n t waiter h
          (record s { counters = counters; store = remember id n.thread t s.store })
  ]

  unfoldable pub process :
      Value → Clock → ℕ → Handled → Session → Result ProcessError (Unit {0}) × Session
  unfolding process_new
  process event t waiter h s =
      process_normal t waiter h s (normalise in_range decode event s.counters)
