-- ===== src/UserSession/Process/Settled.antt =====
-- What an event does to the recovery state.
use sjmb_slack.Prelude.{
  ℕ, ◌≡◌, refl, inl, inr, Bool, true, false, List, [], ◌∷◌, Option, none, some, any, All, arith,
  length, ltb, not, ◌&&◌, ◌++◌, ap, sym, length-append, Bool-cases, Option-cases,
}
use sjmb_slack.Prelude.Text.{Text}
use sjmb_slack.Prelude.Result.{Result, ok, err}
use sjmb_slack.Limits.Counters.{Counters, duplicates, bump}
use sjmb_slack.State.Store.{seen, processed, failed}
use sjmb_slack.State.Store.Bounds.{Call, processes, remembers, fails, run}
use sjmb_slack.Bot.Intake.{MessageEvent, QueuedMessage}
use sjmb_slack.UserSession.Json.{Value}
use sjmb_slack.UserSession.Events.{Normal, normalise}
use sjmb_slack.UserSession.Process.{
  Handled, receipt, admission_timed_out, worker_closed, processing_timed_out, receipt_dropped,
  ProcessError, missing_channel, unhandled, offer, Session, Clock, remember, finish,
  process_prepared, process_new, process_normal, process,
}

module _ (in_range : ℕ → Bool) (decode : Value → Option MessageEvent) where
  -- The message of an event, in its channel.
  abbrev pub IsMessage : Value → Text → Normal → Type 0
  IsMessage v id n =
      ((counters : Counters) × ((normalise in_range decode v counters).0 ≡ some n))
      × (n.message.channel ≡ some id)

  -- The calls that follow on an outcome, each for the event's message in its own channel: a positive
  -- receipt records the message, anything else marks the channel as failed, and the message's thread
  -- may be remembered either way.
  abbrev pub Settles : Value → Handled → Call → Type 0
  Settles v h (remembers id parent at pruned_at) =
      (n : Normal) × IsMessage v id n × (n.thread ≡ some parent)
  Settles v h (processes id ts thread at) =
      (n : Normal) × IsMessage v id n × (ts ≡ n.ts) × (thread ≡ n.thread) × (h ≡ receipt true)
  Settles v h (fails id) = (n : Normal) × IsMessage v id n × ((h ≡ receipt true) → ⊥)
  Settles v h _ = ⊥

-- Whether a call marks a channel as failed.
abbrev pub marks_failed : Call → Bool
marks_failed (fails id) = true
marks_failed _ = false

-- Whether a call records a message.
abbrev pub marks_processed : Call → Bool
marks_processed (processes id ts thread at) = true
marks_processed _ = false

-- Whether a message was offered to the queue.
abbrev pub has_offered : Session → Session → Bool
has_offered before after = ltb (length before.offered) (length after.offered)

-- Whether a result says that the message was not handled.
abbrev pub is_unhandled : Result ProcessError (Unit {0}) → Bool
is_unhandled (err (unhandled h)) = true
is_unhandled _ = false

-- The calls of the store in which an event results.
pub record Settled (in_range : ℕ → Bool) (decode : Value → Option MessageEvent) (v : Value)
    (h : Handled) (before : Session) (r : Result ProcessError (Unit {0}) × Session) : Type 0 where
  pub made : List Call
  pub reached : r.1.store ≡ run in_range made before.store
  pub settled : All (Settles in_range decode v h) made
  pub failures : any marks_failed made ≡ is_unhandled r.0
  pub recorded : any marks_processed made ≡ (has_offered before r.1 && not (is_unhandled r.0))

module _ (in_range : ℕ → Bool) (decode : Value → Option MessageEvent) (workspace : ℕ)
    (dry_run : Bool) (v : Value) where
  -- A session whose store stays.
  unsettled :
      (h : Handled) (before : Session) (r : Result ProcessError (Unit {0}) × Session)
      → r.1.store ≡ before.store
      → r.1.offered ≡ before.offered
      → is_unhandled r.0 ≡ false
      → Settled in_range decode v h before r
  unsettled h before r same offered fine = record {
    made = [];
    reached = same;
    settled = tt;
    failures = sym fine;
    recorded = rw offered ground (arith, fine);
  }

  module _ (id : Text) (n : Normal) (message : IsMessage in_range decode v id n) where
    not_handled :
        (h : Handled) (before s : Session)
        → has_offered before s ≡ true
        → s.store ≡ before.store
        → ((h ≡ receipt true) → ⊥)
        → Settled in_range decode v h before
            (err (unhandled h), record s { store = failed id s.store })
    not_handled h before s offered same unless = record {
      made = fails id ∷ [];
      reached = ap (failed id) same;
      settled = ((n, message, unless), tt);
      failures = refl;
      recorded = ground (arith, offered);
    }

    finish-Settled :
        (t : Clock) (h : Handled) (before s : Session)
        → has_offered before s ≡ true
        → s.store ≡ before.store
        → Settled in_range decode v h before (finish in_range decode workspace dry_run id n t h s)
    unfolding finish
    finish-Settled t (receipt true) before s offered same = record {
      made = processes id n.ts n.thread t.processed_at ∷ [];
      reached = ap (processed in_range id n.ts n.thread t.processed_at) same;
      settled = ((n, message, refl, refl, refl), tt);
      failures = refl;
      recorded = ground (arith, offered);
    }
    finish-Settled t (receipt false) before s offered same =
        not_handled (receipt false) before s offered same (λ e. ground (arith, e))
    finish-Settled t admission_timed_out before s offered same =
        not_handled admission_timed_out before s offered same (λ e. ground (arith, e))
    finish-Settled t worker_closed before s offered same =
        not_handled worker_closed before s offered same (λ e. ground (arith, e))
    finish-Settled t processing_timed_out before s offered same =
        not_handled processing_timed_out before s offered same (λ e. ground (arith, e))
    finish-Settled t receipt_dropped before s offered same =
        not_handled receipt_dropped before s offered same (λ e. ground (arith, e))

    prepared-Settled :
        (t : Clock) (waiter : ℕ) (h : Handled) (s : Session) (p : Option QueuedMessage × Counters)
        → Settled in_range decode v h s
            (process_prepared in_range decode workspace dry_run id n t waiter h s p)
    unfolding process_prepared
    prepared-Settled t waiter h s (none, c) =
        unsettled h s (ok tt, record s { counters = c }) refl refl refl
    prepared-Settled t waiter h s (some q, c) =
        let q' = offer in_range decode workspace dry_run waiter q in
        finish-Settled t h s (record s { counters = c; offered = s.offered ++ q' ∷ [] })
          (ground (arith, length-append s.offered (q' ∷ []))) refl

    new-Settled :
        (t : Clock) (waiter : ℕ) (h : Handled) (s : Session)
        → Settled in_range decode v h s
            (process_new in_range decode workspace dry_run id n t waiter h s)
    unfolding process_new
    new-Settled t waiter h s = elim (Bool-cases (seen id n.ts s.store)) [
      | inl old ↦
          rw (old, process_new)
            (unsettled h s (ok tt, record s { counters = bump duplicates s.counters }) refl refl
              refl)
      | inr fresh ↦ rw (fresh, process_new) (prepared-Settled t waiter h s _)
    ]

    -- A thread that is remembered first is one call more.
    remember-Settled :
        (thread : Option Text) (t : Clock) (h : Handled) (before : Session) (counters : Counters)
        (r : Result ProcessError (Unit {0}) × Session)
        → n.thread ≡ thread
        → Settled in_range decode v h
            (record before {
              counters = counters;
              store = remember in_range decode workspace dry_run id thread t before.store;
            })
            r
        → Settled in_range decode v h before r
    remember-Settled none t h before counters r e a = record {
      made = a.made;
      reached = a.reached;
      settled = a.settled;
      failures = a.failures;
      recorded = a.recorded;
    }
    remember-Settled (some parent) t h before counters r e a = record {
      made = remembers id parent t.thread_at t.pruned_at ∷ a.made;
      reached = a.reached;
      settled = ((n, message, e), a.settled);
      failures = a.failures;
      recorded = a.recorded;
    }

  normal-Settled :
      (t : Clock) (waiter : ℕ) (h : Handled) (s : Session) (counters : Counters)
      (o : Option Normal × Counters)
      → (normalise in_range decode v counters).0 ≡ o.0
      → Settled in_range decode v h s
          (process_normal in_range decode workspace dry_run t waiter h s o)
  normal-Settled t waiter h s counters (none, c) e =
      unsettled h s (ok tt, record s { counters = c }) refl refl refl
  normal-Settled t waiter h s counters (some n, c) e = elim (Option-cases n.message.channel) [
    | inl bare ↦
        rw bare (unsettled h s (err missing_channel, record s { counters = c }) refl refl refl)
    | inr (id, channel) ↦
        let message : IsMessage in_range decode v id n = ((counters, e), channel) in
        rw channel (
          remember-Settled id n message n.thread t h s c _ refl
            (new-Settled id n message t waiter h _))
  ]

-- An event reaches the recovery state through calls of the store alone. A message that was offered to
-- the queue is recorded as processed, with its own timestamp and thread in its own channel, on a positive
-- receipt of the worker; whatever else becomes of it, its own channel is marked as failed, exactly when
-- the caller sees the error. Nothing else is recorded or marked.
pub process-Settled :
    (in_range : ℕ → Bool) (decode : Value → Option MessageEvent) (workspace : ℕ) (dry_run : Bool)
    (event : Value) (t : Clock) (waiter : ℕ) (h : Handled) (s : Session)
    → Settled in_range decode event h s
        (process in_range decode workspace dry_run event t waiter h s)
unfolding process
process-Settled in_range decode workspace dry_run event t waiter h s =
    normal-Settled in_range decode workspace dry_run event t waiter h s s.counters
      (normalise in_range decode event s.counters) refl
