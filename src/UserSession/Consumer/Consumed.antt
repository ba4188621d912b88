-- ===== src/UserSession/Consumer/Consumed.antt =====
-- What the live events do to the recovery state and to the members.
use sjmb_slack.Prelude.{
  ℕ, ◌≡◌, refl, sym, ap, ◌∙◌, Bool, List, [], ◌∷◌, ◌++◌, Option, append-nil, All, inl, inr,
}
use sjmb_slack.Prelude.Result.{Result-cases}
use sjmb_slack.State.Store.Bounds.{Call, run}
use sjmb_slack.Bot.Intake.{MessageEvent}
use sjmb_slack.UserSession.Json.{Value}
use sjmb_slack.UserSession.Recovery.Reached.{run-append}
use sjmb_slack.UserSession.Reader.{LiveEvent}
use sjmb_slack.UserSession.Members.Roster.{IsRoster}
use sjmb_slack.UserSession.Consumer.Events.{event-Done}
use sjmb_slack.UserSession.Consumer.Calls.{Caused}
use sjmb_slack.UserSession.Consumer.{Live, LiveWorld, consume_event, consume}

-- The calls that events result in, event by event, up to one that ends the loop.
pub data Made (in_range : ℕ → Bool) (decode : Value → Option MessageEvent)
    : List (LiveEvent × LiveWorld) → List Call → Type 0 where
  stops : (es : List (LiveEvent × LiveWorld)) → Made in_range decode es []
  makes :
      {e : LiveEvent} {w : LiveWorld} {es : List (LiveEvent × LiveWorld)} {ds : List Call}
      (cs : List Call)
      → All (Caused in_range decode e w.handled) cs
      → Made in_range decode es ds
      → Made in_range decode ((e, w) ∷ es) (cs ++ ds)

-- What a run of the consumer did.
pub record Consumed (in_range : ℕ → Bool) (decode : Value → Option MessageEvent)
    (events : List (LiveEvent × LiveWorld)) (before after : Live) : Type 0 where
  pub roster : IsRoster after.members.members after.members.names
  pub calls : List Call
  pub reached : after.session.store ≡ run in_range calls before.session.store
  pub made : Made in_range decode events calls

module _ (in_range : ℕ → Bool) (decode : Value → Option MessageEvent) (workspace : ℕ)
    (dry_run : Bool) where
  -- Whatever the live events, Slack, the worker and the clocks: the members stay within their limits,
  -- and the recovery state is reached by calls made event by event, in the order of the queue. Only a
  -- checkpoint moves watermarks, to its own time. A message may add channels and remember its own thread
  -- in its own channel; it is recorded, in that channel and with its own timestamp, only on a positive
  -- receipt of the worker, and marks its own channel as failed only without one.
  pub consume-Consumed :
      (events : List (LiveEvent × LiveWorld)) (l : Live)
      → IsRoster l.members.members l.members.names
      → Consumed in_range decode events l (consume in_range decode workspace dry_run events l).1
  unfolding consume
  consume-Consumed [] l r = record { roster = r; calls = []; reached = refl; made = stops [] }
  consume-Consumed ((e, w) ∷ rest) l r =
      let one = consume_event in_range decode workspace dry_run e w l in
      let d = event-Done in_range decode workspace dry_run e w l r in
      elim (Result-cases one.0) [
        | inr (x, failed) ↦
            rw (failed, consume)
              (record {
                roster = d.roster;
                calls = d.calls ++ [];
                reached =
                    d.reached
                    ∙ ap (λ cs. run in_range cs l.session.store) (sym (append-nil d.calls));
                made = makes d.calls d.caused (stops rest);
              })
        | inl (u, done) ↦
            let later = consume-Consumed rest one.1 d.roster in
            rw (done, consume)
              (record {
                roster = later.roster;
                calls = d.calls ++ later.calls;
                reached =
                    later.reached
                    ∙ ap (run in_range later.calls) d.reached
                    ∙ sym (run-append in_range d.calls later.calls l.session.store);
                made = makes d.calls d.caused later.made;
              })
      ]
