-- ===== src/UserSession/Consumer/Frozen.antt =====
-- The live events and a channel with a failed message.
use sjmb_slack.Prelude.{
  ℕ, ◌≡◌, refl, sym, ◌∙◌, Bool, false, List, [], ◌∷◌, Option, any, any-append, All, arith, subst,
}
use sjmb_slack.Prelude.Int.{ℤ}
use sjmb_slack.Prelude.Text.{Text}
use sjmb_slack.State.Store.Bounds.{Call, adds, processes, remembers, fails, checkpoints}
use sjmb_slack.State.Store.Progress.{mark_of}
use sjmb_slack.State.Store.Frozen.{IsFrozenAt, clears, run-IsFrozenAt}
use sjmb_slack.Bot.Intake.{MessageEvent}
use sjmb_slack.UserSession.Json.{Value}
use sjmb_slack.UserSession.Process.{Handled}
use sjmb_slack.UserSession.Reader.{LiveEvent, live_message, live_checkpoint}
use sjmb_slack.UserSession.Members.Roster.{IsRoster}
use sjmb_slack.UserSession.Consumer.Calls.{Caused}
use sjmb_slack.UserSession.Consumer.Consumed.{Made, stops, makes, consume-Consumed}
use sjmb_slack.UserSession.Consumer.{Live, LiveWorld, consume}

module _ (in_range : ℕ → Bool) (decode : Value → Option MessageEvent) (id : Text) where
  Caused-clears :
      (e : LiveEvent) (h : Handled) (c : Call) → Caused in_range decode e h c → clears id c ≡ false
  Caused-clears (live_checkpoint at) h (checkpoints through now) a = refl
  Caused-clears (live_message v) h (adds k at) a = refl
  Caused-clears (live_message v) h (remembers k parent at pruned_at) a = refl
  Caused-clears (live_message v) h (processes channel ts thread at) a = refl
  Caused-clears (live_message v) h (fails k) a = refl
  Caused-clears _ h _ a = absurd a

  All-clears :
      (e : LiveEvent) (h : Handled) (cs : List Call)
      → All (Caused in_range decode e h) cs
      → any (clears id) cs ≡ false
  All-clears e h [] a = refl
  All-clears e h (c ∷ cs) (now, later) =
      ground (arith, Caused-clears e h c now, All-clears e h cs later)

  Made-clears :
      {es : List (LiveEvent × LiveWorld)} {cs : List Call}
      → Made in_range decode es cs
      → any (clears id) cs ≡ false
  Made-clears (stops es) = refl
  Made-clears (makes {e} {w} {es} {ds} cs a rest) =
      any-append (clears id) cs ds ∙ ground (arith, All-clears e w.handled cs a, Made-clears rest)

-- Once a message of a channel has failed, no live event moves the watermark of the channel, a checkpoint
-- included: whatever is consumed, it stays failed and its watermark where it was.
pub consume-IsFrozenAt :
    (in_range : ℕ → Bool) (decode : Value → Option MessageEvent) (workspace : ℕ) (dry_run : Bool)
    (events : List (LiveEvent × LiveWorld)) (l : Live) (id : Text) (u : ℤ)
    → IsRoster l.members.members l.members.names
    → IsFrozenAt u (mark_of l.session.store id)
    → IsFrozenAt u (mark_of (consume in_range decode workspace dry_run events l).1.session.store id)
consume-IsFrozenAt in_range decode workspace dry_run events l id u r frozen =
    let c = consume-Consumed in_range decode workspace dry_run events l r in
    subst (λ s. IsFrozenAt u (mark_of s id)) (sym c.reached)
      (run-IsFrozenAt in_range u c.calls l.session.store id (Made-clears in_range decode id c.made)
        frozen)
