-- ===== src/UserSession/Recovery/Failures.antt =====
-- The marks of the channels after the recovery of one.
use sjmb_slack.Prelude.{
  ℕ, ◌≡◌, refl, ap, ◌∙◌, Bool, true, ◌&&◌, List, [], ◌∷◌, Option, none, some, any, All, arith,
  if◌then◌else◌,
}
use sjmb_slack.Prelude.Int.{ℤ}
use sjmb_slack.Prelude.Text.{Text, text_eq}
use sjmb_slack.Prelude.Map.{remove, map_some}
use sjmb_slack.Prelude.Result.{Result}
use sjmb_slack.State.Store.{Store, forget_thread, processed, remember_thread, failed}
use sjmb_slack.State.Store.Bounds.{Call, forgets, processes, remembers, fails, step, run}
use sjmb_slack.State.Store.Progress.{Mark, mark_of, mark_in-modify, map_some_id, mark-prune}
use sjmb_slack.State.Store.Monotone.{mark_in-track_valid}
use sjmb_slack.Bot.Intake.{MessageEvent}
use sjmb_slack.UserSession.Json.{Value}
use sjmb_slack.UserSession.Process.{Session}
use sjmb_slack.UserSession.Process.Settled.{marks_failed}
use sjmb_slack.UserSession.Recovery.{RecoveryError, World, recover_channel}
use sjmb_slack.UserSession.Recovery.Own.{KeepsChannel}
use sjmb_slack.UserSession.Recovery.Reached.{Quiet}
use sjmb_slack.UserSession.Recovery.Pages.{Recovered, is_failure}
use sjmb_slack.UserSession.Recovery.Recovered.{channel-Reached}

-- A mark with a failure, if there is one.
abbrev pub with_failure : Bool → Option Mark → Option Mark
with_failure failure o = if failure then map_some (λ x. record x { failed = true }) o else o

with_failure_twice :
    (a b : Bool) (o : Option Mark)
    → with_failure b (with_failure a o) ≡ with_failure (if a then true else b) o
with_failure_twice a b none = ground arith
with_failure_twice a b (some k) = ground arith

module _ (in_range : ℕ → Bool) (id : Text) where
  Quiet-marks :
      (c : Call) (s : Store) (k : Text)
      → Quiet id c
      → mark_of (step in_range c s) k ≡ with_failure (text_eq id k && marks_failed c) (mark_of s k)
  unfolding forget_thread processed remember_thread failed
  Quiet-marks (processes i ts thread at) s k q =
      mark-prune _ at s.window k
      ∙ mark_in-track_valid in_range i thread at s.channels k
      ∙ ground arith
  Quiet-marks (remembers i parent at pruned_at) s k q =
      mark-prune _ pruned_at s.window k
      ∙ mark_in-track_valid in_range i (some parent) at s.channels k
      ∙ ground arith
  Quiet-marks (forgets i ts) s k q = ground (
    arith,
    mark_in-modify (λ c. record c { threads = remove ts c.threads }) (λ x. x) (λ c. refl) i k
        s.channels,
    map_some_id (mark_of s k),
  )
  Quiet-marks (fails i) s k q =
      mark_in-modify (λ c. record c { failed = true }) (λ x. record x { failed = true }) (λ c. refl)
        i k s.channels
      ∙ ap (λ j. with_failure (text_eq j k) (mark_of s k)) q
      ∙ ground arith
  Quiet-marks _ s k q = absurd q

  pub run-marks :
      (cs : List Call) (s : Store) (k : Text)
      → All (Quiet id) cs
      → mark_of (run in_range cs s) k
        ≡ with_failure (text_eq id k && any marks_failed cs) (mark_of s k)
  run-marks [] s k q = ground arith
  run-marks (c ∷ cs) s k (now, later) =
      run-marks cs (step in_range c s) k later
      ∙ ap (with_failure (text_eq id k && any marks_failed cs)) (Quiet-marks c s k now)
      ∙ with_failure_twice (text_eq id k && marks_failed c) (text_eq id k && any marks_failed cs)
          (mark_of s k)
      ∙ ap (λ b. with_failure b (mark_of s k)) (ground arith)

-- The marks after a recovery of a channel: its own has a failure more, if that is how it ended.
abbrev pub Fails : Text → Store → Result RecoveryError (Unit {0}) × Session → Type 0
Fails id before r =
    (k : Text)
    → mark_of r.1.store k ≡ with_failure (text_eq id k && is_failure r.0) (mark_of before k)

pub channel-Fails :
    (in_range : ℕ → Bool) (decode : Value → Option MessageEvent) (workspace : ℕ) (dry_run : Bool)
    (w : World) (keeps : KeepsChannel decode) (max_pages : ℕ) (id : Text) (oldest through : ℤ)
    (s : Session)
    → Fails id s.store
        (recover_channel in_range decode workspace dry_run w max_pages id oldest through s)
channel-Fails in_range decode workspace dry_run w keeps max_pages id oldest through s k =
    let a =
      channel-Reached in_range decode workspace dry_run w keeps max_pages id oldest through s in
    ap (λ x. mark_of x k) a.reached
    ∙ run-marks in_range id a.made s.store k a.quiet
    ∙ ap (λ b. with_failure (text_eq id k && b) (mark_of s.store k)) a.failures

-- Recovering a channel, whatever Slack and the worker answer, where the codec of messages takes the
-- channel from the event: the recovery state is reached by calls for that channel alone, which move no
-- watermark, clear no failure and end no recovery. No mark of any channel changes but one: the channel
-- is marked as failed exactly when the recovery ends with a message that was not handled.
pub recover_channel-Recovered :
    (in_range : ℕ → Bool) (decode : Value → Option MessageEvent) (workspace : ℕ) (dry_run : Bool)
    (w : World) (keeps : KeepsChannel decode) (max_pages : ℕ) (id : Text) (oldest through : ℤ)
    (s : Session)
    → Recovered in_range decode workspace dry_run w keeps id s
        (recover_channel in_range decode workspace dry_run w max_pages id oldest through s)
      × Fails id s.store
          (recover_channel in_range decode workspace dry_run w max_pages id oldest through s)
recover_channel-Recovered in_range decode workspace dry_run w keeps max_pages id oldest through s =
    (
      channel-Reached in_range decode workspace dry_run w keeps max_pages id oldest through s,
      channel-Fails in_range decode workspace dry_run w keeps max_pages id oldest through s,
    )
