-- ===== src/UserSession/Recovery/Reached.antt =====
-- What the steps of a recovery may do to the store.
use sjmb_slack.Prelude.{
  ℕ, ◌≡◌, refl, sym, ap, ◌∙◌, Bool, false, Option, some, List, [], ◌∷◌, ◌++◌, any, any-append, All,
  All-append, arith,
}
use sjmb_slack.Prelude.Text.{Text, codes}
use sjmb_slack.Bot.Intake.{MessageEvent}
use sjmb_slack.UserSession.Json.{Value, at_key, as_str}
use sjmb_slack.UserSession.Recovery.Own.{KeepsChannel, IsMessage-own}
use sjmb_slack.State.Store.{Store, forget_thread}
use sjmb_slack.State.Store.Bounds.{
  Call, begins, adds, retries, forgets, processes, remembers, fails, finishes, checkpoints, step,
  run,
}
use sjmb_slack.UserSession.Process.{Handled}
use sjmb_slack.UserSession.Process.Settled.{Settles, marks_failed}

-- The calls of a channel's recovery in progress, all for that channel: none moves a watermark, clears a
-- failure or ends a recovery.
abbrev pub Quiet : Text → Call → Type 0
Quiet id (processes channel ts thread at) = channel ≡ id
Quiet id (remembers channel parent at pruned_at) = channel ≡ id
Quiet id (fails channel) = channel ≡ id
Quiet id (forgets channel ts) = channel ≡ id
Quiet id _ = ⊥

-- One state reached from another by quiet calls, among which is a failure or not.
pub record Reached (in_range : ℕ → Bool) (id : Text) (before after : Store) (failure : Bool)
    : Type 0 where
  pub made : List Call
  pub reached : after ≡ run in_range made before
  pub quiet : All (Quiet id) made
  pub failures : any marks_failed made ≡ failure

pub run-append :
    (in_range : ℕ → Bool) (xs ys : List Call) (s : Store)
    → run in_range (xs ++ ys) s ≡ run in_range ys (run in_range xs s)
run-append in_range [] ys s = refl
run-append in_range (x ∷ xs) ys s = run-append in_range xs ys (step in_range x s)

module _ (in_range : ℕ → Bool) (id : Text) where
  pub Reached-refl : (s : Store) → Reached in_range id s s false
  Reached-refl s = record { made = []; reached = refl; quiet = tt; failures = refl }

  pub Reached-trans :
      (a b c : Store) (failure : Bool)
      → Reached in_range id a b false
      → Reached in_range id b c failure
      → Reached in_range id a c failure
  Reached-trans a b c failure p q = record {
    made = p.made ++ q.made;
    reached =
        q.reached ∙ ap (run in_range q.made) p.reached ∙ sym (run-append in_range p.made q.made a);
    quiet = All-append (Quiet id) p.made q.made p.quiet q.quiet;
    failures = any-append marks_failed p.made q.made ∙ ground (arith, p.failures, q.failures);
  }

  pub Reached-forget :
      (thread : Text) (s : Store) → Reached in_range id s (forget_thread id thread s) false
  Reached-forget thread s = record {
    made = forgets id thread ∷ [];
    reached = refl;
    quiet = (refl, tt);
    failures = refl;
  }

  module _ (decode : Value → Option MessageEvent) (keeps : KeepsChannel decode) (v : Value)
      (own : as_str (at_key (codes "channel") v) ≡ some id) where
    Settles-Quiet : (h : Handled) (c : Call) → Settles in_range decode v h c → Quiet id c
    Settles-Quiet h (remembers k parent at pruned_at) (n, message, thread) =
        IsMessage-own in_range decode v id k n keeps own message
    Settles-Quiet h (processes k ts thread at) (n, message, same, of_thread, done) =
        IsMessage-own in_range decode v id k n keeps own message
    Settles-Quiet h (fails k) (n, message, unless) =
        IsMessage-own in_range decode v id k n keeps own message
    Settles-Quiet h (begins ids at) a = a
    Settles-Quiet h (adds k at) a = a
    Settles-Quiet h (retries k) a = a
    Settles-Quiet h (forgets k ts) a = absurd a
    Settles-Quiet h (finishes k through) a = a
    Settles-Quiet h (checkpoints through at) a = a

    pub All-Quiet :
        (h : Handled) (cs : List Call) → All (Settles in_range decode v h) cs → All (Quiet id) cs
    All-Quiet h [] a = tt
    All-Quiet h (c ∷ cs) (now, later) = (Settles-Quiet h c now, All-Quiet h cs later)
