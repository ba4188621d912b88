-- ===== src/UserSession/Recovery/Pass/Marks.antt =====
-- The watermark of a channel that recovers.
use sjmb_slack.Prelude.{
  ℕ, ◌≡◌, refl, ap, ◌∙◌, Bool, false, Option, none, some, ◌&&◌, arith, if◌then◌else◌, inl, inr,
}
use sjmb_slack.Prelude.Int.{ℤ, max_ℤ}
use sjmb_slack.Prelude.Text.{Text, text_eq}
use sjmb_slack.Prelude.Map.{map_some}
use sjmb_slack.Prelude.Result.{Result, ok, err}
use sjmb_slack.Prelude.Result.{Result-cases}
use sjmb_slack.State.{Channel}
use sjmb_slack.State.Store.{Store, retry_channel, finish_recovery}
use sjmb_slack.State.Store.Progress.{
  Mark, mark_of, mark_in-modify, mark-finish_recovery, recovered_mark,
}
use sjmb_slack.Bot.Intake.{MessageEvent}
use sjmb_slack.UserSession.Json.{Value}
use sjmb_slack.UserSession.Process.{Session}
use sjmb_slack.UserSession.Recovery.{RecoveryError, World, recover_channel}
use sjmb_slack.UserSession.Recovery.Own.{KeepsChannel}
use sjmb_slack.UserSession.Recovery.Failures.{with_failure, channel-Fails}
use sjmb_slack.UserSession.Recovery.Complete.{ChannelDone, channel-ChannelDone}
use sjmb_slack.UserSession.Recovery.Pages.{is_failure}
use sjmb_slack.UserSession.Recovery.Pass.{oldest_of, recover_one}

-- The mark of a channel whose recovery is complete.
abbrev pub complete : ℤ → Mark → Mark
complete through k = record {
  covered_until = max_ℤ k.covered_until through;
  recovering = false;
  failed = false;
}

-- A mark whose failure is set or cleared.
abbrev pub with_failed : Bool → Mark → Mark
with_failed failure k = record k { failed = failure }

module _ (in_range : ℕ → Bool) (decode : Value → Option MessageEvent) (workspace : ℕ)
    (dry_run : Bool) (max_pages : ℕ) (window through : ℤ) (w : World) (id : Text) (c : Channel)
    (s : Session) where
  -- The session when the recovery of the channel begins.
  abbrev pub retried : Session
  retried = record s { store = retry_channel id s.store }

  -- What one channel's recovery comes to: if it succeeds, its history and threads are complete and so is
  -- its mark; else only the failure in its mark may change, which it has if a message was not handled.
  -- No other mark changes.
  abbrev pub Ended : Result RecoveryError (Unit {0}) × Session → Type 0
  Ended (ok u, after) =
      ((b : Session) × ChannelDone in_range decode workspace dry_run w (oldest_of through window c)
          through max_pages id retried b
        × (after ≡ record b { store = finish_recovery id through b.store }))
      × ((k : Text)
          → mark_of after.store k ≡ (
              if text_eq id k
              then map_some (complete through) (mark_of s.store k)
              else mark_of s.store k))
  Ended (err e, after) =
      (k : Text)
      → mark_of after.store k ≡ (
          if text_eq id k
          then map_some (with_failed (is_failure (err e))) (mark_of s.store k)
          else mark_of s.store k)

complete_retried :
    (through : ℤ) (o : Option Mark)
    → map_some (recovered_mark through) (map_some (λ x. record x { failed = false }) o)
      ≡ map_some (complete through) o
complete_retried through none = refl
complete_retried through (some k) = refl

-- A finished recovery after a retry and a run that left the marks.
finish_retried :
    (k : Text) (through : ℤ) (before after : Store)
    → ((id : Text) → mark_of after id ≡ mark_of (retry_channel k before) id)
    → (id : Text)
    → mark_of (finish_recovery k through after) id ≡ (
        if text_eq k id then map_some (complete through) (mark_of before id) else mark_of before id)
unfolding retry_channel
finish_retried k through before after same id = ground (
  arith,
  mark-finish_recovery k through after id,
  same id,
  mark_in-modify (λ c. record c { failed = false }) (λ x. record x { failed = false }) (λ c. refl) k
      id before.channels,
  complete_retried through (mark_of before id),
)

no_failure :
    (own failure : Bool) (o : Option Mark) → failure ≡ false → with_failure (own && failure) o ≡ o
no_failure own failure o h = ground arith

failed_retried :
    (own failure : Bool) (o : Option Mark)
    → with_failure (own && failure) (if own then map_some (with_failed false) o else o)
      ≡ (if own then map_some (with_failed failure) o else o)
failed_retried own failure none = ground arith
failed_retried own failure (some k) = ground arith

mark_retried :
    (id k : Text) (s : Store)
    → mark_of (retry_channel id s) k
      ≡ (if text_eq id k then map_some (with_failed false) (mark_of s k) else mark_of s k)
unfolding retry_channel
mark_retried id k s =
    mark_in-modify (λ c. record c { failed = false }) (with_failed false) (λ c. refl) id k
      s.channels

-- Where the codec of messages takes the channel from the event, the recovery of a channel, run by itself,
-- comes to one of two ends. It succeeds: then Slack's answers on its history were fetched to the last
-- page within the limit of pages, then those on each of its threads too, but for threads that Slack no
-- longer knows, which are forgotten; every message of the answers within the bounds was processed
-- without an error, in order; its watermark is at least the upper bound and it no longer recovers. Or it
-- ends with an error: then it recovers as before, its watermark stays, and it is marked as failed
-- exactly if a message was not handled. The marks of other channels stay either way.
pub recover_one-Ended :
    (in_range : ℕ → Bool) (decode : Value → Option MessageEvent) (workspace : ℕ) (dry_run : Bool)
    (max_pages : ℕ) (window through : ℤ) (w : World) (keeps : KeepsChannel decode) (id : Text)
    (c : Channel) (s : Session)
    → Ended in_range decode workspace dry_run max_pages window through w id c s
        (recover_one in_range decode workspace dry_run max_pages window through w id c s)
unfolding recover_one
recover_one-Ended in_range decode workspace dry_run max_pages window through w keeps id c s =
    let begun = retried in_range decode workspace dry_run max_pages window through w id c s in
    let oldest = oldest_of through window c in
    let out =
      recover_channel in_range decode workspace dry_run w max_pages id oldest through begun in
    let marks =
      channel-Fails in_range decode workspace dry_run w keeps max_pages id oldest through begun in
    elim (Result-cases out.0) [
      | inl (u, e) ↦
          let quiet : (k : Text) → mark_of out.1.store k ≡ mark_of begun.store k = λ k.
            marks k
            ∙ no_failure (text_eq id k) (is_failure out.0) (mark_of begun.store k)
                (ap is_failure e) in
          rw (e, recover_one)
            (
              (
                out.1,
                channel-ChannelDone in_range decode workspace dry_run w oldest through max_pages id
                    begun u e,
                refl,
              ),
              finish_retried id through s.store out.1.store quiet,
            )
      | inr (x, e) ↦
          rw (e, recover_one)
            (λ k.
              marks k
              ∙ ap (λ b. with_failure (text_eq id k && b) (mark_of begun.store k)) (ap is_failure e)
              ∙ ap (with_failure (text_eq id k && is_failure (err x))) (mark_retried id k s.store)
              ∙ failed_retried (text_eq id k) (is_failure (err x)) (mark_of s.store k))
    ]
