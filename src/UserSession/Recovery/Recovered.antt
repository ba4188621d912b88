-- ===== src/UserSession/Recovery/Recovered.antt =====
-- What a recovery does to the recovery state.
use sjmb_slack.Prelude.{
  ℕ, ◌≡◌, refl, ap, ◌∙◌, inl, inr, Bool, true, false, List, [], ◌∷◌, Option, none, some, arith,
  subst, Bool-cases,
}
use sjmb_slack.Prelude.Int.{ℤ}
use sjmb_slack.Prelude.Text.{Text, codes}
use sjmb_slack.Prelude.Result.{err}
use sjmb_slack.State.Store.{forget_thread, threads}
use sjmb_slack.Prelude.Result.{Result-cases}
use sjmb_slack.Bot.Intake.{MessageEvent}
use sjmb_slack.UserSession.Json.{Value}
use sjmb_slack.UserSession.Process.{Session}
use sjmb_slack.UserSession.Recovery.{
  RecoveryError, from_process, World, recover_pages, thread_gone, recover_threads, recover_channel,
}
use sjmb_slack.UserSession.Recovery.Own.{KeepsChannel}
use sjmb_slack.UserSession.Recovery.Reached.{Reached, Reached-refl, Reached-trans, Reached-forget}
use sjmb_slack.UserSession.Recovery.Pages.{Recovered, is_failure, recover_pages-Recovered}

module _ (in_range : ℕ → Bool) (decode : Value → Option MessageEvent) (workspace : ℕ)
    (dry_run : Bool) (w : World) (keeps : KeepsChannel decode) (id : Text) where
  -- A thread that is gone is no message that was not handled.
  gone-failure :
      (e : RecoveryError)
      → thread_gone in_range decode workspace dry_run w e ≡ true
      → is_failure (err e) ≡ false
  gone-failure (from_process e) h = absurd (ground arith)
  gone-failure _ h = refl

  threads-Recovered :
      (max_pages : ℕ) (oldest through : ℤ) (ts : List Text) (s : Session)
      → Recovered in_range decode workspace dry_run w keeps id s
          (recover_threads in_range decode workspace dry_run w max_pages id oldest through ts s)
  unfolding recover_threads
  threads-Recovered max_pages oldest through [] s = Reached-refl in_range id s.store
  threads-Recovered max_pages oldest through (thread ∷ rest) s =
      let one =
        recover_pages in_range decode workspace dry_run w max_pages (codes "conversations.replies")
          id (some thread) oldest through s in
      let first =
        recover_pages-Recovered in_range decode workspace dry_run w keeps id max_pages
          (codes "conversations.replies") (some thread) oldest through s in
      elim (Result-cases one.0) [
        | inl (u, e) ↦
            rw (e, recover_threads)
              (Reached-trans in_range id s.store one.1.store _ _
                (subst (Reached in_range id s.store one.1.store) (ap is_failure e) first)
                (threads-Recovered max_pages oldest through rest one.1))
        | inr (x, e) ↦ elim (Bool-cases (thread_gone in_range decode workspace dry_run w x)) [
          | inr stays ↦
              rw (e, stays, recover_threads)
                (subst (Reached in_range id s.store one.1.store) (ap is_failure e) first)
          | inl gone ↦
              let forgotten = forget_thread id thread one.1.store in
              let clean =
                subst (Reached in_range id s.store one.1.store)
                  (ap is_failure e ∙ gone-failure x gone) first in
              rw (e, gone, recover_threads)
                (Reached-trans in_range id s.store forgotten _ _
                  (Reached-trans in_range id s.store one.1.store forgotten false clean
                    (Reached-forget in_range id thread one.1.store))
                  (threads-Recovered max_pages oldest through rest
                    (record one.1 { store = forgotten })))
        ]
      ]

-- The store after the recovery of a channel, and the mark of a failure in it.
pub channel-Reached :
    (in_range : ℕ → Bool) (decode : Value → Option MessageEvent) (workspace : ℕ) (dry_run : Bool)
    (w : World) (keeps : KeepsChannel decode) (max_pages : ℕ) (id : Text) (oldest through : ℤ)
    (s : Session)
    → Recovered in_range decode workspace dry_run w keeps id s
        (recover_channel in_range decode workspace dry_run w max_pages id oldest through s)
unfolding recover_channel
channel-Reached in_range decode workspace dry_run w keeps max_pages id oldest through s =
    let history =
      recover_pages in_range decode workspace dry_run w max_pages (codes "conversations.history") id
        none oldest through s in
    let first =
      recover_pages-Recovered in_range decode workspace dry_run w keeps id max_pages
        (codes "conversations.history") none oldest through s in
    elim (Result-cases history.0) [
      | inr (x, e) ↦
          rw (e, recover_channel)
            (subst (Reached in_range id s.store history.1.store) (ap is_failure e) first)
      | inl (u, e) ↦
          rw (e, recover_channel)
            (Reached-trans in_range id s.store history.1.store _ _
              (subst (Reached in_range id s.store history.1.store) (ap is_failure e) first)
              (threads-Recovered in_range decode workspace dry_run w keeps id max_pages oldest
                through (threads id history.1.store) history.1))
    ]
