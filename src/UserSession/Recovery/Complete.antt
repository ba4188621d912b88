-- ===== src/UserSession/Recovery/Complete.antt =====
-- What a recovery of a channel that succeeds has fetched and processed.
use sjmb_slack.Prelude.{
  ℕ, ◌≡◌, refl, sym, ap, subst, ◌∙◌, inl, inr, Bool, true, List, [], ◌∷◌, Option, none, some, arith,
  Bool-cases,
}
use sjmb_slack.Prelude.Int.{ℤ}
use sjmb_slack.Prelude.Text.{Text, codes}
use sjmb_slack.Prelude.Result.{Result, ok, err, Result-cases}
use sjmb_slack.State.Store.{forget_thread, threads}
use sjmb_slack.Bot.Intake.{MessageEvent}
use sjmb_slack.UserSession.Json.{Value}
use sjmb_slack.UserSession.Process.{Session}
use sjmb_slack.UserSession.Recovery.{
  RecoveryError, World, recover_pages, thread_gone, recover_threads, recover_channel,
}
use sjmb_slack.UserSession.Recovery.Fetched.{Complete}
use sjmb_slack.UserSession.Recovery.Fetches.{CompleteFrom, pages_complete}

module _ (in_range : ℕ → Bool) (decode : Value → Option MessageEvent) (workspace : ℕ)
    (dry_run : Bool) (w : World) (oldest through : ℤ) (max_pages : ℕ) (id : Text) where
  abbrev pub replies_of : Text → Session → Result RecoveryError (Unit {0}) × Session
  replies_of thread s =
      recover_pages in_range decode workspace dry_run w max_pages (codes "conversations.replies") id
        (some thread) oldest through s

  -- Each thread is complete, or is forgotten since Slack no longer knows it.
  pub data ThreadsDone : List Text → Session → Session → Type 0 where
    no_threads : (s : Session) → ThreadsDone [] s s
    thread_done :
        {thread : Text} {rest : List Text} {s b : Session} (a : Session)
        → Complete in_range decode workspace dry_run w oldest through max_pages
            (codes "conversations.replies")
            id
            (some thread)
            s
            a
        → ThreadsDone rest a b
        → ThreadsDone (thread ∷ rest) s b
    thread_unknown :
        {thread : Text} {rest : List Text} {s b : Session} (e : RecoveryError)
        → (replies_of thread s).0 ≡ err e
        → thread_gone in_range decode workspace dry_run w e ≡ true
        → ThreadsDone rest
            (record (replies_of thread s).1 {
              store = forget_thread id thread (replies_of thread s).1.store;
            })
            b
        → ThreadsDone (thread ∷ rest) s b

  -- The history of the channel is complete, and then so are its threads.
  abbrev pub ChannelDone : Session → Session → Type 0
  ChannelDone s b =
      (a : Session) × Complete in_range decode workspace dry_run w oldest through max_pages
        (codes "conversations.history") id none s a
      × ThreadsDone (threads id a.store) a b

  from-CompleteFrom :
      (method : Text) (thread : Option Text) (s : Session) (u : Unit {0})
      (r : Result RecoveryError (Unit {0}) × Session)
      → CompleteFrom in_range decode workspace dry_run w oldest through id thread method max_pages 0
          [] s r
      → r.0 ≡ ok u
      → Complete in_range decode workspace dry_run w oldest through max_pages method id thread s r.1
  from-CompleteFrom method thread s u (ok v, a) c e = c
  from-CompleteFrom method thread s u (err x, a) c e = absurd (ground (arith, e))

  pages-Complete :
      (method : Text) (thread : Option Text) (s : Session) (u : Unit {0})
      → (recover_pages in_range decode workspace dry_run w max_pages method id thread oldest through
          s).0
        ≡ ok u
      → Complete in_range decode workspace dry_run w oldest through max_pages method id thread s
          (recover_pages in_range decode workspace dry_run w max_pages method id thread oldest
            through s).1
  unfolding recover_pages
  pages-Complete method thread s u e =
      from-CompleteFrom method thread s u
        (recover_pages in_range decode workspace dry_run w max_pages method id thread oldest through
          s)
        (pages_complete in_range decode workspace dry_run w oldest through id thread method
          max_pages 0 [] [] s)
        e

  abbrev threads_run : List Text → Session → Result RecoveryError (Unit {0}) × Session
  threads_run ts s =
      recover_threads in_range decode workspace dry_run w max_pages id oldest through ts s

  threads-ThreadsDone :
      (ts : List Text) (s : Session) (u : Unit {0})
      → (threads_run ts s).0 ≡ ok u
      → ThreadsDone ts s (threads_run ts s).1
  unfolding recover_threads
  threads-ThreadsDone [] s u h = no_threads s
  threads-ThreadsDone (thread ∷ rest) s u h =
      let one = replies_of thread s in
      elim (Result-cases one.0) [
        | inl (v, e) ↦
            let goes : threads_run (thread ∷ rest) s ≡ threads_run rest one.1 =
              rw (e, recover_threads) refl in
            subst (λ r. ThreadsDone (thread ∷ rest) s r.1) (sym goes)
              (thread_done one.1
                (pages-Complete (codes "conversations.replies") (some thread) s v e)
                (threads-ThreadsDone rest one.1 u (sym (ap (λ r. r.0) goes) ∙ h)))
        | inr (x, e) ↦ elim (Bool-cases (thread_gone in_range decode workspace dry_run w x)) [
          | inl gone ↦
              let next : Session = record one.1 { store = forget_thread id thread one.1.store } in
              let goes : threads_run (thread ∷ rest) s ≡ threads_run rest next =
                rw (e, gone, recover_threads) refl in
              subst (λ r. ThreadsDone (thread ∷ rest) s r.1) (sym goes)
                (thread_unknown x e gone
                  (threads-ThreadsDone rest next u (sym (ap (λ r. r.0) goes) ∙ h)))
          | inr stays ↦
              let stops : threads_run (thread ∷ rest) s ≡ (err x, one.1) =
                rw (e, stays, recover_threads) refl in
              absurd (ground (arith, stops, h))
        ]
      ]

  pub channel-ChannelDone :
      (s : Session) (u : Unit {0})
      → (recover_channel in_range decode workspace dry_run w max_pages id oldest through s).0 ≡ ok u
      → ChannelDone s
          (recover_channel in_range decode workspace dry_run w max_pages id oldest through s).1
  unfolding recover_channel
  channel-ChannelDone s u h =
      let history =
        recover_pages in_range decode workspace dry_run w max_pages (codes "conversations.history")
          id none oldest through s in
      let channel =
        recover_channel in_range decode workspace dry_run w max_pages id oldest through in
      elim (Result-cases history.0) [
        | inr (x, e) ↦
            let stops : channel s ≡ (err x, history.1) = rw (e, recover_channel) refl in
            absurd (ground (arith, stops, h))
        | inl (v, e) ↦
            let goes : channel s ≡ threads_run (threads id history.1.store) history.1 =
              rw (e, recover_channel) refl in
            subst (λ r. ChannelDone s r.1) (sym goes)
              (
                history.1,
                pages-Complete (codes "conversations.history") none s v e,
                threads-ThreadsDone (threads id history.1.store) history.1 u
                    (sym (ap (λ r. r.0) goes) ∙ h),
              )
      ]
