-- ===== src/UserSession/Recovery/Pages.antt =====
-- What the pages of a history do to the recovery state.
use sjmb_slack.Prelude.{
  ℕ, zero, suc, ◌≡◌, refl, ap, ◌∙◌, inl, inr, Bool, true, false, List, [], ◌∷◌, length, Option,
  some, leb, subst, Bool-cases,
}
use sjmb_slack.Prelude.Int.{ℤ}
use sjmb_slack.Prelude.Text.{Text, codes, is_empty}
use sjmb_slack.Prelude.Result.{Result, err}
use sjmb_slack.Prelude.Result.{Result-cases}
use sjmb_slack.Bot.Intake.{MessageEvent}
use sjmb_slack.UserSession.Json.{
  Value, null, other_number, boolean, unsigned, text, array, object, Items, no_items, item, at_key,
  as_str,
}
use sjmb_slack.UserSession.Events.{next_cursor}
use sjmb_slack.UserSession.Process.{ProcessError, unhandled, Session}
use sjmb_slack.UserSession.Process.Settled.{is_unhandled, process-Settled}
use sjmb_slack.UserSession.Recovery.{
  RecoveryError, from_process, World, completed, count, wanted, process_wanted, process_page,
  process_response, repeated, recover_pages_from, recover_pages,
}
use sjmb_slack.UserSession.Recovery.Own.{KeepsChannel, completed-channel}
use sjmb_slack.UserSession.Recovery.Reached.{Reached, Reached-refl, Reached-trans, All-Quiet}

-- Whether a recovery ended because a message was not handled.
abbrev pub is_failure : Result RecoveryError (Unit {0}) → Bool
is_failure (err (from_process (unhandled h))) = true
is_failure _ = false

module _ (in_range : ℕ → Bool) (decode : Value → Option MessageEvent) (workspace : ℕ)
    (dry_run : Bool) (w : World) (keeps : KeepsChannel decode) (id : Text) where
  -- How a recovery step leaves the store of the session.
  abbrev pub Recovered : Session → Result RecoveryError (Unit {0}) × Session → Type 0
  Recovered s r = Reached in_range id s.store r.1.store (is_failure r.0)

  wanted-Reached :
      (want : Bool) (event : Value) (s : Session)
      → as_str (at_key (codes "channel") event) ≡ some id
      → Reached in_range id s.store
          (process_wanted in_range decode workspace dry_run w want event s).1.store
          (is_unhandled (process_wanted in_range decode workspace dry_run w want event s).0)
  wanted-Reached false event s own = Reached-refl in_range id s.store
  wanted-Reached true event s own =
      let a =
        process-Settled in_range decode workspace dry_run event (w.clock s) (length s.offered)
          (w.handled s) s in
      record {
        made = a.made;
        reached = a.reached;
        quiet = All-Quiet in_range id decode keeps event own (w.handled s) a.made a.settled;
        failures = a.failures;
      }

  process_failure : (e : ProcessError) → is_unhandled (err e) ≡ is_failure (err (from_process e))
  process_failure ProcessError.missing_channel = refl
  process_failure (unhandled h) = refl

  module _ (thread : Option Text) (oldest through : ℤ) where
    page-Recovered :
        (items : Items) (s : Session)
        → Recovered s
            (process_page in_range decode workspace dry_run w id thread oldest through items s)
    unfolding process_page
    page-Recovered no_items s = Reached-refl in_range id s.store
    page-Recovered (item (object fields) rest) s =
        let event = completed id thread fields in
        let one =
          process_wanted in_range decode workspace dry_run w
            (wanted in_range decode workspace dry_run w oldest through
              (as_str (at_key (codes "ts") event)))
            event s in
        let first =
          wanted-Reached
            (wanted in_range decode workspace dry_run w oldest through
              (as_str (at_key (codes "ts") event)))
            event s (completed-channel id thread fields) in
        elim (Result-cases one.0) [
          | inl (u, e) ↦
              rw (e, process_page)
                (Reached-trans in_range id s.store one.1.store _ _
                  (subst (Reached in_range id s.store one.1.store) (ap is_unhandled e) first)
                  (page-Recovered rest one.1))
          | inr (x, e) ↦
              rw (e, process_page)
                (subst (Reached in_range id s.store one.1.store)
                  (ap is_unhandled e ∙ process_failure x) first)
        ]
    page-Recovered (item null rest) s = Reached-refl in_range id s.store
    page-Recovered (item other_number rest) s = Reached-refl in_range id s.store
    page-Recovered (item (boolean b) rest) s = Reached-refl in_range id s.store
    page-Recovered (item (unsigned n) rest) s = Reached-refl in_range id s.store
    page-Recovered (item (text t) rest) s = Reached-refl in_range id s.store
    page-Recovered (item (array xs) rest) s = Reached-refl in_range id s.store

    response-Recovered :
        (v : Value) (s : Session)
        → Recovered s
            (process_response in_range decode workspace dry_run w id thread oldest through v s)
    unfolding process_response
    response-Recovered (array items) s = elim (Bool-cases (leb (count items) 1000)) [
      | inl few ↦ rw (few, process_response) (page-Recovered items s)
      | inr many ↦ rw (many, process_response) (Reached-refl in_range id s.store)
    ]
    response-Recovered null s = Reached-refl in_range id s.store
    response-Recovered other_number s = Reached-refl in_range id s.store
    response-Recovered (boolean b) s = Reached-refl in_range id s.store
    response-Recovered (unsigned n) s = Reached-refl in_range id s.store
    response-Recovered (text t) s = Reached-refl in_range id s.store
    response-Recovered (object _) s = Reached-refl in_range id s.store

    pages-Recovered :
        (method : Text) (left page : ℕ) (cursors : List Text) (cursor : Text) (s : Session)
        → Recovered s (
            recover_pages_from in_range decode workspace dry_run w method id thread oldest through
              left page cursors cursor s)
    unfolding recover_pages_from
    pages-Recovered method zero page cursors cursor s = Reached-refl in_range id s.store
    pages-Recovered method (suc left) page cursors cursor s =
        elim (Result-cases (w.fetch method id thread page cursor)) [
          | inr (x, e) ↦ rw (e, recover_pages_from) (Reached-refl in_range id s.store)
          | inl (response, e) ↦
              let done =
                process_response in_range decode workspace dry_run w id thread oldest through
                  (at_key (codes "messages") response) s in
              let first = response-Recovered (at_key (codes "messages") response) s in
              elim (Result-cases done.0) [
                | inr (x, f) ↦
                    rw (e, f, recover_pages_from)
                      (subst (Reached in_range id s.store done.1.store) (ap is_failure f) first)
                | inl (u, f) ↦
                    let clean =
                      subst (Reached in_range id s.store done.1.store) (ap is_failure f) first in
                    elim (Result-cases (next_cursor response)) [
                      | inr (x, g) ↦ rw (e, f, g, recover_pages_from) clean
                      | inl (next, g) ↦ elim (Bool-cases (is_empty next)) [
                        | inl last ↦ rw (e, f, g, last, recover_pages_from) clean
                        | inr more ↦
                            elim (Bool-cases
                              (repeated in_range decode workspace dry_run w cursors next)) [
                                | inl again ↦ rw (e, f, g, more, again, recover_pages_from) clean
                                | inr new ↦
                                    rw (e, f, g, more, new, recover_pages_from)
                                      (Reached-trans in_range id s.store done.1.store _ _ clean (
                                        pages-Recovered method left (suc page) (next ∷ cursors) next
                                          done.1))
                              ]
                      ]
                    ]
              ]
        ]

  pub recover_pages-Recovered :
      (max_pages : ℕ) (method : Text) (thread : Option Text) (oldest through : ℤ) (s : Session)
      → Recovered s (
          recover_pages in_range decode workspace dry_run w max_pages method id thread oldest
            through s)
  unfolding recover_pages
  recover_pages-Recovered max_pages method thread oldest through s =
      pages-Recovered thread oldest through method max_pages 0 [] [] s
