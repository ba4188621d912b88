-- ===== src/UserSession/Recovery/Fetches.antt =====
-- A recovery that succeeds fetched the pages and processed their messages.
use sjmb_slack.Prelude.{
  ℕ, zero, suc, ◌≤◌, ◌≡◌, refl, sym, ap, ◌∙◌, inl, inr, Bool, true, false, List, [], ◌∷◌, ◌++◌,
  length, Option, leb, arith, subst, Bool-cases, if◌then◌else◌,
}
use sjmb_slack.Prelude.Int.{ℤ}
use sjmb_slack.Prelude.Text.{Text, codes, is_empty}
use sjmb_slack.Prelude.Result.{Result, ok, err, Result-cases}
use sjmb_slack.Bot.Intake.{MessageEvent}
use sjmb_slack.UserSession.Json.{
  Value, null, other_number, boolean, unsigned, text, array, object, Items, no_items, item, at_key,
}
use sjmb_slack.UserSession.Events.{next_cursor}
use sjmb_slack.UserSession.Process.{Session}
use sjmb_slack.UserSession.Recovery.{
  RecoveryError, from_process, World, completed, count, process_wanted, process_page,
  process_response, repeated, recover_pages_from,
}
use sjmb_slack.UserSession.Recovery.Fetched.{
  Fetched, last_page, more_pages, is_wanted, wanted_items, wanted_in, wanted_messages, Processed,
  none_left, one_more,
}

module _ (in_range : ℕ → Bool) (decode : Value → Option MessageEvent) (workspace : ℕ)
    (dry_run : Bool) (w : World) (oldest through : ℤ) where
  Processed-append :
      {xs ys : List Value} {s a b : Session}
      → Processed in_range decode workspace dry_run w oldest through xs s a
      → Processed in_range decode workspace dry_run w oldest through ys a b
      → Processed in_range decode workspace dry_run w oldest through (xs ++ ys) s b
  Processed-append (none_left s) q = q
  Processed-append (one_more {event} {rest} {s} {a} {b} e p) q = one_more e (Processed-append p q)

  one_taken :
      (want : Bool) (event : Value) {rest : List Value} (s : Session) {b : Session} (u : Unit {0})
      → (process_wanted in_range decode workspace dry_run w want event s).0 ≡ ok u
      → Processed in_range decode workspace dry_run w oldest through rest
          (process_wanted in_range decode workspace dry_run w want event s).1
          b
      → Processed in_range decode workspace dry_run w oldest through
          (if want then event ∷ rest else rest)
          s
          b
  one_taken false event s u e p = p
  one_taken true event s u e p =
      one_more
        (ap (λ r. (r, (process_wanted in_range decode workspace dry_run w true event s).1)) e) p

  module _ (id : Text) (thread : Option Text) where
    page-Processed :
        (items : Items) (s : Session) (u : Unit {0})
        → (process_page in_range decode workspace dry_run w id thread oldest through items s).0
          ≡ ok u
        → Processed in_range decode workspace dry_run w oldest through
            (wanted_items in_range decode workspace dry_run w oldest through id thread items)
            s
            (process_page in_range decode workspace dry_run w id thread oldest through items s).1
    unfolding process_page
    page-Processed no_items s u h = none_left s
    page-Processed (item (object members) rest) s u h =
        let event = completed id thread members in
        let page = process_page in_range decode workspace dry_run w id thread oldest through in
        let one =
          process_wanted in_range decode workspace dry_run w
            (is_wanted in_range decode workspace dry_run w oldest through event) event s in
        elim (Result-cases one.0) [
          | inr (x, e) ↦
              let stops : page (item (object members) rest) s ≡ (err (from_process x), one.1) =
                rw (e, process_page) refl in
              absurd (ground (arith, stops, h))
          | inl (u', e) ↦
              let goes : page (item (object members) rest) s ≡ page rest one.1 =
                rw (e, process_page) refl in
              subst
                (λ r.
                  Processed in_range decode workspace dry_run w oldest through
                    (wanted_items in_range decode workspace dry_run w oldest through id thread
                      (item (object members) rest))
                    s r.1)
                (sym goes)
                (one_taken (is_wanted in_range decode workspace dry_run w oldest through event)
                  event s u' e (page-Processed rest one.1 u (sym (ap (λ r. r.0) goes) ∙ h)))
        ]
    page-Processed (item null rest) s u h = absurd (ground arith)
    page-Processed (item other_number rest) s u h = absurd (ground arith)
    page-Processed (item (boolean b) rest) s u h = absurd (ground arith)
    page-Processed (item (unsigned n) rest) s u h = absurd (ground arith)
    page-Processed (item (text t) rest) s u h = absurd (ground arith)
    page-Processed (item (array xs) rest) s u h = absurd (ground arith)

    response-Processed :
        (v : Value) (s : Session) (u : Unit {0})
        → (process_response in_range decode workspace dry_run w id thread oldest through v s).0
          ≡ ok u
        → Processed in_range decode workspace dry_run w oldest through
            (wanted_in in_range decode workspace dry_run w oldest through id thread v)
            s
            (process_response in_range decode workspace dry_run w id thread oldest through v s).1
    unfolding process_response
    response-Processed (array items) s u h = elim (Bool-cases (leb (count items) 1000)) [
      | inl few ↦
          let goes : process_response in_range decode workspace dry_run w id thread oldest through
                (array items) s
              ≡ process_page in_range decode workspace dry_run w id thread oldest through items s =
            rw (few, process_response) refl in
          subst
            (λ r.
              Processed in_range decode workspace dry_run w oldest through
                (wanted_items in_range decode workspace dry_run w oldest through id thread items) s
                r.1)
            (sym goes) (page-Processed items s u (sym (ap (λ r. r.0) goes) ∙ h))
      | inr many ↦ absurd (ground arith)
    ]
    response-Processed null s u h = absurd (ground arith)
    response-Processed other_number s u h = absurd (ground arith)
    response-Processed (boolean b) s u h = absurd (ground arith)
    response-Processed (unsigned n) s u h = absurd (ground arith)
    response-Processed (text t) s u h = absurd (ground arith)
    response-Processed (object _) s u h = absurd (ground arith)

    -- The pages from one on, of which so many may be left.
    abbrev pub CompleteFrom :
        Text → ℕ → ℕ → Text → Session → Result RecoveryError (Unit {0}) × Session → Type 0
    CompleteFrom method left page cursor s (ok u, b) =
        (responses : List Value) × Fetched w method id thread page cursor responses
        × (length responses ≤ left)
        × Processed in_range decode workspace dry_run w oldest through
            (wanted_messages in_range decode workspace dry_run w oldest through id thread responses)
            s b
    CompleteFrom method left page cursor s (err e, b) = Unit

    empty_text : (t : Text) → is_empty t ≡ true → t ≡ []
    empty_text [] h = refl
    empty_text (c ∷ cs) h = absurd (ground arith)

    one_page :
        (method : Text) (left page : ℕ) (cursor : Text) (s : Session) (response : Value)
        (next : Text) (a : Session) (r : Result RecoveryError (Unit {0}) × Session)
        → w.fetch method id thread page cursor ≡ ok response
        → next_cursor response ≡ ok next
        → is_empty next ≡ false
        → Processed in_range decode workspace dry_run w oldest through
            (wanted_in in_range decode workspace dry_run w oldest through id thread
              (at_key (codes "messages") response))
            s
            a
        → CompleteFrom method left (suc page) next a r
        → CompleteFrom method (suc left) page cursor s r
    one_page method left page cursor s response next a (ok u, b) e g more p
          (responses, fetched, few, q) =
        (
          response ∷ responses,
          more_pages response next e g more fetched,
          omega (arith, few),
          Processed-append p q,
        )
    one_page method left page cursor s response next a (err x, b) e g more p q = tt

    pub pages_complete :
        (method : Text) (left page : ℕ) (cursors : List Text) (cursor : Text) (s : Session)
        → CompleteFrom method left page cursor s (
            recover_pages_from in_range decode workspace dry_run w method id thread oldest through
              left page cursors cursor s)
    unfolding recover_pages_from
    pages_complete method zero page cursors cursor s = tt
    pages_complete method (suc left) page cursors cursor s =
        elim (Result-cases (w.fetch method id thread page cursor)) [
          | inr (x, e) ↦ rw (e, recover_pages_from) tt
          | inl (response, e) ↦
              let done =
                process_response in_range decode workspace dry_run w id thread oldest through
                  (at_key (codes "messages") response) s in
              elim (Result-cases done.0) [
                | inr (x, f) ↦ rw (e, f, recover_pages_from) tt
                | inl (u, f) ↦
                    let first = response-Processed (at_key (codes "messages") response) s u f in
                    elim (Result-cases (next_cursor response)) [
                      | inr (x, g) ↦ rw (e, f, g, recover_pages_from) tt
                      | inl (next, g) ↦ elim (Bool-cases (is_empty next)) [
                        | inl last ↦
                            rw (e, f, g, last, recover_pages_from)
                              (
                                response ∷ [],
                                last_page response e (g ∙ ap ok (empty_text next last)),
                                omega arith,
                                Processed-append first (none_left done.1),
                              )
                        | inr more ↦
                            elim (Bool-cases
                              (repeated in_range decode workspace dry_run w cursors next)) [
                                | inl again ↦ rw (e, f, g, more, again, recover_pages_from) tt
                                | inr new ↦
                                    rw (e, f, g, more, new, recover_pages_from)
                                      (one_page method left page cursor s response next done.1 _ e g
                                        more first
                                        (pages_complete method left (suc page) (next ∷ cursors) next
                                          done.1))
                              ]
                      ]
                    ]
              ]
        ]
