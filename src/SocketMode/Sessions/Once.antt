-- ===== src/SocketMode/Sessions/Once.antt =====
-- Duplicates across sessions.
use sjmb_slack.Prelude.{
  ℕ, ◌+◌, ◌<◌, ◌≡◌, refl, sym, ap, ◌∙◌, false, List, [], ◌∷◌, length, All, arith, subst,
}
use sjmb_slack.Prelude.Result.{ok}
use sjmb_slack.Limits.Cache.Remembered.{Remembers, get-remembered}
use sjmb_slack.SocketMode.Ingress.{EventKey, key_Eq, Ingress, Sent, enqueue}
use sjmb_slack.SocketMode.Ingress.Once.{Delivery, deliver_all, deliver_all-Remembers, known_again}
use sjmb_slack.SocketMode.Sessions.{
  SessionEvents, begin_session, end_session, run_one, run_socket_sessions,
}

-- An ingress that does not accept leaves all as it is.
late-same : (ds : List Delivery) (i : Ingress) → i.accepting ≡ false → deliver_all ds i ≡ i
late-same [] i shut = refl
late-same (d ∷ ds) i shut =
    let same : (enqueue d.key d.now d.sent i).state ≡ i = unfold enqueue in ground (arith, shut) in
    ap (deliver_all ds) same ∙ late-same ds i shut

-- How many events the sessions deliver while they accept, and that they come before a time.
abbrev pub delivered_count : List SessionEvents → ℕ
delivered_count [] = 0
delivered_count (s ∷ rest) = length s.delivered + delivered_count rest

abbrev pub AllBefore : ℕ → List SessionEvents → Type 0
AllBefore until [] = Unit
AllBefore until (s ∷ rest) = All (λ d. d.now < until) s.delivered × AllBefore until rest

run_socket_sessions-Remembers :
    (k : EventKey) (until : ℕ) (sessions : List SessionEvents) (i : Ingress)
    → AllBefore until sessions
    → Remembers k tt until (delivered_count sessions) i.seen
    → Remembers k tt until 0 (run_socket_sessions sessions i).seen
unfolding run_socket_sessions run_one begin_session end_session
run_socket_sessions-Remembers k until [] i soon known = known
run_socket_sessions-Remembers k until (s ∷ rest) i (now, later) known =
    let served = deliver_all s.delivered (begin_session i) in
    run_socket_sessions-Remembers k until rest (run_one s i) later (
      subst (λ x. Remembers k tt until (delivered_count rest) x.seen)
        (sym (late-same s.late (end_session served) refl))
        (deliver_all-Remembers k until s.delivered (delivered_count rest) (begin_session i) now
          known))

-- An event that the cache of seen events has is not queued again before its entry expires, whatever
-- sessions come and go in between with whatever deliveries, those after the end of a session included,
-- as long as the cache has room for what they deliver: in a later session it is acknowledged as a
-- duplicate.
pub run_socket_sessions-remembered :
    (k : EventKey) (until : ℕ) (sessions : List SessionEvents) (i : Ingress) (later : ℕ)
    (again : Sent)
    → Remembers k tt until (delivered_count sessions) i.seen
    → AllBefore until sessions
    → later < until
    → ((enqueue k later again (begin_session (run_socket_sessions sessions i))).in_queue ≡ false)
      × ((enqueue k later again (begin_session (run_socket_sessions sessions i))).result ≡ ok tt)
unfolding begin_session
run_socket_sessions-remembered k until sessions i later again known soon last =
    let after = run_socket_sessions sessions i in
    known_again k later again (begin_session after) refl (
      get-remembered k tt until 0 after.seen later last
        (run_socket_sessions-Remembers k until sessions i soon known))
