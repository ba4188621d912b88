-- ===== src/UserSession/Reader/Effects.antt =====
-- What an input does to the heartbeat and to the queue.
use sjmb_slack.Prelude.{
  ℕ, suc, ◌%◌, ◌^◌, ◌≡◌, refl, Bool, true, false, Option, none, some, Bool-cases, inl, inr, ◌-◌,
  ltb, ltb→lt, sym, ap, subst, ◌∙◌,
}
use sjmb_slack.Prelude.Int.{ℤ}
use sjmb_slack.Prelude.Text.{Text, codes, text_eq, text_eq→eq}
use sjmb_slack.Url.{Url}
use sjmb_slack.Prelude.Result.{Result-cases}
use sjmb_slack.UserSession.Json.{Value, at_key, as_str, as_u64}
use sjmb_slack.UserSession.Events.{check_error, validate_socket_url}
use sjmb_slack.UserSession.Reader.{
  live_message, live_checkpoint, Pending, Reader, Input, ticks, text_frame, ping_frame, other_frame,
  close_frame, stream_ended, frame_failed, enqueue_event, has_room, tick, pong, answers, confirmed,
  reconnect_ticket, leaves, is_live, dispatch, handle_text, read, pong_timeout,
}
use sjmb_slack.UserSession.Reader.Outcomes.{
  Unanswered, NoEffect, Effect, idles, pings, forwards, confirms, After,
}

is_live-reconnect :
    (kind : Text) → text_eq kind (codes "reconnect_url") ≡ true → is_live kind ≡ false
unfolding is_live
is_live-reconnect kind h = rw (text_eq→eq kind (codes "reconnect_url") h) refl

is_live-pong : (kind : Text) → text_eq kind (codes "pong") ≡ true → is_live kind ≡ false
unfolding is_live
is_live-pong kind h = rw (text_eq→eq kind (codes "pong") h) refl

module _ (parse_json : Text → Option Value) (r : Reader) where
  tick-After :
      (instant sent : ℕ) (wall : ℤ) (written : Bool) (o : Option Pending)
      → r.pending ≡ o
      → After parse_json (ticks instant sent wall written) r (tick instant sent wall written o r)
  unfolding tick
  tick-After instant sent wall written (some p) waits =
      elim (Bool-cases (ltb (instant - p.sent) pong_timeout)) [
        | inl soon ↦ rw (soon, tick) (idles (p, waits, ltb→lt _ _ soon) refl refl)
        | inr late ↦ rw (late, tick) refl
      ]
  tick-After instant sent wall true none free =
      pings instant (record { id = suc r.sequence % 2 ^ 64; sent = sent; at = wall }) refl free refl
        refl refl
  tick-After instant sent wall false none free = refl

  module _ (t : Text) (v : Value) (parsed : parse_json t ≡ some v) where
    abbrev kind_of : Option Text
    kind_of = as_str (at_key (codes "type") v)

    no_effect :
        (kind : Option Text) (s : Reader)
        → kind_of ≡ kind
        → NoEffect kind v r
        → s.pending ≡ r.pending
        → s.queue.events ≡ r.queue.events
        → Effect parse_json (text_frame t) r s
    no_effect kind s e quiet same events =
        idles (inr (v, parsed, subst (λ k. NoEffect k v r) (sym e) quiet)) same events

    enqueue-After :
        (kind : Text)
        → kind_of ≡ some kind
        → is_live kind ≡ true
        → After parse_json (text_frame t) r (enqueue_event (live_message v) r)
    unfolding enqueue_event
    enqueue-After kind e live = elim (Bool-cases (has_room r.queue)) [
      | inl room ↦ rw (room, enqueue_event) (forwards kind v (t, refl, parsed, e) live refl refl)
      | inr crowded ↦ rw (crowded, enqueue_event) refl
    ]

    confirmed-After :
        (p : Pending)
        → kind_of ≡ some (codes "pong")
        → answers p (as_u64 (at_key (codes "reply_to") v)) ≡ true
        → r.pending ≡ some p
        → After parse_json (text_frame t) r (confirmed (enqueue_event (live_checkpoint p.at) r))
    unfolding enqueue_event
    confirmed-After p e same waits = elim (Bool-cases (has_room r.queue)) [
      | inl room ↦ rw (room, enqueue_event) (confirms p v (t, refl, parsed, e) same waits refl refl)
      | inr crowded ↦ rw (crowded, enqueue_event) refl
    ]

    pong-After :
        (o : Option Pending)
        → kind_of ≡ some (codes "pong")
        → r.pending ≡ o
        → After parse_json (text_frame t) r (pong (as_u64 (at_key (codes "reply_to") v)) o r)
    unfolding pong is_live
    pong-After none e free =
        no_effect (some (codes "pong")) r e
          (refl, inr (subst (Unanswered (as_u64 (at_key (codes "reply_to") v))) (sym free) tt)) refl
          refl
    pong-After (some p) e waits =
        elim (Bool-cases (answers p (as_u64 (at_key (codes "reply_to") v)))) [
          | inl same ↦ rw (same, pong) (confirmed-After p e same waits)
          | inr other ↦
              rw (other, pong)
                (no_effect (some (codes "pong")) r e
                  (
                    refl,
                    inr (
                        subst (Unanswered (as_u64 (at_key (codes "reply_to") v))) (sym waits)
                          other),
                  )
                  refl refl)
        ]

    module _ (parse_url : Text → Option Url) where
      ticket-After :
          (kind : Text) (url : Option Text)
          → kind_of ≡ some kind
          → NoEffect (some kind) v r
          → After parse_json (text_frame t) r (reconnect_ticket parse_url url r)
      unfolding reconnect_ticket
      ticket-After kind none e quiet = no_effect (some kind) r e quiet refl refl
      ticket-After kind (some url) e quiet =
          elim (Result-cases (validate_socket_url parse_url url)) [
            | inl (u, f) ↦
                rw (f, reconnect_ticket)
                  (no_effect (some kind) (record r { reconnect_url = some url }) e quiet refl refl)
            | inr (x, f) ↦ rw (f, reconnect_ticket) refl
          ]

      dispatch-After :
          (kind : Option Text)
          → kind_of ≡ kind
          → After parse_json (text_frame t) r (dispatch parse_url kind v r)
      unfolding dispatch
      dispatch-After none e = no_effect none r e tt refl refl
      dispatch-After (some kind) e = elim (Bool-cases (text_eq kind (codes "pong"))) [
        | inl f ↦
            let pongs = e ∙ ap some (text_eq→eq kind (codes "pong") f) in
            rw (f, dispatch) (pong-After r.pending pongs refl)
        | inr f ↦ elim (Bool-cases (text_eq kind (codes "reconnect_url"))) [
          | inl g ↦
              rw (f, g, dispatch)
                (ticket-After kind (as_str (at_key (codes "url") v)) e
                  (is_live-reconnect kind g, inl f))
          | inr g ↦ elim (Bool-cases (leaves kind)) [
            | inl h ↦ rw (f, g, h, dispatch) refl
            | inr h ↦ elim (Bool-cases (is_live kind)) [
              | inl live ↦ rw (f, g, h, live, dispatch) (enqueue-After kind e live)
              | inr quiet ↦
                  rw (f, g, h, quiet, dispatch) (no_effect (some kind) r e (quiet, inl f) refl refl)
            ]
          ]
        ]
      ]

  text-After :
      (parse_url : Text → Option Url) (t : Text) (o : Option Value)
      → parse_json t ≡ o
      → After parse_json (text_frame t) r (handle_text parse_url o r)
  unfolding handle_text
  text-After parse_url t none e = idles (inl e) refl refl
  text-After parse_url t (some event) e = elim (Result-cases (check_error event)) [
    | inl (u, f) ↦
        rw (f, handle_text)
          (dispatch-After t event e parse_url (as_str (at_key (codes "type") event)) refl)
    | inr (x, f) ↦ rw (f, handle_text) refl
  ]

-- A round of the reader either ends the loop, with nothing passed on, or has one of four effects. A tick
-- sends a ping, while none is on its way. A frame with an event of a live type passes that event on. A
-- frame with a pong whose `reply_to` is the number of the ping on its way, or is absent, answers it: one
-- checkpoint, with the time of that ping, is passed on. In every other case, a pong with another number
-- among them, neither the heartbeat nor the queue changes.
pub read-After :
    (parse_url : Text → Option Url) (parse_json : Text → Option Value) (c : Input) (r : Reader)
    → After parse_json c r (read parse_url parse_json c r)
unfolding read
read-After parse_url parse_json (ticks instant sent wall written) r =
    tick-After parse_json r instant sent wall written r.pending refl
read-After parse_url parse_json (text_frame t) r =
    text-After parse_json r parse_url t (parse_json t) refl
read-After parse_url parse_json (ping_frame true) r = idles refl refl refl
read-After parse_url parse_json (ping_frame false) r = refl
read-After parse_url parse_json other_frame r = idles tt refl refl
read-After parse_url parse_json close_frame r = refl
read-After parse_url parse_json stream_ended r = refl
read-After parse_url parse_json frame_failed r = refl
