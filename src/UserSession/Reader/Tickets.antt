-- ===== src/UserSession/Reader/Tickets.antt =====
-- The reconnect tickets that a reader keeps.
use sjmb_slack.Prelude.{
  ℕ, ◌≡◌, refl, sym, Bool, true, false, List, [], ◌∷◌, Option, none, some, ltb, ◌-◌, subst,
  Bool-cases, inl, inr,
}
use sjmb_slack.Prelude.Int.{ℤ}
use sjmb_slack.Prelude.Text.{Text, codes, text_eq}
use sjmb_slack.Prelude.Result.{Result, ok, err}
use sjmb_slack.Url.{Url}
use sjmb_slack.Prelude.Result.{Result-cases}
use sjmb_slack.UserSession.Json.{Value, at_key, as_str, as_u64}
use sjmb_slack.UserSession.Events.{check_error, validate_socket_url}
use sjmb_slack.UserSession.Events.Sockets.{IsTrusted, validate_socket_url-IsTrusted}
use sjmb_slack.UserSession.Reader.{
  LiveEvent, live_message, live_checkpoint, Pending, Reader, Input, ReadError, ticks, text_frame,
  ping_frame, other_frame, close_frame, stream_ended, frame_failed, enqueue_event, has_room, tick,
  pong, answers, confirmed, pong_timeout, reconnect_ticket, leaves, is_live, dispatch, handle_text,
  read, read_socket,
}

module _ (parse_url : Text → Option Url) where
  -- No ticket, or one that names a trusted socket of Slack.
  pub data IsKept : Option Text → Type 0 where
    no_ticket : IsKept none
    ticket : (t : Text) (url : Url) → parse_url t ≡ some url → IsTrusted url → IsKept (some t)

  abbrev Same : Reader → Result ReadError (Unit {0}) × Reader → Type 0
  Same r out = out.1.reconnect_url ≡ r.reconnect_url

  tick-Same :
      (instant sent : ℕ) (wall : ℤ) (written : Bool) (o : Option Pending) (r : Reader)
      → Same r (tick instant sent wall written o r)
  unfolding tick
  tick-Same instant sent wall written (some p) r =
      elim (Bool-cases (ltb (instant - p.sent) pong_timeout)) [
        | inl soon ↦ rw (soon, tick) refl
        | inr late ↦ rw (late, tick) refl
      ]
  tick-Same instant sent wall true none r = refl
  tick-Same instant sent wall false none r = refl

  enqueue-Same : (e : LiveEvent) (r : Reader) → Same r (enqueue_event e r)
  unfolding enqueue_event
  enqueue-Same e r = elim (Bool-cases (has_room r.queue)) [
    | inl room ↦ rw (room, enqueue_event) refl
    | inr crowded ↦ rw (crowded, enqueue_event) refl
  ]

  confirmed-Same :
      (r : Reader) (out : Result ReadError (Unit {0}) × Reader)
      → Same r out
      → Same r (confirmed out)
  confirmed-Same r (ok u, s) h = h
  confirmed-Same r (err e, s) h = h

  pong-Same : (reply : Option ℕ) (o : Option Pending) (r : Reader) → Same r (pong reply o r)
  unfolding pong
  pong-Same reply none r = refl
  pong-Same reply (some p) r = elim (Bool-cases (answers p reply)) [
    | inl same ↦
        rw (same, pong)
          (confirmed-Same r (enqueue_event (live_checkpoint p.at) r)
            (enqueue-Same (live_checkpoint p.at) r))
    | inr other ↦ rw (other, pong) refl
  ]

  kept :
      (r : Reader) (out : Result ReadError (Unit {0}) × Reader)
      → Same r out
      → IsKept r.reconnect_url
      → IsKept out.1.reconnect_url
  kept r out same k = subst IsKept (sym same) k

  ticket-IsKept :
      (url : Option Text) (r : Reader)
      → IsKept r.reconnect_url
      → IsKept (reconnect_ticket parse_url url r).1.reconnect_url
  unfolding reconnect_ticket
  ticket-IsKept none r k = k
  ticket-IsKept (some url) r k = elim (Result-cases (validate_socket_url parse_url url)) [
    | inr (x, e) ↦ rw (e, reconnect_ticket) k
    | inl (u, e) ↦
        let (parses, short, trusted) = validate_socket_url-IsTrusted parse_url url u e in
        rw (e, reconnect_ticket) (ticket url u parses trusted)
  ]

  dispatch-IsKept :
      (kind : Option Text) (event : Value) (r : Reader)
      → IsKept r.reconnect_url
      → IsKept (dispatch parse_url kind event r).1.reconnect_url
  unfolding dispatch
  dispatch-IsKept none event r k = k
  dispatch-IsKept (some kind) event r k = elim (Bool-cases (text_eq kind (codes "pong"))) [
    | inl e ↦
        let reply = as_u64 (at_key (codes "reply_to") event) in
        rw (e, dispatch) (kept r (pong reply r.pending r) (pong-Same reply r.pending r) k)
    | inr e ↦ elim (Bool-cases (text_eq kind (codes "reconnect_url"))) [
      | inl f ↦ rw (e, f, dispatch) (ticket-IsKept (as_str (at_key (codes "url") event)) r k)
      | inr f ↦ elim (Bool-cases (leaves kind)) [
        | inl g ↦ rw (e, f, g, dispatch) k
        | inr g ↦ elim (Bool-cases (is_live kind)) [
          | inl live ↦
              rw (e, f, g, live, dispatch)
                (kept r (enqueue_event (live_message event) r) (enqueue-Same (live_message event) r)
                  k)
          | inr quiet ↦ rw (e, f, g, quiet, dispatch) k
        ]
      ]
    ]
  ]

  text-IsKept :
      (o : Option Value) (r : Reader)
      → IsKept r.reconnect_url
      → IsKept (handle_text parse_url o r).1.reconnect_url
  unfolding handle_text
  text-IsKept none r k = k
  text-IsKept (some event) r k = elim (Result-cases (check_error event)) [
    | inl (u, e) ↦
        rw (e, handle_text) (dispatch-IsKept (as_str (at_key (codes "type") event)) event r k)
    | inr (x, e) ↦ rw (e, handle_text) k
  ]

  read-IsKept :
      (parse_json : Text → Option Value) (c : Input) (r : Reader)
      → IsKept r.reconnect_url
      → IsKept (read parse_url parse_json c r).1.reconnect_url
  unfolding read
  read-IsKept parse_json (ticks instant sent wall written) r k =
      kept r (tick instant sent wall written r.pending r)
        (tick-Same instant sent wall written r.pending r) k
  read-IsKept parse_json (text_frame t) r k = text-IsKept (parse_json t) r k
  read-IsKept parse_json (ping_frame true) r k = k
  read-IsKept parse_json (ping_frame false) r k = k
  read-IsKept parse_json other_frame r k = k
  read-IsKept parse_json close_frame r k = k
  read-IsKept parse_json stream_ended r k = k
  read-IsKept parse_json frame_failed r k = k

  -- Whatever a websocket sends, the round that ends the loop included: a session that starts without a
  -- reconnect ticket, or with one of a trusted socket, keeps none but those of trusted sockets of Slack.
  pub read_socket-IsKept :
      (parse_json : Text → Option Value) (cs : List Input) (r : Reader)
      → IsKept r.reconnect_url
      → IsKept (read_socket parse_url parse_json cs r).1.reconnect_url
  unfolding read_socket
  read_socket-IsKept parse_json [] r k = k
  read_socket-IsKept parse_json (c ∷ cs) r k =
      let one = read parse_url parse_json c r in
      let next = read-IsKept parse_json c r k in
      elim (Result-cases one.0) [
        | inl (u, e) ↦ rw (e, read_socket) (read_socket-IsKept parse_json cs one.1 next)
        | inr (x, e) ↦ rw (e, read_socket) next
      ]
