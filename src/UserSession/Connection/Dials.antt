-- ===== src/UserSession/Connection/Dials.antt =====
-- Where a session connects to in its lifetime.
use sjmb_slack.Prelude.{
  ℕ, ◌≡◌, refl, List, [], ◌∷◌, ◌++◌, Option, none, some, All, All-append, inl, inr,
}
use sjmb_slack.Prelude.Text.{Text}
use sjmb_slack.Prelude.Result.{Result, ok, err}
use sjmb_slack.Limits.Counters.{Counters}
use sjmb_slack.Url.{Url}
use sjmb_slack.Prelude.Result.{Result-cases}
use sjmb_slack.Bot.Names.{unwrap_or}
use sjmb_slack.UserSession.Json.{Value}
use sjmb_slack.UserSession.Events.{ApiError, validate_socket_url}
use sjmb_slack.UserSession.Events.Sockets.{IsTrusted, validate_socket_url-IsTrusted}
use sjmb_slack.UserSession.Reader.{Input, open_reader, read_socket}
use sjmb_slack.UserSession.Reader.Tickets.{IsKept, no_ticket, read_socket-IsKept}
use sjmb_slack.UserSession.Connection.{Handshake, HelloFrame, open_connection}

-- An attempt to connect: how it goes up to the hello, and what the reader then takes.
pub record Attempt : Type 0 where
  pub handshake : Handshake
  pub frames : List HelloFrame
  pub inputs : List Input

abbrev pub dialed_list : Option Url → List Url
dialed_list none = []
dialed_list (some url) = url ∷ []

module _ (parse_url : Text → Option Url) (display_status : ℕ → Text) (gateway : Text)
    (parse_json : Text → Option Value) (counters : Counters) where
  -- The ticket after an attempt: what the reader leaves, if the connection came to be.
  abbrev pub ticket_after : Result ApiError (Unit {0}) → List Input → Option Text → Option Text
  ticket_after (err e) inputs ticket = ticket
  ticket_after (ok u) inputs ticket =
      (read_socket parse_url parse_json inputs (open_reader ticket counters)).1.reconnect_url

  -- The websockets that the session dials, with its cookie, and the ticket that is left.
  abbrev pub session_dials : List Attempt → Option Text → List Url × Option Text
  session_dials [] ticket = ([], ticket)
  session_dials (a ∷ rest) ticket =
      let opening = open_connection parse_url display_status gateway a.handshake a.frames ticket in
      let later = session_dials rest (ticket_after opening.result a.inputs opening.ticket) in
      (dialed_list opening.dialed ++ later.0, later.1)

  open_connection-IsTrusted :
      (h : Handshake) (frames : List HelloFrame) (ticket : Option Text)
      → All IsTrusted
          (dialed_list (open_connection parse_url display_status gateway h frames ticket).dialed)
        × ((open_connection parse_url display_status gateway h frames ticket).ticket ≡ none)
  unfolding open_connection
  open_connection-IsTrusted h frames ticket =
      elim (Result-cases (validate_socket_url parse_url (unwrap_or ticket gateway))) [
        | inr (x, e) ↦ rw (e, open_connection) (tt, refl)
        | inl (url, e) ↦
            let (parses, short, trusted) =
              validate_socket_url-IsTrusted parse_url (unwrap_or ticket gateway) url e in
            rw (e, open_connection) ((trusted, tt), refl)
      ]

  ticket_after-IsKept :
      (out : Result ApiError (Unit {0})) (inputs : List Input) (ticket : Option Text)
      → IsKept parse_url ticket
      → IsKept parse_url (ticket_after out inputs ticket)
  unfolding open_reader
  ticket_after-IsKept (err e) inputs ticket k = k
  ticket_after-IsKept (ok u) inputs ticket k =
      read_socket-IsKept parse_url parse_json inputs (open_reader ticket counters) k

  -- In the lifetime of a session that starts with no ticket or a valid one, whatever its websockets send
  -- it as reconnect tickets: every websocket that it dials, with its cookie, is one of a subdomain of
  -- slack.com over TLS on port 443, and a ticket that is left at the end is one of such a websocket.
  pub session_dials-IsTrusted :
      (attempts : List Attempt) (ticket : Option Text)
      → IsKept parse_url ticket
      → All IsTrusted (session_dials attempts ticket).0
        × IsKept parse_url (session_dials attempts ticket).1
  session_dials-IsTrusted [] ticket k = (tt, k)
  session_dials-IsTrusted (a ∷ rest) ticket k =
      let opening = open_connection parse_url display_status gateway a.handshake a.frames ticket in
      let (dialed, used) = open_connection-IsTrusted a.handshake a.frames ticket in
      let kept : IsKept parse_url opening.ticket = rw used no_ticket in
      let (trusted, left) =
        session_dials-IsTrusted rest (ticket_after opening.result a.inputs opening.ticket)
          (ticket_after-IsKept opening.result a.inputs opening.ticket kept) in
      (All-append IsTrusted (dialed_list opening.dialed) _ dialed trusted, left)
