-- ===== src/Tests/ApiTests.antt =====
-- Runs of the client of Slack's API and of the connections of a session.
use sjmb_slack.Prelude.{ℕ, ◌≡◌, refl, true, [], ◌∷◌, List, Option, none, some, All, length, arith}
use sjmb_slack.Prelude.Text.{Text, codes}
use sjmb_slack.Prelude.Result.{ok, err}
use sjmb_slack.Limits.Counters.{zero_counters}
use sjmb_slack.UserSession.Json.{Value, boolean, text, object, field, no_fields}
use sjmb_slack.UserSession.Events.{authentication, rate_limited, other_api_error, retry_delay}
use sjmb_slack.UserSession.Events.Sockets.{IsTrusted}
use sjmb_slack.UserSession.Api.{
  Response, answered, chunk, trailers, from_api, start_call, end_call, read_body, retry_after,
  is_allowed, authentication_error,
}
use sjmb_slack.UserSession.Api.Polite.{
  ApiStep, starts, ends, Justified, idle, run_api, run_api-Justified,
}
use sjmb_slack.UserSession.Api.Answers.{Answered, end_call-Answered}
use sjmb_slack.UserSession.Reader.{text_frame}
use sjmb_slack.UserSession.Reader.Tickets.{IsKept, no_ticket}
use sjmb_slack.UserSession.Connection.{
  EndedConnection, still_running, run_session, connected, hello_text,
}
use sjmb_slack.UserSession.Connection.Persists.{AllPaced, run_session-persists}
use sjmb_slack.UserSession.Connection.Dials.{Attempt, session_dials, session_dials-IsTrusted}
use sjmb_slack.Tests.SessionTests.{parse_host_only, gateway}

abbrev ok_object : Value
ok_object = object (field (codes "ok") (boolean true) no_fields)

-- A parser that takes every body for a success, and one for a failure.
abbrev parse_ok : List ℕ → Option Value
parse_ok bytes = some ok_object

abbrev parse_expired : List ℕ → Option Value
parse_expired bytes = some (object (field (codes "error") (text (codes "token_expired")) no_fields))

abbrev display_status : ℕ → Text
display_status n = codes "status"

abbrev response : ℕ → Response
response status = record {
  status = status;
  retry_header = some (codes "5");
  content_length = none;
  body = chunk (1 ∷ 2 ∷ []) ∷ trailers ∷ [];
}

-- A call, its rate limit, a call within the pause and one after it.
abbrev steps : List ApiStep
steps =
    starts (codes "auth.test") [] 0
    ∷ ends (codes "auth.test") (answered (response 429)) 10
    ∷ starts (codes "users.info") [] 20
    ∷ starts (codes "users.info") [] 6000
    ∷ starts (codes "chat.postMessage") [] 7000
    ∷ []

sends_two : length (run_api parse_ok display_status steps (idle 0)).sent ≡ 2
unfolding start_call end_call is_allowed retry_after
sends_two = refl

run_api-Justified_example :
    All (Justified steps 0) (run_api parse_ok display_status steps (idle 0)).sent
run_api-Justified_example = run_api-Justified parse_ok display_status steps 0

succeeds :
    (end_call parse_ok display_status (codes "auth.test") (answered (response 200)) 10 (idle 0)).0
    ≡ ok ok_object
unfolding end_call read_body
succeeds = refl

expires :
    (end_call parse_expired display_status
      (codes "auth.test")
      (answered (response 200))
      10
      (idle 0)).0
    ≡ err (from_api (authentication (codes "token_expired")))
unfolding end_call read_body
expires = refl

end_call-Answered_example :
    Answered parse_ok display_status
      (answered (response 200))
      10
      (idle 0)
      (end_call parse_ok display_status (codes "auth.test") (answered (response 200)) 10 (idle 0))
end_call-Answered_example =
    end_call-Answered parse_ok display_status (codes "auth.test") (answered (response 200)) 10
      (idle 0)

abbrev limited_end : EndedConnection
limited_end = record { error = rate_limited 40000; saved = true; elapsed = 61000; jitter = 7 }

abbrev other_end : EndedConnection
other_end = record { error = other_api_error; saved = true; elapsed = 100; jitter = 7 }

abbrev ended_connections : List EndedConnection
ended_connections = other_end ∷ other_end ∷ limited_end ∷ other_end ∷ []

pauses : (run_session 2 ended_connections).0 ≡ 2007 ∷ 4007 ∷ 40000 ∷ 4007 ∷ []
unfolding run_session authentication_error retry_delay
pauses = refl

run_session-persists_example :
    ((run_session 2 ended_connections).1 ≡ still_running)
    × AllPaced ended_connections (run_session 2 ended_connections).0
unfolding authentication_error
run_session-persists_example =
    run_session-persists 2 ended_connections (omega arith) (omega arith) (
      (refl, refl, omega arith),
      ((refl, refl, omega arith), ((refl, refl, omega arith), ((refl, refl, omega arith), tt))),
    )

abbrev parse_kind : Text → Option Value
parse_kind t =
    some (object (field (codes "type") (text t) (field (codes "url") (text gateway) no_fields)))

abbrev attempts : List Attempt
attempts =
    record {
      handshake = connected;
      frames = hello_text (parse_kind (codes "hello")) ∷ [];
      inputs = text_frame (codes "reconnect_url") ∷ [];
    }
    ∷ record { handshake = connected; frames = []; inputs = [] }
    ∷ []

session_dials-IsTrusted_example :
    All IsTrusted
      (session_dials parse_host_only display_status gateway parse_kind zero_counters attempts
        none).0
    × IsKept parse_host_only
        (session_dials parse_host_only display_status gateway parse_kind zero_counters attempts
          none).1
session_dials-IsTrusted_example =
    session_dials-IsTrusted parse_host_only display_status gateway parse_kind zero_counters attempts
      none no_ticket
