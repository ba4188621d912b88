-- ===== src/UserSession/Api.antt =====
-- `SessionApi` of src/slackbot/user_session/api.rs. Instants and durations are in milliseconds. A call
-- is two steps, since other calls may run while it waits for its answer: it starts, which reads the
-- shared pause and sends the request, and it ends with the answer, which may set the pause. The JSON
-- parser and the display of a status are arguments.
pub mod Polite
pub mod Answers
use sjmb_slack.Prelude.{
  ℕ, zero, suc, ◌+◌, ◌-◌, ◌*◌, ◌^◌, min, max, ◌≡◌, Bool, true, false, not, ◌&&◌, ◌||◌, List, [],
  ◌∷◌, ◌++◌, Option, none, some, ltb, leb, ◌==◌, any, all, length, if◌then◌else◌,
}
use sjmb_slack.Prelude.Text.{Text, codes, text_eq, is_digit, is_empty}
use sjmb_slack.Prelude.Result.{Result, ok, err, ◌>>=◌, ◌>>◌, ensure}
use sjmb_slack.Harvest.Timestamp.{decimal}
use sjmb_slack.Bot.Names.{unwrap_or}
use sjmb_slack.UserSession.Json.{Value, at_key, as_str, is_true}
use sjmb_slack.UserSession.Events.{ApiError, authentication, request, rate_limited, other_api_error}

abbrev pub response_bytes : ℕ
response_bytes = 4 * 1024 * 1024

abbrev pub allowed_methods : List Text
allowed_methods =
    codes "auth.test"
    ∷ codes "users.conversations"
    ∷ codes "users.info"
    ∷ codes "conversations.info"
    ∷ codes "conversations.history"
    ∷ codes "conversations.replies"
    ∷ []

-- The errors of a call: those of `ApiError`, and those that are only text.
pub data CallError : Type 0 where
  from_api : ApiError → CallError
  http_failure : (status : ℕ) → CallError
  not_allowed response_too_large invalid_json request_failed request_timed_out : CallError

-- `error.downcast_ref::<ApiError>()`.
abbrev pub downcast : CallError → ApiError
downcast (from_api e) = e
downcast _ = other_api_error

unfoldable pub authentication_error : ApiError → Bool
authentication_error (authentication code) = true
authentication_error _ = false

-- `parse::<u64>`: digits after an optional plus sign, within 64 bits.
abbrev pub unsigned_digits : Text → Option ℕ
unsigned_digits digits =
    if is_empty digits || not (all is_digit digits) || leb (2 ^ 64) (decimal 0 digits)
    then none
    else some (decimal 0 digits)

abbrev pub parse_u64 : Text → Option ℕ
parse_u64 [] = none
parse_u64 (c ∷ cs) = if c == b'+' then unsigned_digits cs else unsigned_digits (c ∷ cs)

abbrev pub clamp : ℕ → ℕ → ℕ → ℕ
clamp low high n = max low (min high n)

-- The header is none if it is missing or no visible text.
unfoldable pub retry_after : Option Text → ℕ
retry_after none = 1000 * clamp 1 86400 60
retry_after (some header) = 1000 * clamp 1 86400 (unwrap_or (parse_u64 header) 60)

-- A frame of the body; `into_data` fails on the trailers.
pub data BodyFrame : Type 0 where
  chunk : (bytes : List ℕ) → BodyFrame
  trailers broken stalled : BodyFrame

pub record Response : Type 0 where
  pub status : ℕ
  pub retry_header : Option Text
  pub content_length : Option Text
  pub body : List BodyFrame

-- What comes of a request within the time that a call has.
pub data Exchange : Type 0 where
  unanswered unreachable : Exchange
  answered : Response → Exchange

pub record Request : Type 0 where
  pub method : Text
  pub params : List (Text × Text)
  pub sent_at : ℕ

-- The shared pause, and the requests that were sent.
pub record SessionApi : Type 0 where
  pub pause : ℕ
  pub sent : List Request

unfoldable pub is_allowed : Text → Bool
is_allowed method = any (λ m. text_eq m method) allowed_methods

-- The start of `call`, up to the request.
unfoldable pub start_call :
    Text → List (Text × Text) → ℕ → SessionApi → Result CallError (Unit {0}) × SessionApi
start_call method params now api =
    if not (is_allowed method)
    then (err not_allowed, api)
    else if ltb 0 (api.pause - now)
    then (err (from_api (rate_limited (api.pause - now))), api)
    else (
      ok tt,
      record api {
        sent = api.sent ++ record { method = method; params = params; sent_at = now } ∷ [];
      },
    )

abbrev pub saturating_add : ℕ → ℕ → ℕ
saturating_add a b = min (a + b) (2 ^ 64 - 1)

-- The loop over the frames of the body.
unfoldable pub read_body : List BodyFrame → List ℕ → Result CallError (List ℕ)
read_body [] bytes = ok bytes
read_body (chunk more ∷ frames) bytes =
    let rest = read_body frames (bytes ++ more) in
    if leb (saturating_add (length bytes) (length more)) response_bytes
    then rest
    else err response_too_large
read_body (trailers ∷ frames) bytes = read_body frames bytes
read_body (broken ∷ frames) bytes = err request_failed
read_body (stalled ∷ frames) bytes = err request_timed_out

abbrev pub announced_within : Option Text → Bool
announced_within none = true
announced_within (some header) = elim (parse_u64 header) [
  | none ↦ true
  | some n ↦ leb n response_bytes
]

-- The codes of an answer that say that the session is invalid.
abbrev pub session_codes : List Text
session_codes =
    codes "invalid_auth"
    ∷ codes "not_authed"
    ∷ codes "token_expired"
    ∷ codes "token_revoked"
    ∷ codes "account_inactive"
    ∷ codes "session_expired"
    ∷ codes "org_login_required"
    ∷ []

abbrev pub refusal : Text → Text → ApiError
refusal method code =
    if any (λ c. text_eq c code) session_codes then authentication code else request method code

abbrev pub check_result : Text → Value → Result CallError Value
check_result method v =
    if is_true (at_key (codes "ok") v)
    then ok v
    else err (
        from_api
          (refusal method (unwrap_or (as_str (at_key (codes "error") v)) (codes "unknown_error"))))

abbrev pub parsed : Option Value → Result CallError Value
parsed none = err invalid_json
parsed (some v) = ok v

module _ (parse_json : List ℕ → Option Value) (display_status : ℕ → Text) where
  -- What follows once the status is neither a refusal of the session nor a rate limit.
  unfoldable pub read_answer : Text → Response → Result CallError Value
  unfolding read_body
  read_answer method r = do
    ensure (leb 200 r.status && ltb r.status 300) (http_failure r.status)
    ensure (announced_within r.content_length) response_too_large
    bytes ← read_body r.body []
    v ← parsed (parse_json bytes)
    check_result method v

  -- The end of `call`, from the answer.
  unfoldable pub end_call : Text → Exchange → ℕ → SessionApi → Result CallError Value × SessionApi
  unfolding read_answer
  end_call method unanswered now api = (err request_timed_out, api)
  end_call method unreachable now api = (err request_failed, api)
  end_call method (answered r) now api =
      if r.status == 401 || r.status == 403
      then (err (from_api (authentication (codes "HTTP " ++ display_status r.status))), api)
      else if r.status == 429
      then (
        err (from_api (rate_limited (retry_after r.retry_header))),
        record api { pause = now + retry_after r.retry_header },
      )
      else (read_answer method r, api)

  -- A call from its start to its end, with no other between them; `recovery_call` is one after a sleep.
  unfoldable pub call :
      Text
      → List (Text × Text)
      → ℕ
      → Exchange
      → ℕ
      → SessionApi
      → Result CallError Value × SessionApi
  unfolding start_call end_call
  call method params now exchange ended api =
      let begun = start_call method params now api in
      elim begun.0 [ err e ↦ (err e, begun.1) | ok _ ↦ end_call method exchange ended begun.1 ]
