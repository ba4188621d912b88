-- ===== src/UserSession/Api/Answers.antt =====
-- What an answer of Slack becomes.
use sjmb_slack.Prelude.{
  ℕ, ◌+◌, ◌≤◌, ◌<◌, ◌≡◌, refl, sym, ap, ◌∙◌, Bool, true, false, ◌&&◌, List, [], ◌∷◌, ◌++◌, Option,
  none, some, any, ◌||◌, ltb, leb, ◌==◌, length, length-append, arith, append_assoc, append-nil,
  subst, Bool-cases, inl, inr,
}
use sjmb_slack.Prelude.Text.{Text, codes, text_eq}
use sjmb_slack.Prelude.Result.{Result, ok, err, ◌>>=◌, ensure}
use sjmb_slack.Prelude.Result.{Result-cases, bind-ok, ensure-ok}
use sjmb_slack.Bot.Names.{unwrap_or}
use sjmb_slack.UserSession.Json.{Value, at_key, as_str, is_true}
use sjmb_slack.UserSession.Events.{authentication, request, rate_limited, other_api_error}
use sjmb_slack.UserSession.Api.{
  SessionApi, Response, Exchange, unanswered, unreachable, answered, BodyFrame, chunk, trailers,
  broken, stalled, CallError, from_api, http_failure, response_too_large, response_bytes,
  retry_after, announced_within, read_body, read_answer, end_call, parsed, check_result,
  not_allowed, invalid_json, request_failed, request_timed_out, saturating_add, session_codes,
}

-- The bytes of a body, its trailers left out.
abbrev pub payload : List BodyFrame → List ℕ
payload [] = []
payload (chunk bytes ∷ frames) = bytes ++ payload frames
payload (_ ∷ frames) = payload frames

read_body-payload :
    (frames : List BodyFrame) (before bytes : List ℕ)
    → length before ≤ response_bytes
    → read_body frames before ≡ ok bytes
    → (bytes ≡ before ++ payload frames) × (length bytes ≤ response_bytes)
unfolding read_body
read_body-payload [] before bytes short h = (ground (arith, append-nil before), ground arith)
read_body-payload (chunk more ∷ frames) before bytes short h =
    let (whole, fits) =
      read_body-payload frames (before ++ more) bytes (ground (arith, length-append before more))
        (ground arith) in
    (whole ∙ append_assoc before more (payload frames), fits)
read_body-payload (trailers ∷ frames) before bytes short h =
    read_body-payload frames before bytes short h
read_body-payload (broken ∷ frames) before bytes short h = absurd (ground arith)
read_body-payload (stalled ∷ frames) before bytes short h = absurd (ground arith)

-- A delay between a second and a day.
pub retry_after_bounds : (h : Option Text) → (1000 ≤ retry_after h) × (retry_after h ≤ 86400000)
unfolding retry_after
retry_after_bounds none = (omega arith, omega arith)
retry_after_bounds (some h) = (omega arith, omega arith)

-- An answer that counts: a success of at most 4 MiB, whose JSON says that it is one.
pub record IsSuccess (parse_json : List ℕ → Option Value) (r : Response) (v : Value) : Type 0 where
  pub status_low : 200 ≤ r.status
  pub status_high : r.status < 300
  pub short : length (payload r.body) ≤ response_bytes
  pub json : parse_json (payload r.body) ≡ some v
  pub says_ok : is_true (at_key (codes "ok") v) ≡ true

module _ (parse_json : List ℕ → Option Value) (display_status : ℕ → Text) where
  parsed-ok : (o : Option Value) (v : Value) → parsed o ≡ ok v → o ≡ some v
  parsed-ok none v h = absurd (ground arith)
  parsed-ok (some w) v h = ground arith

  check_result-ok :
      (method : Text) (w v : Value)
      → check_result method w ≡ ok v
      → (w ≡ v) × (is_true (at_key (codes "ok") v) ≡ true)
  check_result-ok method w v h = elim (Bool-cases (is_true (at_key (codes "ok") w))) [
    | inl good ↦
        let e : w ≡ v = ground (arith, good) in
        (e, ap (λ x. is_true (at_key (codes "ok") x)) (sym e) ∙ good)
    | inr bad ↦ absurd (ground (arith, bad))
  ]

  read_answer-IsSuccess :
      (method : Text) (r : Response) (v : Value)
      → read_answer parse_json display_status method r ≡ ok v
      → IsSuccess parse_json r v
  unfolding read_answer
  read_answer-IsSuccess method r v h =
      let (u0, status, h0) =
        bind-ok (ensure (leb 200 r.status && ltb r.status 300) (http_failure r.status)) _ v h in
      let (u1, fits, h1) =
        bind-ok (ensure (announced_within r.content_length) response_too_large) _ v h0 in
      let (bytes, body, h2) = bind-ok (read_body r.body []) _ v h1 in
      let (w, json, h3) = bind-ok (parsed (parse_json bytes)) _ v h2 in
      let (whole, short) = read_body-payload r.body [] bytes (omega arith) body in
      let (same, says) = check_result-ok method w v h3 in
      let in_bounds =
        ensure-ok (leb 200 r.status && ltb r.status 300) (http_failure r.status) u0 status in
      record {
        status_low = ground (arith, in_bounds);
        status_high = ground (arith, in_bounds);
        short = subst (λ b. length b ≤ response_bytes) whole short;
        json = ap parse_json (sym whole) ∙ parsed-ok (parse_json bytes) w json ∙ ap some same;
        says_ok = says;
      }

  -- An error other than a rate limit.
  abbrev Unlimited : {A : Type 0} → Result CallError A → Type 0
  Unlimited (err (from_api (rate_limited d))) = ⊥
  Unlimited _ = Unit

  bind-Unlimited :
      {A B : Type 0} (m : Result CallError A) (f : A → Result CallError B)
      → Unlimited m
      → ((a : A) → Unlimited (f a))
      → Unlimited (m >>= f)
  bind-Unlimited (ok a) f h k = k a
  bind-Unlimited (err (from_api (rate_limited d))) f h k = h
  bind-Unlimited (err (from_api (authentication c))) f h k = tt
  bind-Unlimited (err (from_api (request m c))) f h k = tt
  bind-Unlimited (err (from_api other_api_error)) f h k = tt
  bind-Unlimited (err (http_failure n)) f h k = tt
  bind-Unlimited (err not_allowed) f h k = tt
  bind-Unlimited (err response_too_large) f h k = tt
  bind-Unlimited (err invalid_json) f h k = tt
  bind-Unlimited (err request_failed) f h k = tt
  bind-Unlimited (err request_timed_out) f h k = tt

  ensure-Unlimited :
      (b : Bool) (e : CallError) → Unlimited {A = Unit {0}} (err e) → Unlimited (ensure b e)
  ensure-Unlimited true e h = tt
  ensure-Unlimited false e h = h

  read_body-Unlimited :
      (frames : List BodyFrame) (bytes : List ℕ) → Unlimited (read_body frames bytes)
  unfolding read_body
  read_body-Unlimited [] bytes = tt
  read_body-Unlimited (chunk more ∷ frames) bytes =
      elim (Bool-cases (leb (saturating_add (length bytes) (length more)) response_bytes)) [
        | inl fits ↦ rw fits (read_body-Unlimited frames (bytes ++ more))
        | inr large ↦ rw large tt
      ]
  read_body-Unlimited (trailers ∷ frames) bytes = read_body-Unlimited frames bytes
  read_body-Unlimited (broken ∷ frames) bytes = tt
  read_body-Unlimited (stalled ∷ frames) bytes = tt

  parsed-Unlimited : (o : Option Value) → Unlimited (parsed o)
  parsed-Unlimited none = tt
  parsed-Unlimited (some v) = tt

  check_result-Unlimited : (method : Text) (v : Value) → Unlimited (check_result method v)
  check_result-Unlimited method v = elim (Bool-cases (is_true (at_key (codes "ok") v))) [
    | inl good ↦ rw good tt
    | inr bad ↦
        let code = unwrap_or (as_str (at_key (codes "error") v)) (codes "unknown_error") in
        rw bad (elim (Bool-cases (any (λ c. text_eq c code) session_codes)) [
          | inl session ↦ rw session tt
          | inr other ↦ rw other tt
        ])
  ]

  read_answer-Unlimited :
      (method : Text) (r : Response) → Unlimited (read_answer parse_json display_status method r)
  unfolding read_answer
  read_answer-Unlimited method r =
      bind-Unlimited _ _
        (ensure-Unlimited (leb 200 r.status && ltb r.status 300) (http_failure r.status) tt)
        (λ u.
          bind-Unlimited _ _
            (ensure-Unlimited (announced_within r.content_length) response_too_large tt)
            (λ u1. bind-Unlimited _ _ (read_body-Unlimited r.body []) (λ bytes.
              bind-Unlimited _ _ (parsed-Unlimited (parse_json bytes))
                (λ v. check_result-Unlimited method v))))

  -- What the end of a call may be.
  abbrev pub Answered : Exchange → ℕ → SessionApi → Result CallError Value × SessionApi → Type 0
  Answered x now api (ok v, after) =
      (after ≡ api) × (r : Response) × (x ≡ answered r) × IsSuccess parse_json r v
  Answered x now api (err (from_api (rate_limited d)), after) =
      (after ≡ record api { pause = now + d })
      × (1000 ≤ d)
      × (d ≤ 86400000)
      × (r : Response) × (x ≡ answered r)
      × (r.status ≡ 429)
  Answered x now api (err e, after) = after ≡ api

  Unlimited-Answered :
      (x : Exchange) (now : ℕ) (api : SessionApi) (e : CallError)
      → Unlimited {A = Value} (err e)
      → Answered x now api (err e, api)
  Unlimited-Answered x now api (from_api (rate_limited d)) h = absurd h
  Unlimited-Answered x now api (from_api (authentication c)) h = refl
  Unlimited-Answered x now api (from_api (request m c)) h = refl
  Unlimited-Answered x now api (from_api other_api_error) h = refl
  Unlimited-Answered x now api (http_failure n) h = refl
  Unlimited-Answered x now api not_allowed h = refl
  Unlimited-Answered x now api response_too_large h = refl
  Unlimited-Answered x now api invalid_json h = refl
  Unlimited-Answered x now api request_failed h = refl
  Unlimited-Answered x now api request_timed_out h = refl

  read_answer-Answered :
      (method : Text) (r : Response) (now : ℕ) (api : SessionApi)
      → Answered (answered r) now api (read_answer parse_json display_status method r, api)
  read_answer-Answered method r now api =
      let unlimited = read_answer-Unlimited method r in
      elim (Result-cases (read_answer parse_json display_status method r)) [
        | inl (v, e) ↦ rw e (refl, r, refl, read_answer-IsSuccess method r v e)
        | inr (x, e) ↦ rw e (Unlimited-Answered (answered r) now api x (rw e at unlimited))
      ]

  -- A call ends well only with a success of Slack of at most 4 MiB, trailers left out, whose JSON says
  -- `ok`; it ends with a rate limit only on status 429, and exactly then the pause of all calls is set,
  -- to between a second and a day from now. Whatever else is answered, the pause stays as it was.
  pub end_call-Answered :
      (method : Text) (x : Exchange) (now : ℕ) (api : SessionApi)
      → Answered x now api (end_call parse_json display_status method x now api)
  unfolding end_call
  end_call-Answered method unanswered now api = refl
  end_call-Answered method unreachable now api = refl
  end_call-Answered method (answered r) now api =
      elim (Bool-cases (r.status == 401 || r.status == 403)) [
        | inl session ↦ rw (session, end_call) refl
        | inr other ↦ elim (Bool-cases (r.status == 429)) [
          | inl limited ↦
              let (low, high) = retry_after_bounds r.retry_header in
              rw (other, limited, end_call) (refl, low, high, r, refl, ground arith)
          | inr answer ↦ rw (other, answer, end_call) (read_answer-Answered method r now api)
        ]
      ]
