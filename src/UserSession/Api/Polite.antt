-- ===== src/UserSession/Api/Polite.antt =====
-- Which requests go to Slack, and when, however the calls interleave.
use sjmb_slack.Prelude.{
  ℕ, ◌+◌, ◌-◌, ◌≤◌, ◌≡◌, ◌⊎◌, refl, sym, ap, ◌∙◌, true, List, [], ◌∷◌, ◌++◌, Option, ltb, ◌==◌, All,
  arith, append_assoc, append-nil, subst, if◌then◌else◌, Bool-cases, inl, inr,
}
use sjmb_slack.Prelude.Text.{Text}
use sjmb_slack.UserSession.Json.{Value}
use sjmb_slack.UserSession.Api.{
  SessionApi, Request, Exchange, unanswered, unreachable, answered, retry_after, is_allowed,
  start_call, end_call,
}

-- The steps of all calls, in the order in which they happen.
pub data ApiStep : Type 0 where
  starts : (method : Text) (params : List (Text × Text)) (at : ℕ) → ApiStep
  ends : (method : Text) (exchange : Exchange) (at : ℕ) → ApiStep

-- The pause that the latest rate limit among the answers asks for.
abbrev pub asked_pause : ApiStep → ℕ → ℕ
asked_pause (ends method (answered r) at) pause =
    if r.status == 429 then at + retry_after r.retry_header else pause
asked_pause _ pause = pause

abbrev pub latest_pause : List ApiStep → ℕ → ℕ
latest_pause [] pause = pause
latest_pause (c ∷ cs) pause = latest_pause cs (asked_pause c pause)

-- A request that some call sent: to a method of the list, no earlier than the pause that was in force.
pub record Justified (steps : List ApiStep) (pause : ℕ) (q : Request) : Type 0 where
  pub before : List ApiStep
  pub after : List ApiStep
  pub split : steps ≡ before ++ starts q.method q.params q.sent_at ∷ after
  pub waited : latest_pause before pause ≤ q.sent_at
  pub allowed : is_allowed q.method ≡ true

abbrev pub idle : ℕ → SessionApi
idle pause = record { pause = pause; sent = [] }

module _ (parse_json : List ℕ → Option Value) (display_status : ℕ → Text) where
  abbrev pub step_api : ApiStep → SessionApi → SessionApi
  step_api (starts method params at) api = (start_call method params at api).1
  step_api (ends method exchange at) api =
      (end_call parse_json display_status method exchange at api).1

  abbrev pub run_api : List ApiStep → SessionApi → SessionApi
  run_api [] api = api
  run_api (c ∷ cs) api = run_api cs (step_api c api)

  end-pause :
      (method : Text) (x : Exchange) (at : ℕ) (api : SessionApi)
      → (step_api (ends method x at) api).pause ≡ asked_pause (ends method x at) api.pause
  unfolding end_call
  end-pause method unanswered at api = refl
  end-pause method unreachable at api = refl
  end-pause method (answered r) at api = ground arith

  end-sent :
      (method : Text) (x : Exchange) (at : ℕ) (api : SessionApi)
      → (step_api (ends method x at) api).sent ≡ api.sent
  unfolding end_call
  end-sent method unanswered at api = refl
  end-sent method unreachable at api = refl
  end-sent method (answered r) at api = ground arith

  -- A start sends its request, or does nothing.
  start_cases :
      (method : Text) (params : List (Text × Text)) (at : ℕ) (api : SessionApi)
      → (step_api (starts method params at) api ≡ api)
        ⊎ ((is_allowed method ≡ true)
            × (api.pause ≤ at)
            × (step_api (starts method params at) api ≡ record api {
              sent = api.sent ++ record { method = method; params = params; sent_at = at } ∷ [];
            }))
  unfolding start_call
  start_cases method params at api = elim (Bool-cases (is_allowed method)) [
    | inr bad ↦ inl (ground (arith, bad))
    | inl good ↦ elim (Bool-cases (ltb 0 (api.pause - at))) [
      | inl early ↦ inl (ground (arith, good, early))
      | inr due ↦ inr (good, ground arith, ground (arith, good, due))
    ]
  ]

  -- The requests that some steps add.
  record Added (steps : List ApiStep) (api after : SessionApi) : Type 0 where
    new : List Request
    sent : after.sent ≡ api.sent ++ new
    justified : All (Justified steps api.pause) new

  later :
      (c : ApiStep) (cs : List ApiStep) (p : ℕ) (new : List Request)
      → All (Justified cs (asked_pause c p)) new
      → All (Justified (c ∷ cs) p) new
  later c cs p [] a = tt
  later c cs p (q ∷ qs) (j, js) = (
    record {
      before = c ∷ j.before;
      after = j.after;
      split = ap (◌∷◌ c) j.split;
      waited = j.waited;
      allowed = j.allowed;
    },
    later c cs p qs js,
  )

  run_api-Added : (cs : List ApiStep) (api : SessionApi) → Added cs api (run_api cs api)
  run_api-Added [] api = record { new = []; sent = sym (append-nil api.sent); justified = tt }
  run_api-Added (ends method x at ∷ cs) api =
      let rest = run_api-Added cs (step_api (ends method x at) api) in
      record {
        new = rest.new;
        sent = rest.sent ∙ ap (λ s. s ++ rest.new) (end-sent method x at api);
        justified =
            later (ends method x at) cs api.pause rest.new (
              subst (λ p. All (Justified cs p) rest.new) (end-pause method x at api)
                rest.justified);
      }
  run_api-Added (starts method params at ∷ cs) api = elim (start_cases method params at api) [
    | inl same ↦
        let rest = run_api-Added cs api in
        record {
          new = rest.new;
          sent = ap (λ a. (run_api cs a).sent) same ∙ rest.sent;
          justified = later (starts method params at) cs api.pause rest.new rest.justified;
        }
    | inr (allowed, due, sends) ↦
        let q : Request = record { method = method; params = params; sent_at = at } in
        let next : SessionApi = record api { sent = api.sent ++ q ∷ [] } in
        let rest = run_api-Added cs next in
        record {
          new = q ∷ rest.new;
          sent =
              ap (λ a. (run_api cs a).sent) sends
              ∙ rest.sent
              ∙ append_assoc api.sent (q ∷ []) rest.new;
          justified = (
            record { before = []; after = cs; split = refl; waited = due; allowed = allowed },
            later (starts method params at) cs api.pause rest.new rest.justified,
          );
        }
  ]

  -- Whatever the calls, the answers and their interleaving, every request that is sent is one of the
  -- read-only methods of the list, started by a call, at an instant no earlier than the end of the
  -- pause that the latest rate limit answered before it has asked for.
  pub run_api-Justified :
      (cs : List ApiStep) (pause : ℕ) → All (Justified cs pause) (run_api cs (idle pause)).sent
  run_api-Justified cs pause =
      let added = run_api-Added cs (idle pause) in
      subst (All (Justified cs pause)) (sym added.sent) added.justified
