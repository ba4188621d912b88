-- ===== src/SocketMode/Handlers/Checked.antt =====
-- What the callbacks let through, and what they make of a failure.
use sjmb_slack.Prelude.{
  ℕ, ◌≤◌, ◌≡◌, refl, sym, ap, ◌∙◌, inl, inr, Bool, true, false, not, ◌||◌, List, [], ◌∷◌, Option,
  none, some, ltb, any, if◌then◌else◌, arith, Bool-cases, Option-cases,
}
use sjmb_slack.Prelude.Text.{Text, text_eq, len, is_empty}
use sjmb_slack.Limits.Counters.{Counters}
use sjmb_slack.Bot.Names.{or_else}
use sjmb_slack.Bot.Intake.{MessageEvent, QueuedMessage, should_process_message, prepare_message}
use sjmb_slack.Bot.Intake.Accepted.{IsQueueable, Prepared, prepare_message-Prepared}
use sjmb_slack.SocketMode.Health.{Health, Failure, different_installation, fail}
use sjmb_slack.SocketMode.Ingress.{Sent}
use sjmb_slack.SocketMode.Handlers.{
  BotState, handle_hello, ListenerError, protocol_error, retry_event, other_error, api_error,
  authentication_codes, handler_error, PushEvent, ignored, push_prepared, push_body,
  handler_push_events,
}

-- The callbacks of a listener.
pub data Callback : Type 0 where
  hello : Text → Callback
  reports : ListenerError → Callback
  pushes : PushEvent → ℕ → ℕ → Sent → Callback

fail-first : (f g : Failure) (h : Health) → h.failure ≡ some f → (fail g h).failure ≡ some f
unfolding fail
fail-first f g h first = ap (λ o. or_else o (some g)) first

module _ (in_range : ℕ → Bool) where
  abbrev pub call : Callback → BotState → BotState
  call (hello app_id) s = handle_hello app_id s
  call (reports e) s = (handler_error e s).1
  call (pushes e now enqueued_at sent) s =
      (handler_push_events in_range e now enqueued_at sent s).state

  abbrev pub calls : List Callback → BotState → BotState
  calls [] s = s
  calls (c ∷ cs) s = calls cs (call c s)

  prepared-health :
      (e : PushEvent) (t : ℕ) (sent : Sent) (s : BotState) (r : Option QueuedMessage × Counters)
      → (push_prepared e t sent s r).state.health ≡ s.health
  unfolding push_prepared
  prepared-health e t sent s (none, c) = refl
  prepared-health e t sent s (some q, c) =
      elim (Bool-cases (ltb 256 (len e.event_id) || is_empty e.event_id)) [
        | inl odd ↦ rw (odd, push_prepared) refl
        | inr fine ↦ rw (fine, push_prepared) refl
      ]

  body-health :
      (e : PushEvent) (now t : ℕ) (sent : Sent) (s : BotState) (body : Option MessageEvent)
      → (push_body in_range e now t sent s body).state.health ≡ s.health
  body-health e now t sent s none = refl
  body-health e now t sent s (some m) = elim (Bool-cases (should_process_message m)) [
    | inl pass ↦ rw pass (prepared-health e t sent s _)
    | inr skip ↦ rw skip refl
  ]

  -- Whether an event is for another installation.
  abbrev pub foreign : PushEvent → BotState → Bool
  foreign e s = not (text_eq e.team_id s.team_id) || not (text_eq e.api_app_id s.app_id)

  module _ (e : PushEvent) (now t : ℕ) (sent : Sent) (s : BotState) where
    push-own :
        foreign e s ≡ false
        → handler_push_events in_range e now t sent s ≡ push_body in_range e now t sent s e.body
    unfolding handler_push_events
    push-own own =
        ap
          (λ b.
            if b
            then ignored (record s { health = fail different_installation s.health })
            else push_body in_range e now t sent s e.body)
          own

    push-foreign :
        foreign e s ≡ true
        → handler_push_events in_range e now t sent s
          ≡ ignored (record s { health = fail different_installation s.health })
    unfolding handler_push_events
    push-foreign other =
        ap
          (λ b.
            if b
            then ignored (record s { health = fail different_installation s.health })
            else push_body in_range e now t sent s e.body)
          other

    push-first :
        (f : Failure)
        → s.health.failure ≡ some f
        → (handler_push_events in_range e now t sent s).state.health.failure ≡ some f
    push-first f first = elim (Bool-cases (foreign e s)) [
      | inl other ↦
          ap (λ r. r.state.health.failure) (push-foreign other) ∙ fail-first f _ s.health first
      | inr own ↦
          ap (λ r. r.state.health.failure) (push-own own)
          ∙ ap (λ h. h.failure) (body-health e now t sent s e.body)
          ∙ first
    ]

  call-first :
      (c : Callback) (s : BotState) (f : Failure)
      → s.health.failure ≡ some f
      → (call c s).health.failure ≡ some f
  unfolding handle_hello handler_error handler_push_events
  call-first (hello app_id) s f first = elim (Bool-cases (text_eq app_id s.app_id)) [
    | inl same ↦ rw (same, handle_hello) first
    | inr other ↦ rw (other, handle_hello) (fail-first f _ s.health first)
  ]
  call-first (reports (api_error code)) s f first =
      elim (Bool-cases (any (λ c. text_eq c code) authentication_codes)) [
        | inl auth ↦ rw (auth, handler_error) (fail-first f _ s.health first)
        | inr other ↦ rw (other, handler_error) first
      ]
  call-first (reports protocol_error) s f first = first
  call-first (reports retry_event) s f first = first
  call-first (reports other_error) s f first = first
  call-first (pushes e now t sent) s f first = push-first e now t sent s f first

  -- The failure that ends a session is the first one: once set, no sequence of callbacks changes it.
  pub calls-first :
      (cs : List Callback) (s : BotState) (f : Failure)
      → s.health.failure ≡ some f
      → (calls cs s).health.failure ≡ some f
  calls-first [] s f first = first
  calls-first (c ∷ cs) s f first = calls-first cs (call c s) f (call-first c s f first)

  -- A message in the queue, as an event of this installation gave it.
  pub record IsFrom (e : PushEvent) (now : ℕ) (s : BotState) (q : QueuedMessage) : Type 0 where
    pub own : foreign e s ≡ false
    pub message : MessageEvent
    pub body : e.body ≡ some message
    pub supported : should_process_message message ≡ true
    pub identified : is_empty e.event_id ≡ false
    pub short_id : len e.event_id ≤ 256
    pub prepared : QueuedMessage
    pub queueable : IsQueueable in_range message now prepared
    pub marked : q ≡ record prepared { dry_run = s.dry_run }

  in_queue-some : (b : Bool) (q p : QueuedMessage) → (if b then some q else none) ≡ some p → q ≡ p
  in_queue-some b q p h = ground arith

  prepared-marked :
      (e : PushEvent) (t : ℕ) (sent : Sent) (s : BotState) (q p : QueuedMessage) (c : Counters)
      → (push_prepared e t sent s (some q, c)).queue ≡ some p
      → (is_empty e.event_id ≡ false)
        × (len e.event_id ≤ 256)
        × (p ≡ record q { dry_run = s.dry_run })
  unfolding push_prepared
  prepared-marked e t sent s q p c h =
      elim (Bool-cases (ltb 256 (len e.event_id) || is_empty e.event_id)) [
        | inl odd ↦ absurd (ground arith)
        | inr fine ↦ (ground arith, ground arith, ground arith)
      ]

  body-IsFrom :
      (e : PushEvent) (now t : ℕ) (sent : Sent) (s : BotState) (q : QueuedMessage)
      (m : MessageEvent)
      → foreign e s ≡ false
      → e.body ≡ some m
      → should_process_message m ≡ true
      → (r : Option QueuedMessage × Counters)
      → Prepared in_range s.workspace m now s.ingress.counters r
      → (push_prepared e t sent s r).queue ≡ some q
      → IsFrom e now s q
  unfolding push_prepared
  body-IsFrom e now t sent s q m own body supported (none, c) p h = absurd (ground arith)
  body-IsFrom e now t sent s q m own body supported (some prepared, c) (queueable, same) h =
      let (identified, short_id, marked) = prepared-marked e t sent s prepared q c h in
      record {
        own = own;
        message = m;
        body = body;
        supported = supported;
        identified = identified;
        short_id = short_id;
        prepared = prepared;
        queueable = queueable;
        marked = marked;
      }

  -- Nothing reaches the queue but a supported message of this installation's team and app, with an
  -- event id of 1 to 256 bytes, within the limits of `prepare_message`, and marked as the
  -- configuration says for dry runs.
  pub handler_push_events-IsFrom :
      (e : PushEvent) (now t : ℕ) (sent : Sent) (s : BotState) (q : QueuedMessage)
      → (handler_push_events in_range e now t sent s).queue ≡ some q
      → IsFrom e now s q
  handler_push_events-IsFrom e now t sent s q h = elim (Bool-cases (foreign e s)) [
    | inl other ↦ absurd (ground (arith, push-foreign e now t sent s other))
    | inr own ↦
        let queue = ap (λ r. r.queue) (sym (push-own e now t sent s own)) ∙ h in
        elim (Option-cases e.body) [
          | inl bare ↦ absurd (ground arith)
          | inr (m, body) ↦
              let in_body =
                ap (λ b. (push_body in_range e now t sent s b).queue) (sym body) ∙ queue in
              elim (Bool-cases (should_process_message m)) [
                | inr skip ↦ absurd (ground arith)
                | inl supported ↦
                    body-IsFrom e now t sent s q m own body supported
                      (prepare_message in_range s.workspace m now s.ingress.counters)
                      (prepare_message-Prepared in_range s.workspace m now s.ingress.counters)
                      (ground arith)
              ]
        ]
  ]
