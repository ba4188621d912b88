-- ===== src/Bot/Intake/Accepted.antt =====
-- Which messages are queued, and what the counters say of the others.
use sjmb_slack.Prelude.{
  ℕ, ◌+◌, ◌≤◌, ◌<◌, ◌≡◌, refl, ◌⊎◌, inl, inr, Bool, false, ◌||◌, Option, none, some, ltb, arith,
  true, [], ◌∷◌, ltb→lt, subst, Bool-cases, Option-cases,
}
use sjmb_slack.Prelude.Text.{Text, len, is_empty}
use sjmb_slack.Prelude.Result.{ok, is_ok}
use sjmb_slack.Limits.Counters.{Counters, oversized_messages, invalid, bump}
use sjmb_slack.Harvest.Timestamp.{message_timestamp}
use sjmb_slack.Prelude.Result.{Result-cases}
use sjmb_slack.Bot.Names.{sender_info, and_then}
use sjmb_slack.Bot.Workspace.Bounded.{ShortSender, sender_info-ShortSender}
use sjmb_slack.Bot.Workspace.Short.{IsShort, IsShortOption}
use sjmb_slack.Bot.Intake.{
  MessageEvent, QueuedMessage, message_bytes, queue_age, long_user, prepare_text, prepare_message,
}

-- A message as the queue has it: of bounded size, with a channel, short names and the event's second.
pub record IsQueueable (in_range : ℕ → Bool) (m : MessageEvent) (now : ℕ) (q : QueuedMessage)
    : Type 0 where
  pub text : m.content ≡ some (some q.text)
  pub channel : m.channel ≡ some q.channel
  pub second : message_timestamp in_range m.ts ≡ ok q.ts
  pub small : len q.text ≤ message_bytes
  pub named : is_empty q.channel ≡ false
  pub short_channel : IsShort q.channel
  pub short_user : IsShortOption q.sender.user
  pub short_sender : ShortSender q.sender
  pub expires : q.expires_at ≡ now + queue_age

module _ (in_range : ℕ → Bool) (workspace : ℕ) (m : MessageEvent) (now : ℕ)
    (counters : Counters) where
  -- What makes a message of a channel invalid.
  abbrev pub IsInvalid : Text → Type 0
  IsInvalid channel =
      (256 < len channel)
      ⊎ (channel ≡ [])
      ⊎ (long_user m.sender.user ≡ true)
      ⊎ (is_ok (message_timestamp in_range m.ts) ≡ false)

  -- How the preparation of a message ends.
  abbrev pub Prepared : Option QueuedMessage × Counters → Type 0
  Prepared (some q, c) = IsQueueable in_range m now q × (c ≡ counters)
  Prepared (none, c) =
      ((c ≡ counters) × ((and_then m.content (λ text. text) ≡ none) ⊎ (m.channel ≡ none)))
      ⊎ ((text : Text) × (channel : Text) × (m.content ≡ some (some text))
          × (m.channel ≡ some channel)
          × (((c ≡ bump oversized_messages counters) × (message_bytes < len text))
              ⊎ ((c ≡ bump invalid counters) × (len text ≤ message_bytes) × IsInvalid channel)))

  odd_channel :
      (channel : Text)
      → (ltb 256 (len channel) || is_empty channel || long_user m.sender.user) ≡ true
      → IsInvalid channel
  odd_channel [] h = inr (inl refl)
  odd_channel (c ∷ cs) h = elim (Bool-cases (ltb 256 (len (c ∷ cs)))) [
    | inl long ↦ inl (ltb→lt 256 (len (c ∷ cs)) long)
    | inr short ↦ inr (inr (inl (ground (arith, h, short))))
  ]

  short_user_of : (user : Option Text) → long_user user ≡ false → IsShortOption user
  short_user_of none h = tt
  short_user_of (some id) h = ground arith

  content_of :
      (text : Text) → and_then m.content (λ t. t) ≡ some text → m.content ≡ some (some text)
  content_of text h = ground arith

  prepare_text-Prepared :
      (text channel : Text)
      → m.content ≡ some (some text)
      → m.channel ≡ some channel
      → Prepared (prepare_text in_range workspace m now counters text channel)
  unfolding prepare_text sender_info
  prepare_text-Prepared text channel has_text has_channel =
      elim (Bool-cases (ltb message_bytes (len text))) [
        | inl large ↦
            rw large (inr (text, channel, has_text, has_channel, inl (refl, ltb→lt _ _ large)))
        | inr small ↦
            elim (Bool-cases
              (ltb 256 (len channel) || is_empty channel || long_user m.sender.user)) [
                | inl odd ↦
                    rw (small, odd)
                      (inr (
                        text,
                        channel,
                        has_text,
                        has_channel,
                        inr (refl, ground arith, odd_channel channel odd),
                      ))
                | inr fine ↦ elim (Result-cases (message_timestamp in_range m.ts)) [
                  | inr (e, bad) ↦
                      rw (small, fine, bad)
                        (inr (
                          text,
                          channel,
                          has_text,
                          has_channel,
                          inr (refl, ground arith, inr (inr (inr (rw bad refl)))),
                        ))
                  | inl (ts, good) ↦
                      rw (small, fine, good)
                        (
                          record {
                            text = has_text;
                            channel = has_channel;
                            second = good;
                            small = ground arith;
                            named = ground arith;
                            short_channel = ground arith;
                            short_user = short_user_of m.sender.user (ground arith);
                            short_sender = sender_info-ShortSender m.sender;
                            expires = refl;
                          },
                          refl,
                        )
                ]
              ]
      ]

-- A message is queued only with text and a channel and within the limits: at most 64 KiB of text, a
-- channel of 1 to 256 bytes, a user of at most 256, a valid timestamp; it expires after 180 seconds, and
-- no counter changes. Any other message with text and a channel is refused: exactly the counter of
-- oversized messages goes up, for a longer text, or else that of invalid ones, for a channel, user or
-- timestamp beyond these limits. Without text or channel a message is ignored, uncounted.
pub prepare_message-Prepared :
    (in_range : ℕ → Bool) (workspace : ℕ) (m : MessageEvent) (now : ℕ) (counters : Counters)
    → Prepared in_range workspace m now counters (prepare_message in_range workspace m now counters)
unfolding prepare_message
prepare_message-Prepared in_range workspace m now counters =
    let result = prepare_message in_range workspace m now counters in
    let prepared = Prepared in_range workspace m now counters in
    elim (Option-cases (and_then m.content (λ t. t))) [
      | inl no_text ↦
          let e : (none, counters) ≡ result = ground arith in
          subst prepared e (inl (refl, inl no_text))
      | inr (text, has_text) ↦ elim (Option-cases m.channel) [
        | inl no_channel ↦
            let e : (none, counters) ≡ result = ground arith in
            subst prepared e (inl (refl, inr no_channel))
        | inr (channel, has_channel) ↦
            let e : prepare_text in_range workspace m now counters text channel ≡ result =
              ground arith in
            subst prepared e (
              prepare_text-Prepared in_range workspace m now counters text channel
                (content_of in_range workspace m now counters text has_text) has_channel)
      ]
    ]
