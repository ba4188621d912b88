-- ===== src/Bot/Intake.antt =====
-- `prepare_message` and `should_process_message` of src/slackbot.rs: which message events are queued.
pub mod Accepted
use sjmb_slack.Prelude.{
  ℕ, ◌+◌, ◌*◌, ◌≡◌, Bool, true, false, not, ◌&&◌, ◌||◌, List, [], ◌∷◌, Option, none, some, ltb, leb,
  if◌then◌else◌,
}
use sjmb_slack.Prelude.Text.{Text, len, is_empty}
use sjmb_slack.Prelude.Result.{Result, ok, err}
use sjmb_slack.Limits.Counters.{Counters, Counter, oversized_messages, invalid, bump}
use sjmb_slack.Harvest.Timestamp.{message_timestamp}
use sjmb_slack.Bot.Names.{MessageSender, SenderInfo, sender_info, and_then, unwrap_or}
use sjmb_slack.Bot.Workspace.{seconds}

-- `SlackMessageEventType`: the subtypes that are harvested, and the others.
pub data Subtype : Type 0 where
  bot_message me_message file_share thread_broadcast other : Subtype

pub record MessageEvent : Type 0 where
  pub hidden : Option Bool
  pub subtype : Option Subtype
  -- `content` with its `text`, both optional.
  pub content : Option (Option Text)
  pub channel : Option Text
  pub ts : Text
  pub sender : MessageSender

abbrev pub harvested : Option Subtype → Bool
harvested none = true
harvested (some bot_message) = true
harvested (some me_message) = true
harvested (some file_share) = true
harvested (some thread_broadcast) = true
harvested (some other) = false

unfoldable pub should_process_message : MessageEvent → Bool
should_process_message m = not (unwrap_or m.hidden false) && harvested m.subtype

abbrev pub message_bytes : ℕ
message_bytes = 64 * 1024

abbrev pub queue_age : ℕ
queue_age = seconds 180

-- `workspace` is the number of the workspace, `completion` that of the receipt which is awaited.
pub record QueuedMessage : Type 0 where
  pub workspace : ℕ
  pub expires_at : ℕ
  pub ts : ℕ
  pub channel : Text
  pub text : Text
  pub sender : SenderInfo
  pub completion : Option ℕ
  pub dry_run : Bool

-- A user id that is too long.
abbrev pub long_user : Option Text → Bool
long_user none = false
long_user (some id) = ltb 256 (len id)

module _ (in_range : ℕ → Bool) where
  -- What follows once the text and the channel are there.
  unfoldable pub prepare_text :
      ℕ → MessageEvent → ℕ → Counters → Text → Text → Option QueuedMessage × Counters
  prepare_text workspace m now counters text channel =
      if ltb message_bytes (len text)
      then (none, bump oversized_messages counters)
      else if ltb 256 (len channel) || is_empty channel || long_user m.sender.user
      then (none, bump invalid counters)
      else elim (message_timestamp in_range m.ts) [
        | err _ ↦ (none, bump invalid counters)
        | ok ts ↦ (
          some (record {
            workspace = workspace;
            expires_at = now + queue_age;
            ts = ts;
            channel = channel;
            text = text;
            sender = sender_info m.sender;
            completion = none;
            dry_run = false;
          }),
          counters,
        )
      ]

  unfoldable pub prepare_message : ℕ → MessageEvent → ℕ → Counters → Option QueuedMessage × Counters
  unfolding prepare_text
  prepare_message workspace m now counters = elim (and_then m.content (λ text. text)) [
    | none ↦ (none, counters)
    | some text ↦ elim m.channel [
      | none ↦ (none, counters)
      | some channel ↦ prepare_text workspace m now counters text channel
    ]
  ]
