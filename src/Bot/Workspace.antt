-- ===== src/Bot/Workspace.antt =====
-- `Workspace` of src/slackbot.rs: the names of users and channels, cached, and looked up at Slack
-- unless a rate limit forbids it. What Slack answers and what the clock reads are arguments.
pub mod Short
pub mod Bounded
pub mod Cached
use sjmb_slack.Prelude.{
  ℕ, ◌+◌, ◌-◌, ◌*◌, ◌^◌, ◌≡◌, Bool, true, false, List, [], ◌∷◌, ◌++◌, Option, none, some, leb,
  if◌then◌else◌, Eq,
}
use sjmb_slack.Prelude.Text.{Text, codes, text_Eq}
use sjmb_slack.Limits.Cache.{ExpiringCache, get, insert}
use sjmb_slack.Limits.LogText.{log_text}
use sjmb_slack.UrlFilter.Filter.{UrlFilter}
use sjmb_slack.Bot.Names.{
  or_else, and_then, unwrap_or, non_empty, User, user_nick, user_fallback, SenderInfo, bounded_name,
}

-- Durations in nanoseconds.
abbrev pub seconds : ℕ → ℕ
seconds n = n * 10 ^ 9

abbrev pub user_ttl : ℕ
user_ttl = seconds 3600

abbrev pub channel_ttl : ℕ
channel_ttl = seconds 600

abbrev pub negative_ttl : ℕ
negative_ttl = seconds 30

-- What the model uses of `Workspace`; the client, the token and the health stand elsewhere.
pub record Workspace : Type 0 where
  pub name : Text
  pub url_filter : UrlFilter
  pub team_id : Text
  pub app_id : Text
  pub users : ExpiringCache Text Text
  pub channels : ExpiringCache Text Text
  pub user_retry_at : Option ℕ
  pub channel_retry_at : Option ℕ

-- A lookup within `LOOKUP_TIMEOUT`: its response, a rate limit with its delay if it gives one, any
-- other error, or none of these in time.
pub data Answer (A : Type 0) : Type 0 where
  response : A → Answer A
  rate_limited : Option ℕ → Answer A
  failed timed_out : Answer A

-- The readings of the clock on the way through a lookup.
pub record Times : Type 0 where
  pub read_at : ℕ
  pub allowed_at : ℕ
  pub answered_at : ℕ
  pub write_at : ℕ

-- `Instant::checked_add`: an instant is 63 bits of seconds and nanoseconds.
abbrev pub checked_add : ℕ → ℕ → Option ℕ
checked_add at delay = if leb (at + delay) (2 ^ 63 * 10 ^ 9 - 1) then some (at + delay) else none

abbrev pub lookup_allowed : Option ℕ → ℕ → Bool
lookup_allowed none now = true
lookup_allowed (some at) now = leb at now

-- `lookup_error`: a rate limit sets the instant before which nothing is looked up.
unfoldable pub lookup_error : {A : Type 0} → Answer A → ℕ → Option ℕ → Option ℕ
lookup_error (rate_limited delay) now retry_at = checked_add now (unwrap_or delay negative_ttl)
lookup_error _ now retry_at = retry_at

-- The name in a response.
abbrev pub answer_name : {A : Type 0} → (A → Option Text) → Answer A → Option Text
answer_name f (response a) = and_then (f a) bounded_name
answer_name f _ = none

-- The shared part of both lookups: the name, if one is looked up and found, and the retry instant.
unfoldable pub look_up :
    {A : Type 0} → (A → Option Text) → Answer A → Times → Option ℕ → Option Text × Option ℕ
unfolding lookup_error
look_up f answer t retry_at =
    if lookup_allowed retry_at t.allowed_at
    then (answer_name f answer, lookup_error answer t.answered_at retry_at)
    else (none, retry_at)

-- How long a name is kept: a fallback for a shorter time.
abbrev pub ttl_of : Option Text → ℕ → ℕ
ttl_of none ttl = negative_ttl
ttl_of (some name) ttl = ttl

abbrev pub store_user : Text → Option Text × Option ℕ → Times → Workspace → Text × Workspace
store_user id (nick, retry_at) t w =
    let name = unwrap_or nick (user_fallback id) in
    (
      name,
      record w {
        users = insert w.users id name t.write_at (ttl_of nick user_ttl);
        user_retry_at = retry_at;
      },
    )

-- The lookup of a user whose name the message does not give.
unfoldable pub cached_nick : Text → Answer User → Times → Workspace → Text × Workspace
unfolding look_up
cached_nick id answer t w =
    let read = get w.users id t.read_at in
    elim read.0 [
      | some nick ↦ (nick, record w { users = read.1 })
      | none ↦
          store_user id (look_up user_nick answer t w.user_retry_at) t (record w { users = read.1 })
    ]

unfoldable pub sender_nick : SenderInfo → Answer User → Times → Workspace → Text × Workspace
unfolding cached_nick
sender_nick sender answer t w = elim sender.user [
  | none ↦ (unwrap_or (or_else sender.hint sender.bot) (codes "N/A"), w)
  | some id ↦ elim sender.hint [
    | some hint ↦ (hint, record w { users = insert w.users id hint t.read_at user_ttl })
    | none ↦ cached_nick id answer t w
  ]
]

-- `{workspace}-{name}`.
abbrev pub label : Workspace → Text → Text
label w name = w.name ++ (codes "-" ++ name)

abbrev pub store_channel : Text → Option Text × Option ℕ → Times → Workspace → Text × Workspace
store_channel id (found, retry_at) t w =
    let name = unwrap_or found id in
    (
      label w name,
      record w {
        channels = insert w.channels id name t.write_at (ttl_of found channel_ttl);
        channel_retry_at = retry_at;
      },
    )

-- A response to `conversations.info` is its `name_normalized`.
unfoldable pub channel_name : Text → Answer (Option Text) → Times → Workspace → Text × Workspace
unfolding look_up
channel_name id answer t w =
    let read = get w.channels id t.read_at in
    elim read.0 [
      | some name ↦ (label w name, record w { channels = read.1 })
      | none ↦
          store_channel id (look_up (λ o. and_then o non_empty) answer t w.channel_retry_at) t
            (record w { channels = read.1 })
    ]
