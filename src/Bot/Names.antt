-- ===== src/Bot/Names.antt =====
-- The names of senders in src/slackbot.rs.
use sjmb_slack.Prelude.{List, [], ◌∷◌, ◌++◌, Option, none, some, if◌then◌else◌}
use sjmb_slack.Prelude.Text.{Text, codes, is_blank}
use sjmb_slack.Limits.LogText.{log_text}

-- `Option::or_else`.
abbrev pub or_else : {A : Type 0} → Option A → Option A → Option A
or_else none y = y
or_else (some x) y = some x

abbrev pub and_then : {A B : Type 0} → Option A → (A → Option B) → Option B
and_then none f = none
and_then (some x) f = f x

abbrev pub unwrap_or : {A : Type 0} → Option A → A → A
unwrap_or none y = y
unwrap_or (some x) y = x

-- `non_empty`.
abbrev pub non_empty : Text → Option Text
non_empty t = if is_blank t then none else some t

pub record UserProfile : Type 0 where
  pub display_name : Option Text
  pub display_name_normalized : Option Text
  pub real_name : Option Text
  pub real_name_normalized : Option Text

pub record User : Type 0 where
  pub profile : Option UserProfile
  pub real_name : Option Text
  pub name : Option Text

-- `flatten` and `find_map(non_empty)`.
abbrev pub first_named : List (Option Text) → Option Text
first_named [] = none
first_named (none ∷ os) = first_named os
first_named (some t ∷ os) = or_else (non_empty t) (first_named os)

abbrev pub user_profile_nick : UserProfile → Option Text
user_profile_nick p =
    first_named
      (p.display_name ∷ p.display_name_normalized ∷ p.real_name ∷ p.real_name_normalized ∷ [])

abbrev pub user_nick : User → Option Text
user_nick u =
    or_else (and_then u.profile user_profile_nick)
      (or_else (and_then u.real_name non_empty) (and_then u.name non_empty))

abbrev pub user_fallback : Text → Text
user_fallback id = log_text (codes "<@" ++ (id ++ codes ">")) 256

-- What Slack says of the sender of a message.
pub record MessageSender : Type 0 where
  pub username : Option Text
  pub user_profile : Option UserProfile
  pub user : Option Text
  pub bot_id : Option Text

pub record SenderInfo : Type 0 where
  pub user : Option Text
  pub bot : Option Text
  pub hint : Option Text

-- A name for the console and the database.
abbrev pub bounded_name : Text → Option Text
bounded_name t = some (log_text t 256)

-- `SenderInfo::from`.
unfoldable pub sender_info : MessageSender → SenderInfo
sender_info s = record {
  user = s.user;
  bot = and_then s.bot_id bounded_name;
  hint =
      and_then (or_else (and_then s.username non_empty) (and_then s.user_profile user_profile_nick))
        bounded_name;
}
