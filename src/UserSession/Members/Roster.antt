-- ===== src/UserSession/Members/Roster.antt =====
-- What the members and the cached names may be, one channel at a time.
use sjmb_slack.Prelude.{
  ℕ, ◌≤◌, ◌≡◌, sym, ap, ◌∙◌, true, false, ◌&&◌, List, [], ◌∷◌, Option, none, some, length, All,
  arith, Bool-cases, inl, inr,
}
use sjmb_slack.Prelude.Text.{Text, codes, text_Eq}
use sjmb_slack.Limits.Cache.{ExpiringCache}
use sjmb_slack.Limits.Cache.Eviction.{IsValid, insert-IsValid}
use sjmb_slack.Limits.LogText.{log_text}
use sjmb_slack.State.{max_channels, valid_id}
use sjmb_slack.State.Store.{contains}
use sjmb_slack.Bot.Names.{or_else}
use sjmb_slack.Bot.Workspace.{channel_ttl}
use sjmb_slack.Bot.Workspace.Short.{ShortNames, ShortNames-insert, log_text-IsShort}
use sjmb_slack.UserSession.Json.{Value, at_key, as_str}
use sjmb_slack.UserSession.Events.{eligible_channel, eligible_id, channel_prefix}
use sjmb_slack.UserSession.Members.{cache_named, cache_channel, add_id, has_space}

-- No id twice.
abbrev pub NoRepeat : List Text → Type 0
NoRepeat [] = Unit
NoRepeat (x ∷ xs) = (contains xs x ≡ false) × NoRepeat xs

abbrev pub IsJoinable : Text → Type 0
IsJoinable id = (valid_id id && channel_prefix id) ≡ true

-- Members within their limit, and names within those of the cache and of the console.
pub record IsRoster (ids : List Text) (names : ExpiringCache Text Text) : Type 0 where
  pub few : length ids ≤ max_channels
  pub distinct : NoRepeat ids
  pub joinable : All IsJoinable ids
  pub cache : IsValid names
  pub short : ShortNames names.entries

-- Names that stay within their limits.
abbrev Names : ExpiringCache Text Text → Type 0
Names names = IsValid names × ShortNames names.entries

cache_named-Names :
    (id name : Option Text) (now : ℕ) (names : ExpiringCache Text Text)
    → Names names
    → Names (cache_named id name now names)
cache_named-Names none name now names h = h
cache_named-Names (some id) none now names h = h
cache_named-Names (some id) (some name) now names (valid, short) = (
  insert-IsValid names id (log_text name 256) now channel_ttl valid,
  ShortNames-insert names id (log_text name 256) now channel_ttl (log_text-IsShort name) short,
)

pub cache_channel-Names :
    (channel : Value) (now : ℕ) (names : ExpiringCache Text Text)
    → IsValid names × ShortNames names.entries
    → IsValid (cache_channel channel now names)
      × ShortNames (cache_channel channel now names).entries
unfolding cache_channel
cache_channel-Names channel now names h =
    cache_named-Names (as_str (at_key (codes "id") channel))
      (or_else (as_str (at_key (codes "name_normalized") channel))
        (as_str (at_key (codes "name") channel)))
      now names h

pub add_id-IsRoster :
    (id : Text) (ids : List Text) (names after : ExpiringCache Text Text)
    → IsJoinable id
    → has_space id ids ≡ true
    → IsValid after × ShortNames after.entries
    → IsRoster ids names
    → IsRoster (add_id id ids) after
add_id-IsRoster id ids names after good room (valid, short) r =
    elim (Bool-cases (contains ids id)) [
      | inl old ↦ rw old (record {
        few = r.few;
        distinct = r.distinct;
        joinable = r.joinable;
        cache = valid;
        short = short;
      })
      | inr new ↦ rw new (record {
        few = ground (arith, new);
        distinct = (new, r.distinct);
        joinable = (good, r.joinable);
        cache = valid;
        short = short;
      })
    ]

-- A channel that may be joined has an id that may be a member.
pub joinable :
    (channel : Value) (id : Text)
    → eligible_channel channel ≡ true
    → as_str (at_key (codes "id") channel) ≡ some id
    → IsJoinable id
unfolding eligible_channel
joinable channel id h e =
    let good : eligible_id (as_str (at_key (codes "id") channel)) ≡ true = ground (arith, h) in
    sym (ap eligible_id e) ∙ good
