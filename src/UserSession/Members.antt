-- ===== src/UserSession/Members.antt =====
-- `discover_channels` and `cache_channel` of src/slackbot/user_session.rs: which channels the session
-- is a member of. A hash set is a list without repeats. What Slack answers to a page, and the readings
-- of the clock, are arguments.
pub mod Roster
pub mod Discovered
use sjmb_slack.Prelude.{
  ℕ, zero, suc, ◌≡◌, Bool, true, false, not, ◌&&◌, ◌||◌, List, [], ◌∷◌, Option, none, some, ltb,
  length, if◌then◌else◌,
}
use sjmb_slack.Prelude.Text.{Text, codes, is_empty, text_Eq}
use sjmb_slack.Prelude.Result.{Result, ok, err}
use sjmb_slack.Limits.Cache.{ExpiringCache, insert}
use sjmb_slack.Limits.LogText.{log_text}
use sjmb_slack.State.{max_channels}
use sjmb_slack.State.Store.{contains}
use sjmb_slack.Bot.Names.{or_else}
use sjmb_slack.Bot.Workspace.{channel_ttl}
use sjmb_slack.UserSession.Json.{
  Value, null, text, array, object, Items, no_items, item, at_key, as_str,
}
use sjmb_slack.UserSession.Events.{ApiError, CursorError, eligible_channel, next_cursor}

pub data DiscoveryError : Type 0 where
  from_api : ApiError → DiscoveryError
  from_cursor : CursorError → DiscoveryError
  missing_list missing_id too_many_joined cursor_again : DiscoveryError

-- The answer to a page, by its number and cursor, and the clock at each channel in turn.
pub record Directory : Type 0 where
  pub fetch : ℕ → Text → Result ApiError Value
  pub clock : ℕ → ℕ

-- The ids found so far, the cached names, and how many channels were looked at.
pub record Found : Type 0 where
  pub ids : List Text
  pub names : ExpiringCache Text Text
  pub looked : ℕ

abbrev pub cache_named :
    Option Text → Option Text → ℕ → ExpiringCache Text Text → ExpiringCache Text Text
cache_named (some id) (some name) now names = insert names id (log_text name 256) now channel_ttl
cache_named _ _ now names = names

unfoldable pub cache_channel : Value → ℕ → ExpiringCache Text Text → ExpiringCache Text Text
cache_channel channel now names =
    cache_named (as_str (at_key (codes "id") channel))
      (or_else (as_str (at_key (codes "name_normalized") channel))
        (as_str (at_key (codes "name") channel)))
      now names

-- `HashSet::insert`.
abbrev pub add_id : Text → List Text → List Text
add_id id ids = if contains ids id then ids else id ∷ ids

abbrev pub has_space : Text → List Text → Bool
has_space id ids = ltb (length ids) max_channels || contains ids id

module _ (d : Directory) where
  unfoldable pub join : Option Text → Value → Found → Result DiscoveryError (Unit {0}) × Found
  join none channel f = (err missing_id, f)
  join (some id) channel f =
      if has_space id f.ids
      then (
        ok tt,
        record {
          ids = add_id id f.ids;
          names = cache_channel channel (d.clock f.looked) f.names;
          looked = suc f.looked;
        },
      )
      else (err too_many_joined, f)

  -- The loop over the channels of a page.
  unfoldable pub join_all : Items → Found → Result DiscoveryError (Unit {0}) × Found
  unfolding join
  join_all no_items f = (ok tt, f)
  join_all (item channel rest) f =
      let one =
        if eligible_channel channel
        then join (as_str (at_key (codes "id") channel)) channel f
        else (ok tt, f) in
      elim one.0 [ err e ↦ (err e, one.1) | ok _ ↦ join_all rest one.1 ]

  unfoldable pub join_response : Value → Found → Result DiscoveryError (Unit {0}) × Found
  join_response (array channels) f = join_all channels f
  join_response _ f = (err missing_list, f)

  -- The loop over the pages, of at most `fuel` pages; none if they are not enough.
  unfoldable pub discover_from :
      ℕ → ℕ → List Text → Text → Found → Option (Result DiscoveryError (Unit {0}) × Found)
  unfolding join_response
  discover_from zero page cursors cursor f = none
  discover_from (suc fuel) page cursors cursor f = elim (d.fetch page cursor) [
    | err e ↦ some (err (from_api e), f)
    | ok response ↦
        let done = join_response (at_key (codes "channels") response) f in
        elim done.0 [
          | err e ↦ some (err e, done.1)
          | ok _ ↦ elim (next_cursor response) [
            | err e ↦ some (err (from_cursor e), done.1)
            | ok next ↦ elim (is_empty next) [
              | true ↦ some (ok tt, done.1)
              | false ↦ elim (ltb (length cursors) 100 && not (contains cursors next)) [
                | true ↦ discover_from fuel (suc page) (next ∷ cursors) next done.1
                | false ↦ some (err cursor_again, done.1)
              ]
            ]
          ]
        ]
  ]

-- One hundred cursors follow the first page at most.
abbrev pub page_fuel : ℕ
page_fuel = 101

-- The members of the session and the channel names of its workspace.
pub record Members : Type 0 where
  pub members : List Text
  pub names : ExpiringCache Text Text

-- The members are replaced at the end only.
abbrev pub replace_members :
    Members → Result DiscoveryError (Unit {0}) × Found → Result DiscoveryError (Unit {0}) × Members
replace_members m (ok _, f) = (ok tt, record { members = f.ids; names = f.names })
replace_members m (err e, f) = (err e, record m { names = f.names })

abbrev pub discover_end :
    Members
    → Option (Result DiscoveryError (Unit {0}) × Found)
    → Option (Result DiscoveryError (Unit {0}) × Members)
discover_end m none = none
discover_end m (some out) = some (replace_members m out)

unfoldable pub discover_channels :
    Directory → Members → Option (Result DiscoveryError (Unit {0}) × Members)
unfolding discover_from
discover_channels d m =
    discover_end m
      (discover_from d page_fuel 0 [] [] (record { ids = []; names = m.names; looked = 0 }))
