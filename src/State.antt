-- ===== src/State.antt =====
-- src/slackbot/user_session/state.rs: the progress of a user session, with its bounds, its pruning
-- and its operations. Times are i64 seconds, read as integers; the mutex makes each operation one
-- step. The range of chrono's dates is a parameter, as in `Harvest.Timestamp`.
pub mod Prune
pub mod Store
use sjmb_slack.Prelude.{
  ℕ, ◌+◌, ◌*◌, ◌≤◌, ◌<◌, ◌≡◌, Bool, true, false, not, ◌&&◌, List, [], ◌∷◌, arith, leb, all, length,
}
use sjmb_slack.Prelude.Int.{ℤ, pos}
use sjmb_slack.Prelude.Text.{Text, len, is_alphanumeric, is_empty}
use sjmb_slack.Prelude.Map.{Map}
use sjmb_slack.Prelude.Result.{is_ok}
use sjmb_slack.Harvest.Timestamp.{message_timestamp}

abbrev pub state_version : ℕ
state_version = 1

abbrev pub max_state_bytes : ℕ
max_state_bytes = 16 * 1024 * 1024

abbrev pub max_channels : ℕ
max_channels = 4096

abbrev pub max_threads : ℕ
max_threads = 4096

abbrev pub max_seen : ℕ
max_seen = 32768

abbrev pub overlap : ℤ
overlap = pos 120

pub record Channel : Type 0 where
  pub covered_until : ℤ
  pub threads : Map ℤ
  pub recovering : Bool
  pub failed : Bool

pub record Seen : Type 0 where
  pub channel : Text
  pub ts : Text
  pub processed_at : ℤ

pub record Snapshot : Type 0 where
  pub version : ℕ
  pub team : Text
  pub user : Text
  pub channels : Map Channel
  pub seen : List Seen

unfoldable pub valid_id : Text → Bool
valid_id id = not (is_empty id) && leb (len id) 64 && all is_alphanumeric id

unfoldable pub valid_ts : (ℕ → Bool) → Text → Bool
valid_ts in_range ts = leb (len ts) 32 && is_ok (message_timestamp in_range ts)
