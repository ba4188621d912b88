-- ===== src/SocketMode/Health.antt =====
-- `Health` of src/slackbot/socket_mode.rs: whether the workspace is connected, and its first failure.
pub mod Waits
use sjmb_slack.Prelude.{Bool, false, Option, none, some}
use sjmb_slack.Prelude.Text.{Text}
use sjmb_slack.Prelude.Result.{Result, ok, err}
use sjmb_slack.Bot.Names.{or_else}

-- Why a session fails.
pub data Failure : Type 0 where
  different_app different_installation : Failure
  authentication_failed : Text → Failure

pub record Health : Type 0 where
  pub ready : Bool
  pub failure : Option Failure

abbrev pub default_health : Health
default_health = record { ready = false; failure = none }

-- `fail`: the first failure stays.
unfoldable pub fail : Failure → Health → Health
fail f h = record h { failure = or_else h.failure (some f) }

unfoldable pub check_health : Health → Result Failure (Unit {0})
check_health h = elim h.failure [ none ↦ ok tt | some f ↦ err f ]
