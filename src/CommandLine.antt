-- ===== src/CommandLine.antt =====
-- src/config.rs: the options of the command line and what they let through of the log. The parser of
-- the options, the expansion of paths and the subscriber that prints the log are libraries.
pub mod Scoped
use sjmb_slack.Prelude.{ℕ, ◌≡◌, min, Bool, true, false, not, List, [], ◌∷◌, leb, if◌then◌else◌}
use sjmb_slack.Prelude.Text.{Text}
use sjmb_slack.Prelude.Result.{Result, ok, err}

-- `tracing::Level`, from the least verbose.
pub data Level : Type 0 where
  error_level warn_level info_level debug_level trace_level : Level

abbrev pub rank : Level → ℕ
rank error_level = 1
rank warn_level = 2
rank info_level = 3
rank debug_level = 4
rank trace_level = 5

-- `Level::min`.
abbrev pub least : Level → Level → Level
least a b = if leb (rank a) (rank b) then a else b

pub record OptsCommon : Type 0 where
  pub verbose : Bool
  pub debug : Bool
  pub trace : Bool
  pub bot_config : Text

-- `finalize`; the expansion of a path is an argument.
unfoldable pub finalize : {E : Type 0} → (Text → Result E Text) → OptsCommon → Result E OptsCommon
finalize expand opts = elim (expand opts.bot_config) [
  | err e ↦ err e
  | ok path ↦ ok (record opts { bot_config = path })
]

unfoldable pub get_loglevel : OptsCommon → Level
get_loglevel opts =
    if opts.trace
    then trace_level
    else if opts.debug
    then debug_level
    else if opts.verbose
    then info_level
    else error_level

-- `Targets`: the level of the program's own crate, and the default.
pub record Targets : Type 0 where
  pub default_level : Level
  pub own_level : Level

unfoldable pub log_filter : OptsCommon → Targets
unfolding get_loglevel
log_filter opts = record {
  default_level = least (get_loglevel opts) info_level;
  own_level = get_loglevel opts;
}

-- Whether a record of a level is shown, by whether it is of the program's own crate.
abbrev pub shown : Targets → Bool → Level → Bool
shown t true level = leb (rank level) (rank t.own_level)
shown t false level = leb (rank level) (rank t.default_level)
