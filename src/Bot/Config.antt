-- ===== src/Bot/Config.antt =====
-- `Bot::from_config` of src/slackbot.rs: the validation of the configuration. The JSON codec, the
-- parsers of headers, database URLs and regexes, and the expansion of paths are parameters.
pub mod Filters
pub mod Usable
use sjmb_slack.Prelude.{
  ℕ, ◌*◌, ◌≡◌, Bool, true, false, not, ◌&&◌, ◌||◌, List, [], ◌∷◌, ◌++◌, Option, none, some, leb,
  ◌==◌, any, length, if◌then◌else◌,
}
use sjmb_slack.Prelude.Text.{
  Text, codes, text_eq, len, is_empty, is_blank, is_control, is_whitespace, starts_with,
}
use sjmb_slack.Prelude.Result.{Result, ok, err, ◌>>=◌, ◌>>◌, ensure}
use sjmb_slack.Url.{UrlParsers}
use sjmb_slack.UrlFilter.Filter.{UrlFilter, RuleError, compile, include}

pub record WorkspaceConfig : Type 0 where
  pub name : Text
  pub url_blacklist : List Text
  pub api_token : Text
  pub socket_token : Text
  pub cookie : Text

pub data Backend : Type 0 where
  socket_mode user_session : Backend

pub record Config : Type 0 where
  pub backend : Backend
  pub window_seconds : ℕ
  pub max_pages_per_channel : ℕ
  pub state_dir : Text
  pub url_regex : Text
  pub url_log_db : Text
  pub url_blacklist : List Text
  pub workspaces : List WorkspaceConfig

-- `CONFIG_BYTES`.
abbrev pub config_bytes : ℕ
config_bytes = 1024 * 1024

-- What the validation asks of other code. `captures_len` counts the whole match as a group.
pub record Checks : Type 0 where
  pub parse_json : List ℕ → Option Config
  pub compiled_in : Backend → Bool
  pub expand : Text → Option Text
  pub valid_header : Text → Bool
  pub valid_db : Text → Bool
  pub captures_len : Text → Option ℕ

pub data ConfigError : Type 0 where
  too_large invalid_json no_workspace backend_not_compiled bad_window bad_pages bad_state_dir :
      ConfigError
  bad_name duplicate_name empty_token empty_socket_token duplicate_socket_token : ConfigError
  bad_session_token bad_cookie unused_socket_token : ConfigError
  bad_rule : Option Text → ℕ → RuleError → ConfigError
  bad_db bad_regex no_capture_group : ConfigError

abbrev pub member : List Text → Text → Bool
member ts t = any (λ x. text_eq x t) ts

-- `trim`, `split(';')` and `strip_prefix("d=")` as the cookie is read.
abbrev pub trim_start : Text → Text
trim_start [] = []
trim_start (c ∷ cs) = if is_whitespace c then trim_start cs else c ∷ cs

-- A part of the cookie that is `d=` with a value, which is more than white space at its end.
abbrev pub is_d_value : Text → Bool
is_d_value part = let t = trim_start part in starts_with (codes "d=") t && not (is_blank_from t)
  where
    is_blank_from : Text → Bool
    is_blank_from (d ∷ eq ∷ rest) = is_blank rest
    is_blank_from _ = true

abbrev pub first_part : ℕ → List Text → List Text
first_part c [] = (c ∷ []) ∷ []
first_part c (p ∷ ps) = (c ∷ p) ∷ ps

abbrev pub parts : Text → List Text
parts [] = [] ∷ []
parts (c ∷ cs) = if c == b';' then [] ∷ parts cs else first_part c (parts cs)

abbrev pub has_session_cookie : Text → Bool
has_session_cookie cookie = any is_d_value (parts cookie)

-- `context`, which turns a missing value into an error.
abbrev pub or_error : {A : Type 0} → Option A → ConfigError → Result ConfigError A
or_error none e = err e
or_error (some a) e = ok a

-- The names and socket tokens of the workspaces so far.
pub record Used : Type 0 where
  pub names : List Text
  pub sockets : List Text

module _ (k : Checks) where
  unfoldable pub check_backend : Backend → WorkspaceConfig → Used → Result ConfigError Used
  check_backend socket_mode w u = do
    ensure (not (is_blank w.socket_token)) empty_socket_token
    ensure (not (member u.sockets w.socket_token)) duplicate_socket_token
    ok (record u { sockets = w.socket_token ∷ u.sockets })
  check_backend user_session w u = do
    ensure (starts_with (codes "xoxc-") w.api_token && leb (len w.api_token) 8192) bad_session_token
    ensure (k.valid_header (codes "Bearer " ++ w.api_token)) bad_session_token
    ensure (leb (len w.cookie) 16384) bad_cookie
    ensure (k.valid_header w.cookie) bad_cookie
    ensure (not (is_empty w.cookie) && has_session_cookie w.cookie) bad_cookie
    ensure (is_empty w.socket_token) unused_socket_token
    ok u

  unfoldable pub valid_workspace_name : Text → Bool
  valid_workspace_name name = not (is_blank name) && leb (len name) 256 && not (any is_control name)

  unfoldable pub check_workspace : Backend → WorkspaceConfig → Used → Result ConfigError Used
  unfolding check_backend valid_workspace_name
  check_workspace backend w u = do
    ensure (valid_workspace_name w.name) bad_name
    ensure (not (member u.names w.name)) duplicate_name
    ensure (not (is_blank w.api_token)) empty_token
    check_backend backend w (record u { names = w.name ∷ u.names })

  unfoldable pub check_workspaces : Backend → List WorkspaceConfig → Used → Result ConfigError Used
  check_workspaces backend [] u = ok u
  check_workspaces backend (w ∷ ws) u = do
    v ← check_workspace backend w u
    check_workspaces backend ws v

  -- The checks of the recovery settings, with the state directory expanded.
  unfoldable pub check_recovery : Backend → Config → Result ConfigError Config
  check_recovery socket_mode c = ok c
  check_recovery user_session c = do
    ensure (leb 1 c.window_seconds && leb c.window_seconds 604800) bad_window
    ensure (leb 1 c.max_pages_per_channel && leb c.max_pages_per_channel 1000) bad_pages
    dir ← or_error (k.expand c.state_dir) bad_state_dir
    ensure (not (is_blank dir)) bad_state_dir
    ok (record c { state_dir = dir })

  module _ (p : UrlParsers) where
    -- `UrlFilter::compile` with the scope of its error: a workspace, or the global list.
    abbrev pub compile_scope : Option Text → List Text → Result ConfigError UrlFilter
    compile_scope scope rules = elim (compile p rules) [
      | ok f ↦ ok f
      | err (entry, e) ↦ err (bad_rule scope entry e)
    ]

    -- The filters of the workspaces, each with the global rules.
    unfoldable pub compile_workspaces :
        UrlFilter → List WorkspaceConfig → Result ConfigError (List UrlFilter)
    compile_workspaces global [] = ok []
    compile_workspaces global (w ∷ ws) = do
      f ← compile_scope (some w.name) w.url_blacklist
      fs ← compile_workspaces global ws
      ok (include f global ∷ fs)

    -- The checks of the workspaces and of the rest, and the filters of the workspaces.
    unfoldable pub accept_config : Config → Result ConfigError (Config × List UrlFilter)
    unfolding check_workspaces compile_workspaces
    accept_config config = do
      used ← check_workspaces config.backend config.workspaces (record { names = []; sockets = [] })
      global ← compile_scope none config.url_blacklist
      filters ← compile_workspaces global config.workspaces
      ensure (k.valid_db config.url_log_db) bad_db
      groups ← or_error (k.captures_len config.url_regex) bad_regex
      ensure (leb 2 groups) no_capture_group
      ok (config, filters)

    unfoldable pub from_config : List ℕ → Result ConfigError (Config × List UrlFilter)
    unfolding check_recovery accept_config
    from_config bytes = do
      ensure (leb (length bytes) config_bytes) too_large
      parsed ← or_error (k.parse_json bytes) invalid_json
      ensure (leb 1 (length parsed.workspaces)) no_workspace
      ensure (k.compiled_in parsed.backend) backend_not_compiled
      config ← check_recovery parsed.backend parsed
      accept_config config
