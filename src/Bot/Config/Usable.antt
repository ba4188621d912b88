-- ===== src/Bot/Config/Usable.antt =====
-- What a configuration that passes is like.
use sjmb_slack.Prelude.{
  ℕ, ◌≤◌, ◌≡◌, sym, ap, ◌∙◌, true, false, not, ◌&&◌, List, [], ◌∷◌, none, leb, leb→le, any, All,
  arith, subst, length, inl, inr,
}
use sjmb_slack.Prelude.Text.{Text, len, is_blank, is_control}
use sjmb_slack.Prelude.Result.{ok, ◌>>=◌, ◌>>◌, ensure}
use sjmb_slack.Prelude.Result.{Result-cases, bind-ok, ensure-ok}
use sjmb_slack.Url.{UrlParsers}
use sjmb_slack.UrlFilter.Filter.{UrlFilter, compile}
use sjmb_slack.Bot.Config.Filters.{AllFiltered, scope_compiled, workspaces-AllFiltered}
use sjmb_slack.Bot.Config.{
  Config, config_bytes, bad_window, bad_pages, bad_state_dir, too_large, invalid_json, no_workspace,
  backend_not_compiled, bad_db, bad_regex, no_capture_group, or_error, check_recovery,
  compile_scope, compile_workspaces, accept_config, from_config, WorkspaceConfig, Backend,
  socket_mode, user_session, Checks, member, Used, check_backend, valid_workspace_name,
  check_workspace, check_workspaces,
}

-- A workspace with a name for the console and the database, and a token.
pub record IsUsable (w : WorkspaceConfig) : Type 0 where
  pub named : is_blank w.name ≡ false
  pub short : len w.name ≤ 256
  pub plain : any is_control w.name ≡ false
  pub token : is_blank w.api_token ≡ false

-- No name twice, nor one of those before.
abbrev pub AllNew : List Text → List WorkspaceConfig → Type 0
AllNew names [] = Unit
AllNew names (w ∷ ws) = (member names w.name ≡ false) × AllNew (w.name ∷ names) ws

module _ (k : Checks) where
  backend-names :
      (b : Backend) (w : WorkspaceConfig) (u v : Used)
      → check_backend k b w u ≡ ok v
      → v.names ≡ u.names
  unfolding check_backend
  backend-names socket_mode w u v h = ground arith
  backend-names user_session w u v h = ground arith

  workspace-IsUsable :
      (b : Backend) (w : WorkspaceConfig) (u v : Used)
      → check_workspace k b w u ≡ ok v
      → IsUsable w × (member u.names w.name ≡ false) × (v.names ≡ w.name ∷ u.names)
  unfolding check_workspace valid_workspace_name
  workspace-IsUsable b w u v h =
      let names_of = backend-names b w (record u { names = w.name ∷ u.names }) v in
      (
        record {
          named = ground arith;
          short = ground arith;
          plain = ground arith;
          token = ground arith;
        },
        ground arith,
        names_of (ground arith),
      )

  workspaces-IsUsable :
      (b : Backend) (ws : List WorkspaceConfig) (u v : Used)
      → check_workspaces k b ws u ≡ ok v
      → All IsUsable ws × AllNew u.names ws
  unfolding check_workspaces
  workspaces-IsUsable b [] u v h = (tt, tt)
  workspaces-IsUsable b (w ∷ ws) u v h = elim (Result-cases (check_workspace k b w u)) [
    | inr (e, bad) ↦ absurd (ground arith)
    | inl (x, good) ↦
        let (usable, new, names) = workspace-IsUsable b w u x good in
        let (rest, news) = workspaces-IsUsable b ws x v (ground arith) in
        ((usable, rest), (new, subst (λ ns. AllNew ns ws) names news))
  ]

recovery-workspaces :
    (k : Checks) (b : Backend) (c d : Config)
    → check_recovery k b c ≡ ok d
    → d.workspaces ≡ c.workspaces
unfolding check_recovery
recovery-workspaces k socket_mode c d h = ground arith
recovery-workspaces k user_session c d h =
    let (u0, window, h0) =
      bind-ok (ensure (leb 1 c.window_seconds && leb c.window_seconds 604800) bad_window) _ d h in
    let (u1, pages, h1) =
      bind-ok (ensure (leb 1 c.max_pages_per_channel && leb c.max_pages_per_channel 1000) bad_pages)
        _ d h0 in
    let (dir, expanded, h2) = bind-ok (or_error (k.expand c.state_dir) bad_state_dir) _ d h1 in
    let (u3, filled, h3) = bind-ok (ensure (not (is_blank dir)) bad_state_dir) _ d h2 in
    ground (arith, h3)

-- The result of a configuration's last step.
abbrev pub Accepted : UrlParsers → Config × List UrlFilter → Type 0
Accepted p r =
    All IsUsable r.0.workspaces
    × AllNew [] r.0.workspaces
    × ((global : UrlFilter) × (compile p r.0.url_blacklist ≡ ok global)
        × AllFiltered p global r.0.url_blacklist r.0.workspaces r.1)

-- The checks after the filters change nothing.
filters-last :
    (k : Checks) (config : Config) (fs : List UrlFilter) (r : Config × List UrlFilter)
    → (do
      ensure (k.valid_db config.url_log_db) bad_db
      groups ← or_error (k.captures_len config.url_regex) bad_regex
      ensure (leb 2 groups) no_capture_group
      ok (config, fs))
      ≡ ok r
    → (config, fs) ≡ r
filters-last k config fs r h =
    let (u, db, h0) = bind-ok (ensure (k.valid_db config.url_log_db) bad_db) _ r h in
    let (groups, regex, h1) =
      bind-ok (or_error (k.captures_len config.url_regex) bad_regex) _ r h0 in
    let (v, two, h2) = bind-ok (ensure (leb 2 groups) no_capture_group) _ r h1 in ground (arith, h2)

accept_config-Accepted :
    (k : Checks) (p : UrlParsers) (config : Config) (r : Config × List UrlFilter)
    → accept_config k p config ≡ ok r
    → Accepted p r × (r.0 ≡ config)
unfolding accept_config
accept_config-Accepted k p config r h =
    let none_used : Used = record { names = []; sockets = [] } in
    let (used, checked, h0) =
      bind-ok (check_workspaces k config.backend config.workspaces none_used) _ r h in
    let (global, compiled, h1) = bind-ok (compile_scope k p none config.url_blacklist) _ r h0 in
    let (fs, each, h2) = bind-ok (compile_workspaces k p global config.workspaces) _ r h1 in
    let same = filters-last k config fs r h2 in
    let (usable, new) =
      workspaces-IsUsable k config.backend config.workspaces none_used used checked in
    (
      subst (Accepted p) same (
        usable,
        new,
        (
          global,
          scope_compiled p k none config.url_blacklist global compiled,
          workspaces-AllFiltered p k global config.url_blacklist config.workspaces fs
              (scope_compiled p k none config.url_blacklist global compiled) each,
        ),
      ),
      ap (λ x. x.0) (sym same),
    )

-- A configuration that is accepted has at least one workspace; each has a token and a name of at most
-- 256 bytes without control characters, no two have the same name, and each has its own filter, in the
-- order of the workspaces: it has exactly what its own list and the global list compile to, so every
-- rule of both is covered.
pub from_config-Accepted :
    (k : Checks) (p : UrlParsers) (bytes : List ℕ) (r : Config × List UrlFilter)
    → from_config k p bytes ≡ ok r
    → Accepted p r × (1 ≤ length r.0.workspaces)
unfolding from_config
from_config-Accepted k p bytes r h =
    let (u0, small, h0) = bind-ok (ensure (leb (length bytes) config_bytes) too_large) _ r h in
    let (parsed, json, h1) = bind-ok (or_error (k.parse_json bytes) invalid_json) _ r h0 in
    let (u2, some_workspace, h2) =
      bind-ok (ensure (leb 1 (length parsed.workspaces)) no_workspace) _ r h1 in
    let (u3, there, h3) =
      bind-ok (ensure (k.compiled_in parsed.backend) backend_not_compiled) _ r h2 in
    let (config, recovery, h4) = bind-ok (check_recovery k parsed.backend parsed) _ r h3 in
    let (accepted, same) = accept_config-Accepted k p config r h4 in
    let kept : length r.0.workspaces ≡ length parsed.workspaces =
      ap (λ c. length c.workspaces) same
      ∙ ap length (recovery-workspaces k parsed.backend parsed config recovery) in
    let one : leb 1 (length parsed.workspaces) ≡ true =
      ensure-ok (leb 1 (length parsed.workspaces)) no_workspace u2 some_workspace in
    (accepted, subst (λ n. 1 ≤ n) (sym kept) (leb→le 1 (length parsed.workspaces) one))
