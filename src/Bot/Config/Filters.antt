-- ===== src/Bot/Config/Filters.antt =====
-- The filters of the workspaces of a configuration.
use sjmb_slack.Prelude.{◌≡◌, subst, List, [], ◌∷◌, Option, some, All, arith, inl, inr, ◌||◌}
use sjmb_slack.Prelude.Text.{Text}
use sjmb_slack.Prelude.Result.{ok, bind-ok, Result-cases}
use sjmb_slack.Url.{UrlParsers}
use sjmb_slack.UrlFilter.Address.{IpAddr}
use sjmb_slack.UrlFilter.Names.{contains}
use sjmb_slack.UrlFilter.Filter.{UrlFilter, contains_ip, include, compile}
use sjmb_slack.UrlFilter.Filter.Rules.{contains-include, contains_ip-include}
use sjmb_slack.UrlFilter.Filter.Compiled.{Grows, Covers, Covers-mono, compile-Covers}
use sjmb_slack.Bot.Config.{Checks, WorkspaceConfig, compile_scope, compile_workspaces}

-- A filter that has exactly what two others have.
pub record IsUnion (a b f : UrlFilter) : Type 0 where
  pub domain : (d : Text) → contains f.domains d ≡ (contains b.domains d || contains a.domains d)
  pub address :
      (ip : IpAddr)
      → contains_ip f.addresses ip ≡ (contains_ip b.addresses ip || contains_ip a.addresses ip)

include-IsUnion : (a b : UrlFilter) → IsUnion a b (include a b)
include-IsUnion a b = record { domain = contains-include a b; address = contains_ip-include a b }

Grows-left : (a b f : UrlFilter) → IsUnion a b f → Grows a f
Grows-left a b f u = record {
  domain = λ d h. ground (arith, u.domain d, h);
  address = λ ip h. ground (arith, u.address ip, h);
}

Grows-right : (a b f : UrlFilter) → IsUnion a b f → Grows b f
Grows-right a b f u = record {
  domain = λ d h. ground (arith, u.domain d, h);
  address = λ ip h. ground (arith, u.address ip, h);
}

module _ (p : UrlParsers) where
  All-mono :
      (rules : List Text) (f g : UrlFilter)
      → Grows f g
      → All (Covers p f) rules
      → All (Covers p g) rules
  All-mono [] f g grows a = tt
  All-mono (rule ∷ rules) f g grows (now, later) =
      (Covers-mono p rule f g grows now, All-mono rules f g grows later)

  -- The filter of a workspace: it has what its own list names and what the global list names.
  pub record IsFilterOf (global : UrlFilter) (rules : List Text) (w : WorkspaceConfig)
      (f : UrlFilter) : Type 0 where
    pub own : UrlFilter
    pub compiled : compile p w.url_blacklist ≡ ok own
    pub union : IsUnion own global f
    pub own_rules : All (Covers p f) w.url_blacklist
    pub global_rules : All (Covers p f) rules

  -- A filter for each workspace, in their order.
  abbrev pub AllFiltered : UrlFilter → List Text → List WorkspaceConfig → List UrlFilter → Type 0
  AllFiltered global rules [] [] = Unit
  AllFiltered global rules (w ∷ ws) (f ∷ fs) =
      IsFilterOf global rules w f × AllFiltered global rules ws fs
  AllFiltered global rules _ _ = ⊥

  module _ (k : Checks) where
    pub scope_compiled :
        (scope : Option Text) (rules : List Text) (f : UrlFilter)
        → compile_scope k p scope rules ≡ ok f
        → compile p rules ≡ ok f
    scope_compiled scope rules f h = elim (Result-cases (compile p rules)) [
      | inr (x, e) ↦ absurd (ground arith)
      | inl (g, e) ↦ ground arith
    ]

    include-IsFilterOf :
        (global own : UrlFilter) (rules : List Text) (w : WorkspaceConfig)
        → compile p rules ≡ ok global
        → compile p w.url_blacklist ≡ ok own
        → IsFilterOf global rules w (include own global)
    include-IsFilterOf global own rules w g o =
        let union = include-IsUnion own global in
        record {
          own = own;
          compiled = o;
          union = union;
          own_rules =
              All-mono w.url_blacklist own (include own global)
                (Grows-left own global (include own global) union)
                (compile-Covers p w.url_blacklist own o);
          global_rules =
              All-mono rules global (include own global)
                (Grows-right own global (include own global) union)
                (compile-Covers p rules global g);
        }

    pub workspaces-AllFiltered :
        (global : UrlFilter) (rules : List Text) (ws : List WorkspaceConfig) (fs : List UrlFilter)
        → compile p rules ≡ ok global
        → compile_workspaces k p global ws ≡ ok fs
        → AllFiltered global rules ws fs
    unfolding compile_workspaces
    workspaces-AllFiltered global rules [] fs g h =
        let same : [] ≡ fs = ground (arith, h) in subst (AllFiltered global rules []) same tt
    workspaces-AllFiltered global rules (w ∷ ws) fs g h =
        let (f, one, h1) = bind-ok (compile_scope k p (some w.name) w.url_blacklist) _ fs h in
        let (gs, rest, h2) = bind-ok (compile_workspaces k p global ws) _ fs h1 in
        let same : include f global ∷ gs ≡ fs = ground (arith, h2) in
        subst (AllFiltered global rules (w ∷ ws)) same (
          include-IsFilterOf global f rules w g
              (scope_compiled (some w.name) w.url_blacklist f one),
          workspaces-AllFiltered global rules ws gs g rest,
        )
