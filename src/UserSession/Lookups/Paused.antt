-- ===== src/UserSession/Lookups/Paused.antt =====
-- Lookups of names while Slack asks for a pause.
use sjmb_slack.Prelude.{
  ℕ, ◌-◌, ◌<◌, ◌≡◌, refl, ap, ◌∙◌, true, List, Option, none, some, ltb, arith, Bool-cases,
  Option-cases, inl, inr,
}
use sjmb_slack.Prelude.Text.{Text, text_Eq}
use sjmb_slack.Limits.Cache.{get}
use sjmb_slack.Bot.Names.{User, SenderInfo, user_fallback}
use sjmb_slack.Bot.Workspace.{
  Workspace, Answer, failed, Times, sender_nick, cached_nick, look_up, lookup_allowed,
}
use sjmb_slack.UserSession.Json.{Value}
use sjmb_slack.UserSession.Api.{SessionApi, is_allowed, start_call, call}
use sjmb_slack.UserSession.Lookups.{Lookup, session_lookup, fetch_user}

module _ (parse_json : List ℕ → Option Value) (display_status : ℕ → Text) where
  paused-same :
      (decode : Value → Option User) (client : Answer User) (id : Text) (x : Lookup)
      (api : SessionApi)
      → x.called_at < api.pause
      → fetch_user parse_json display_status decode client id x (some api) ≡ (failed, some api)
  unfolding fetch_user session_lookup call start_call is_allowed
  paused-same decode client id x api early =
      let waits : ltb 0 (api.pause - x.called_at) ≡ true = ground arith in ground (arith, waits)

  failed_nick :
      (id : Text) (sender : SenderInfo) (t : Times) (w : Workspace)
      → sender.user ≡ some id
      → sender.hint ≡ none
      → (sender_nick sender failed t w).0
        ≡ elim (get w.users id t.read_at).0 [ none ↦ user_fallback id | some nick ↦ nick ]
  unfolding sender_nick cached_nick look_up
  failed_nick id sender t w user hint = elim (Option-cases (get w.users id t.read_at).0) [
    | inr (nick, e) ↦ rw (user, hint, e, sender_nick, cached_nick) refl
    | inl e ↦ elim (Bool-cases (lookup_allowed w.user_retry_at t.allowed_at)) [
      | inl allowed ↦ rw (user, hint, e, allowed, sender_nick, cached_nick, look_up) refl
      | inr limited ↦ rw (user, hint, e, limited, sender_nick, cached_nick, look_up) refl
    ]
  ]

  -- In a pause that Slack asked for, a sender without a name of its own costs no request: the session's
  -- client stays as it is, and the sender gets a cached nick or the fallback.
  pub sender_nick-paused :
      (decode : Value → Option User) (client : Answer User) (id : Text) (x : Lookup)
      (api : SessionApi) (sender : SenderInfo) (t : Times) (w : Workspace)
      → x.called_at < api.pause
      → sender.user ≡ some id
      → sender.hint ≡ none
      → ((fetch_user parse_json display_status decode client id x (some api)).1 ≡ some api)
        × ((sender_nick sender
              (fetch_user parse_json display_status decode client id x (some api)).0
              t
              w).0
            ≡ elim (get w.users id t.read_at).0 [ none ↦ user_fallback id | some nick ↦ nick ])
  sender_nick-paused decode client id x api sender t w early user hint =
      let e = paused-same decode client id x api early in
      (
        ap (λ r. r.1) e,
        ap (λ r. (sender_nick sender r.0 t w).0) e ∙ failed_nick id sender t w user hint,
      )
