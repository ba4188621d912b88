-- ===== src/UserSession/Lookups.antt =====
-- `fetch_user` and `fetch_channel` of src/slackbot.rs: a lookup goes to the session's API if there is
-- one, and to the Slack client else, whose answer is an argument, and so are the decoders.
pub mod Paused
use sjmb_slack.Prelude.{ℕ, List, [], ◌∷◌, Option, none, some}
use sjmb_slack.Prelude.Text.{Text, codes}
use sjmb_slack.Prelude.Result.{Result, ok, err}
use sjmb_slack.Bot.Names.{User}
use sjmb_slack.Bot.Workspace.{Answer, response, failed}
use sjmb_slack.UserSession.Json.{Value, at_key}
use sjmb_slack.UserSession.Api.{CallError, Exchange, SessionApi, call}

-- A result of the session's API as the answer to a lookup. None of its errors is one of the Slack
-- client, so that none is a rate limit in the sense of `lookup_error`.
abbrev pub decoded : {A : Type 0} → (Value → Option A) → Text → Result CallError Value → Answer A
decoded decode key (err e) = failed
decoded decode key (ok v) = elim (decode (at_key key v)) [ none ↦ failed | some a ↦ response a ]

-- What the session's API does within a lookup: the readings of the clock and the exchange.
pub record Lookup : Type 0 where
  pub called_at : ℕ
  pub exchange : Exchange
  pub ended_at : ℕ

module _ (parse_json : List ℕ → Option Value) (display_status : ℕ → Text) where
  unfoldable pub session_lookup :
      {A : Type 0}
      → (Value → Option A)
      → Text
      → Text
      → List (Text × Text)
      → Lookup
      → SessionApi
      → Answer A × SessionApi
  session_lookup decode method key params x api =
      let out =
        call parse_json display_status method params x.called_at x.exchange x.ended_at api in
      (decoded decode key out.0, out.1)

  unfoldable pub fetch_user :
      (Value → Option User)
      → Answer User
      → Text
      → Lookup
      → Option SessionApi
      → Answer User × Option SessionApi
  unfolding session_lookup
  fetch_user decode client id x none = (client, none)
  fetch_user decode client id x (some api) =
      let out =
        session_lookup decode (codes "users.info") (codes "user") ((codes "user", id) ∷ []) x api in
      (out.0, some out.1)

  unfoldable pub fetch_channel :
      (Value → Option (Option Text))
      → Answer (Option Text)
      → Text
      → Lookup
      → Option SessionApi
      → Answer (Option Text) × Option SessionApi
  unfolding session_lookup
  fetch_channel decode client id x none = (client, none)
  fetch_channel decode client id x (some api) =
      let out =
        session_lookup decode (codes "conversations.info") (codes "channel")
          ((codes "channel", id) ∷ []) x api in
      (out.0, some out.1)
