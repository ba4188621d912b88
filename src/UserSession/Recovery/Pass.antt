-- ===== src/UserSession/Recovery/Pass.antt =====
-- `Session::recover` of src/slackbot/user_session/recovery.rs: the passes over the channels that
-- recover. The channels of a pass are those at its start; what the world does is an argument.
pub mod Marks
pub mod Progressed
use sjmb_slack.Prelude.{
  ℕ, zero, suc, ◌≡◌, Bool, true, false, not, List, [], ◌∷◌, Option, none, some, if◌then◌else◌,
}
use sjmb_slack.Prelude.Int.{ℤ, pos, ◌-ℤ◌, max_ℤ}
use sjmb_slack.Prelude.Text.{Text}
use sjmb_slack.Prelude.Map.{Map}
use sjmb_slack.Prelude.Result.{Result, ok, err}
use sjmb_slack.State.{Channel, overlap}
use sjmb_slack.State.Store.{contains, recovery_channels, retry_channel, finish_recovery}
use sjmb_slack.Bot.Intake.{MessageEvent}
use sjmb_slack.UserSession.Json.{Value}
use sjmb_slack.UserSession.Events.{ApiError, rate_limited, other_api_error}
use sjmb_slack.UserSession.Api.{authentication_error}
use sjmb_slack.UserSession.Process.{Session}
use sjmb_slack.UserSession.Recovery.{RecoveryError, from_api, World, recover_channel}

pub data PassError : Type 0 where
  refused : RecoveryError → PassError
  save_failed : PassError

-- What the world does in a pass, by the place of the channel: the members, the recovery, the save.
pub record PassWorld : Type 0 where
  pub members : ℕ → List Text
  pub worlds : ℕ → World
  pub saved : ℕ → Bool

-- `error.downcast_ref::<ApiError>()`.
abbrev pub recovery_api : RecoveryError → ApiError
recovery_api (from_api e) = e
recovery_api _ = other_api_error

abbrev pub is_rate_limit : ApiError → Bool
is_rate_limit (rate_limited pause) = true
is_rate_limit _ = false

-- The lower bound of what is asked for: a little before the watermark, within the window.
unfoldable pub oldest_of : ℤ → ℤ → Channel → ℤ
oldest_of through window c = max_ℤ (max_ℤ (c.covered_until -ℤ overlap) (through -ℤ window)) (pos 0)

abbrev pub finish_one :
    Text → ℤ → Result RecoveryError (Unit {0}) × Session → Result RecoveryError (Unit {0}) × Session
finish_one id through (ok u, s) = (ok tt, record s { store = finish_recovery id through s.store })
finish_one id through (err e, s) = (err e, s)

module _ (in_range : ℕ → Bool) (decode : Value → Option MessageEvent) (workspace : ℕ)
    (dry_run : Bool) (max_pages : ℕ) (window through : ℤ) where
  -- One channel, up to the save.
  unfoldable pub recover_one :
      World → Text → Channel → Session → Result RecoveryError (Unit {0}) × Session
  recover_one w id c s = finish_one id through (
      recover_channel in_range decode workspace dry_run w max_pages id (oldest_of through window c)
        through (record s { store = retry_channel id s.store }))

  -- The loop over the channels.
  unfoldable pub recover_pass :
      PassWorld → ℕ → Map Channel → Session → Result PassError (Unit {0}) × Session
  unfolding recover_one
  recover_pass p n [] s = (ok tt, s)
  recover_pass p n ((id, c) ∷ rest) s = elim (contains (p.members n) id) [
    | false ↦ recover_pass p (suc n) rest s
    | true ↦
        let one = recover_one (p.worlds n) id c s in
        elim one.0 [
          | ok _ ↦ elim (p.saved n) [
            | true ↦ recover_pass p (suc n) rest one.1
            | false ↦ (err save_failed, one.1)
          ]
          | err e ↦ elim (authentication_error (recovery_api e)) [
            | true ↦ (err (refused e), one.1)
            | false ↦ elim (is_rate_limit (recovery_api e)) [
              | true ↦ (ok tt, one.1)
              | false ↦ recover_pass p (suc n) rest one.1
            ]
          ]
        ]
  ]

  -- The loop over the passes; its result is ok as long as it runs.
  unfoldable pub recover : List PassWorld → Session → Result PassError (Unit {0}) × Session
  unfolding recover_pass
  recover [] s = (ok tt, s)
  recover (p ∷ ps) s =
      let one = recover_pass p 0 (recovery_channels s.store) s in
      elim one.0 [ ok _ ↦ recover ps one.1 | err e ↦ (err e, one.1) ]
