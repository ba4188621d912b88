-- ===== src/SocketMode/Backoff.antt =====
-- The reconnection delays of src/slackbot/socket_mode.rs, in milliseconds.
pub mod Paced
use sjmb_slack.Prelude.{
  ℕ, zero, suc, ◌+◌, ◌*◌, ◌≤◌, ◌<◌, ◌≡◌, min, max, Bool, true, false, List, [], ◌∷◌, Option, none,
  some, leb, if◌then◌else◌, arith, Bool-cases, inl, inr,
}
use sjmb_slack.Bot.Names.{unwrap_or}

-- The error that ended a session: a rate limit, with its delay if it gives one, or another.
pub data SessionError : Type 0 where
  rate_limit : Option ℕ → SessionError
  other_error : SessionError

-- `jitter` is the milliseconds part of the clock.
unfoldable pub reconnect_delay : ℕ → ℕ → SessionError → ℕ
reconnect_delay backoff jitter (rate_limit retry_after) =
    let delay = backoff * 1000 + jitter in max delay (unwrap_or retry_after delay)
reconnect_delay backoff jitter other_error = backoff * 1000 + jitter

-- A session that ended: how long all its workspaces had been connected, if they were, the error,
-- and the jitter.
pub record Ended : Type 0 where
  pub connected_ms : Option ℕ
  pub error : SessionError
  pub jitter : ℕ

-- The back-off that an ended session starts from: a minute of connection resets it.
abbrev pub reset_backoff : Option ℕ → ℕ → ℕ
reset_backoff none backoff = backoff
reset_backoff (some ms) backoff = if leb 60000 ms then 2 else backoff

-- The delays of the loop of `run_socket_sessions`, for the sessions that end one after another.
unfoldable pub delays : ℕ → List Ended → List ℕ
unfolding reconnect_delay
delays backoff [] = []
delays backoff (e ∷ es) =
    let now = reset_backoff e.connected_ms backoff in
    reconnect_delay now e.jitter e.error ∷ delays (min (now * 2) 30) es
