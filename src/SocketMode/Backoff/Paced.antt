-- ===== src/SocketMode/Backoff/Paced.antt =====
-- How fast the program reconnects.
use sjmb_slack.Prelude.{ℕ, ◌*◌, ◌≤◌, ◌<◌, min, List, [], ◌∷◌, Option, none, some, arith}
use sjmb_slack.SocketMode.Backoff.{
  SessionError, rate_limit, other_error, reconnect_delay, Ended, reset_backoff, delays,
}

-- A delay of at least two seconds, not shorter than a rate limit asks, and below 31 seconds otherwise.
abbrev pub Paced : SessionError → ℕ → Type 0
Paced (rate_limit (some asked)) delay = (2000 ≤ delay) × (asked ≤ delay)
Paced (rate_limit none) delay = (2000 ≤ delay) × (delay < 31000)
Paced other_error delay = (2000 ≤ delay) × (delay < 31000)

abbrev pub AllPaced : List Ended → List ℕ → Type 0
AllPaced [] [] = Unit
AllPaced (e ∷ es) (d ∷ ds) = Paced e.error d × AllPaced es ds
AllPaced _ _ = ⊥

reset_between :
    (ms : Option ℕ) (b : ℕ) → 2 ≤ b → b ≤ 30 → (2 ≤ reset_backoff ms b) × (reset_backoff ms b ≤ 30)
reset_between none b h g = (h, g)
reset_between (some ms) b h g = ground arith

reconnect_delay-Paced :
    (b jitter : ℕ) (e : SessionError)
    → 2 ≤ b
    → b ≤ 30
    → jitter < 1000
    → Paced e (reconnect_delay b jitter e)
unfolding reconnect_delay
reconnect_delay-Paced b jitter (rate_limit (some asked)) h g j = (omega arith, omega arith)
reconnect_delay-Paced b jitter (rate_limit none) h g j = (omega arith, omega arith)
reconnect_delay-Paced b jitter other_error h g j = (omega arith, omega arith)

abbrev pub SmallJitter : List Ended → Type 0
SmallJitter [] = Unit
SmallJitter (e ∷ es) = (e.jitter < 1000) × SmallJitter es

-- However many sessions end one after another, and however long each was connected, every retry
-- waits for at least two seconds, for as long as a rate limit asks, and else for less than 31 seconds.
pub delays-Paced :
    (backoff : ℕ) (es : List Ended)
    → 2 ≤ backoff
    → backoff ≤ 30
    → SmallJitter es
    → AllPaced es (delays backoff es)
unfolding delays
delays-Paced backoff [] h g j = tt
delays-Paced backoff (e ∷ es) h g (j, js) =
    let (low, high) = reset_between e.connected_ms backoff h g in
    (
      reconnect_delay-Paced (reset_backoff e.connected_ms backoff) e.jitter e.error low high j,
      delays-Paced (min (reset_backoff e.connected_ms backoff * 2) 30) es (omega arith)
          (omega arith) js,
    )
