-- ===== src/UserSession/Connection/Persists.antt =====
-- The session goes on, at a bounded pace.
use sjmb_slack.Prelude.{ℕ, ◌*◌, ◌≤◌, ◌<◌, ◌≡◌, refl, max, min, true, false, List, [], ◌∷◌, arith}
use sjmb_slack.UserSession.Events.{
  ApiError, authentication, request, rate_limited, other_api_error, retry_delay,
}
use sjmb_slack.UserSession.Api.{authentication_error}
use sjmb_slack.UserSession.Connection.{EndedConnection, still_running, reset, run_session}

-- The pause that an error asks for.
abbrev pub asked : ApiError → ℕ
asked (rate_limited pause) = pause
asked _ = 0

-- Between two seconds and thirty-one, or as long as a rate limit asks.
abbrev pub Paced : ApiError → ℕ → Type 0
Paced e delay = (2000 ≤ delay) × (asked e ≤ delay) × (delay ≤ max 30999 (asked e))

abbrev pub AllPaced : List EndedConnection → List ℕ → Type 0
AllPaced [] [] = Unit
AllPaced (c ∷ cs) (d ∷ ds) = Paced c.error d × AllPaced cs ds
AllPaced _ _ = ⊥

-- A connection after which the session may go on.
abbrev pub GoesOn : EndedConnection → Type 0
GoesOn c = (c.saved ≡ true) × (authentication_error c.error ≡ false) × (c.jitter < 1000)

abbrev pub AllGoOn : List EndedConnection → Type 0
AllGoOn [] = Unit
AllGoOn (c ∷ cs) = GoesOn c × AllGoOn cs

retry_delay-Paced :
    (b jitter : ℕ) (e : ApiError)
    → 2 ≤ b
    → b ≤ 30
    → jitter < 1000
    → Paced e (retry_delay b jitter e)
unfolding retry_delay
retry_delay-Paced b jitter (rate_limited pause) h g j = (omega arith, omega arith, omega arith)
retry_delay-Paced b jitter (authentication code) h g j = (omega arith, omega arith, omega arith)
retry_delay-Paced b jitter (request method code) h g j = (omega arith, omega arith, omega arith)
retry_delay-Paced b jitter other_api_error h g j = (omega arith, omega arith, omega arith)

reset_between : (ms b : ℕ) → 2 ≤ b → b ≤ 30 → (2 ≤ reset ms b) × (reset ms b ≤ 30)
reset_between ms b h g = ground arith

-- However many connections end one after another, for whatever reason but a refusal of the session, and
-- as long as the state is saved, the session keeps running: after each it connects again, after a pause
-- of at least two seconds and of what a rate limit asks, and no longer than that or 31 seconds.
pub run_session-persists :
    (backoff : ℕ) (cs : List EndedConnection)
    → 2 ≤ backoff
    → backoff ≤ 30
    → AllGoOn cs
    → ((run_session backoff cs).1 ≡ still_running) × AllPaced cs (run_session backoff cs).0
unfolding run_session
run_session-persists backoff [] h g a = (refl, tt)
run_session-persists backoff (c ∷ cs) h g ((saved, fine, j), rest) =
    let now = reset c.elapsed backoff in
    let (low, high) = reset_between c.elapsed backoff h g in
    let (running, paced) =
      run_session-persists (min (now * 2) 30) cs (omega arith) (omega arith) rest in
    rw (saved, fine, run_session)
      (running, (retry_delay-Paced now c.jitter c.error low high j, paced))
