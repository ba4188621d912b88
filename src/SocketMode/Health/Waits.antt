-- ===== src/SocketMode/Health/Waits.antt =====
-- `wait_ready` and `wait_failure` of src/slackbot/socket_mode.rs on the `Notify` of `Health`, step by
-- step: a change and its notification are two steps, and so are the tests of a waiter and its sleep.
-- Of `Notify` is modelled what its documentation says: `notify_one` leaves a permit, of which there is
-- at most one, and `notified` ends as soon as it can take the permit.
use sjmb_slack.Prelude.{
  ℕ, zero, suc, ◌≡◌, refl, sym, subst, ap, ◌∙◌, Bool, true, false, ◌&&◌, List, [], ◌∷◌, none, some,
  arith, if◌then◌else◌, Bool-cases, Option-cases, inl, inr,
}
use sjmb_slack.Prelude.Result.{Result, ok, err}
use sjmb_slack.SocketMode.Health.{Failure, Health, fail, check_health}

-- Where the waiter is: before the check, between the check and the test of `ready`, asleep, at its end.
pub data Waiter : Type 0 where
  checking checked asleep : Waiter
  finished : Result Failure (Unit {0}) → Waiter

-- `owed` counts the changes that are not yet notified.
pub record Watch : Type 0 where
  pub health : Health
  pub permit : Bool
  pub owed : ℕ
  pub waiter : Waiter

pub data WatchStep : Type 0 where
  waits becomes_ready notifies : WatchStep
  fails : Failure → WatchStep

-- A step of the waiter: `wait_ready`, or `wait_failure`, which does not test `ready`.
unfoldable pub wait_at : Bool → Waiter → Watch → Watch
wait_at for_ready checking w = elim (check_health w.health) [
  | err f ↦ record w { waiter = finished (err f) }
  | ok _ ↦ record w { waiter = checked }
]
wait_at for_ready checked w =
    if for_ready && w.health.ready
    then record w { waiter = finished (ok tt) }
    else record w { waiter = asleep }
wait_at for_ready asleep w = if w.permit then record w { permit = false; waiter = checking } else w
wait_at for_ready (finished r) w = w

unfoldable pub notify : ℕ → Watch → Watch
notify zero w = w
notify (suc n) w = record w { permit = true; owed = n }

abbrev pub watch_step : Bool → WatchStep → Watch → Watch
watch_step for_ready waits w = wait_at for_ready w.waiter w
watch_step for_ready becomes_ready w = record w {
  health = record w.health { ready = true };
  owed = suc w.owed;
}
watch_step for_ready (fails f) w = record w { health = fail f w.health; owed = suc w.owed }
watch_step for_ready notifies w = notify w.owed w

abbrev pub run_watch : Bool → List WatchStep → Watch → Watch
run_watch for_ready [] w = w
run_watch for_ready (c ∷ cs) w = run_watch for_ready cs (watch_step for_ready c w)

-- A waiter that begins, on any health.
abbrev pub watch : Health → Bool → Watch
watch h permit = record { health = h; permit = permit; owed = 0; waiter = checking }

-- What the waiter has seen is still so, unless it is to be woken.
abbrev Current : Bool → Waiter → Health → Type 0
Current for_ready checked h = h.failure ≡ none
Current for_ready asleep h = (h.failure ≡ none) × ((for_ready && h.ready) ≡ false)
Current for_ready _ h = Unit

abbrev Alert : Bool → Watch → Type 0
Alert for_ready w = w.permit ≡ false → w.owed ≡ 0 → Current for_ready w.waiter w.health

check-passes : (h : Health) → check_health h ≡ ok tt → h.failure ≡ none
unfolding check_health
check-passes h e = elim (Option-cases h.failure) [
  | inl n ↦ n
  | inr (f, s) ↦ absurd (ground (arith, s))
]

wait-Alert :
    (for_ready : Bool) (x : Waiter) (w : Watch)
    → w.waiter ≡ x
    → Alert for_ready w
    → Alert for_ready (wait_at for_ready x w)
unfolding wait_at check_health
wait-Alert for_ready checking w e a = elim (Option-cases w.health.failure) [
  | inl n ↦ rw (n, wait_at) (λ p o. n)
  | inr (f, s) ↦ rw (s, wait_at) (λ p o. tt)
]
wait-Alert for_ready checked w e a = elim (Bool-cases (for_ready && w.health.ready)) [
  | inl stop ↦ rw (stop, wait_at) (λ p o. tt)
  | inr go ↦ rw (go, wait_at) (λ p o. (subst (λ x. Current for_ready x w.health) e (a p o), go))
]
wait-Alert for_ready asleep w e a = elim (Bool-cases w.permit) [
  | inl awake ↦ rw (awake, wait_at) (λ p o. tt)
  | inr none_left ↦
      let same : wait_at for_ready asleep w ≡ w = rw (none_left, wait_at) refl in
      subst (Alert for_ready) (sym same) a
]
wait-Alert for_ready (finished r) w e a = a

notify-Alert :
    (for_ready : Bool) (n : ℕ) (w : Watch) → Alert for_ready w → Alert for_ready (notify n w)
unfolding notify
notify-Alert for_ready zero w a = a
notify-Alert for_ready (suc n) w a = λ p o. absurd (ground (arith, p))

run-Alert :
    (for_ready : Bool) (cs : List WatchStep) (w : Watch)
    → Alert for_ready w
    → Alert for_ready (run_watch for_ready cs w)
run-Alert for_ready [] w a = a
run-Alert for_ready (waits ∷ cs) w a =
    run-Alert for_ready cs (wait_at for_ready w.waiter w) (wait-Alert for_ready w.waiter w refl a)
run-Alert for_ready (becomes_ready ∷ cs) w a =
    run-Alert for_ready cs (watch_step for_ready becomes_ready w) (λ p o. absurd (omega (arith, o)))
run-Alert for_ready (fails f ∷ cs) w a =
    run-Alert for_ready cs (watch_step for_ready (fails f) w) (λ p o. absurd (omega (arith, o)))
run-Alert for_ready (notifies ∷ cs) w a =
    run-Alert for_ready cs (notify w.owed w) (notify-Alert for_ready w.owed w a)

abbrev pub IsFinished : Waiter → Type 0
IsFinished (finished r) = Unit
IsFinished _ = ⊥

-- Three steps of the waiter alone.
abbrev pub three_waits : Bool → Watch → Watch
three_waits for_ready w = run_watch for_ready (waits ∷ waits ∷ waits ∷ []) w

failed_wakes :
    (for_ready ready permit : Bool) (f : Failure) (x : Waiter)
    → Alert for_ready (record {
      health = record { ready = ready; failure = some f };
      permit = permit;
      owed = 0;
      waiter = x;
    })
    → IsFinished
        (three_waits for_ready (record {
          health = record { ready = ready; failure = some f };
          permit = permit;
          owed = 0;
          waiter = x;
        })).waiter
unfolding wait_at check_health
failed_wakes for_ready ready permit f (finished r) a = tt
failed_wakes for_ready ready permit f checking a = tt
failed_wakes for_ready ready true f asleep a = tt
failed_wakes for_ready ready false f asleep a = absurd (ground (arith, (a refl refl).0))
failed_wakes true true permit f checked a = tt
failed_wakes true false true f checked a = tt
failed_wakes false ready true f checked a = tt
failed_wakes for_ready ready false f checked a = absurd (ground (arith, a refl refl))

-- No failure of a workspace is slept through: however its changes, their notifications and the steps of
-- the waiter interleave, once the notifications have been given and there is a failure, three steps of
-- the waiter alone end its wait.
pub run_watch-wakes :
    (for_ready : Bool) (cs : List WatchStep) (h : Health) (permit : Bool) (f : Failure)
    → (run_watch for_ready cs (watch h permit)).owed ≡ 0
    → (run_watch for_ready cs (watch h permit)).health.failure ≡ some f
    → IsFinished (three_waits for_ready (run_watch for_ready cs (watch h permit))).waiter
run_watch-wakes for_ready cs h permit f calm broken =
    let w = run_watch for_ready cs (watch h permit) in
    let a = run-Alert for_ready cs (watch h permit) (λ p o. tt) in
    let still : Watch = record {
      health = record { ready = w.health.ready; failure = some f };
      permit = w.permit;
      owed = 0;
      waiter = w.waiter;
    } in
    let same : w ≡ still =
      ap (λ o. record w { health = record w.health { failure = o } }) broken
      ∙ ap (λ n. record w { health = record w.health { failure = some f }; owed = n }) calm in
    subst (λ x. IsFinished (three_waits for_ready x).waiter) (sym same)
      (failed_wakes for_ready w.health.ready w.permit f w.waiter (subst (Alert for_ready) same a))
