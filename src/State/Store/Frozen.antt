-- ===== src/State/Store/Frozen.antt =====
-- A channel with a failed message makes no progress until it is retried.
use sjmb_slack.Prelude.{
  ℕ, ◌≡◌, refl, Bool, true, false, List, [], ◌∷◌, arith, Option, none, some, Bool-cases, inl, inr,
  any, Option-cases,
}
use sjmb_slack.Prelude.Int.{ℤ}
use sjmb_slack.Prelude.Text.{Text, text_eq, text_eq_iff}
use sjmb_slack.Prelude.Map.{Map, lookup, modify, remove, contains_key-lookup}
use sjmb_slack.State.{Channel}
use sjmb_slack.State.Store.{
  Store, new_channel, add_channel, retry_channel, forget_thread, processed, remember_thread, failed,
  finish_recovery, recovered,
}
use sjmb_slack.State.Store.Bounds.{
  Call, begins, adds, retries, forgets, processes, remembers, fails, finishes, checkpoints, step,
  run,
}
use sjmb_slack.State.Store.Progress.{
  Mark, mark, mark_in, mark_of, mark_in-modify, mark-prune, mark-checkpoint, recovered_mark,
}
use sjmb_slack.State.Store.Monotone.{mark_in-track_valid}
use sjmb_slack.State.Store.Kept.{lookup-or_insert}

-- A call that may clear the failure of a channel: a retry of it, and a new connection.
abbrev pub clears : Text → Call → Bool
clears id (begins ids at) = true
clears id (retries k) = text_eq k id
clears id _ = false

-- The channel is there, failed, with watermark `u`.
abbrev pub IsFrozenAt : ℤ → Option Mark → Type 0
IsFrozenAt u none = ⊥
IsFrozenAt u (some k) = (k.covered_until ≡ u) × (k.failed ≡ true)

IsFrozenAt-modify :
    (u : ℤ) (f : Channel → Channel) (g : Mark → Mark)
    (agree : (c : Channel) → mark (f c) ≡ g (mark c)) (k id : Text) (m : Map Channel)
    → ((x : Mark) → text_eq k id ≡ true → IsFrozenAt u (some x) → IsFrozenAt u (some (g x)))
    → IsFrozenAt u (mark_in m id)
    → IsFrozenAt u (mark_in (modify k f m) id)
IsFrozenAt-modify u f g agree k id m h frozen = elim (Option-cases (lookup id m)) [
  | inl absent ↦ absurd (rw absent at frozen)
  | inr (c, present) ↦
      let now : IsFrozenAt u (some (mark c)) = rw present at frozen in
      rw (mark_in-modify f g agree k id m, present)
        (elim (Bool-cases (text_eq k id)) [
          | inl hit ↦ rw hit (h (mark c) hit now)
          | inr miss ↦ rw miss now
        ])
]

-- Every call that neither retries the failed channel nor begins a connection keeps it failed, with
-- its watermark where it was.
pub step-IsFrozenAt :
    (in_range : ℕ → Bool) (u : ℤ) (c : Call) (s : Store) (id : Text)
    → clears id c ≡ false
    → IsFrozenAt u (mark_of s id)
    → IsFrozenAt u (mark_of (step in_range c s) id)
unfolding add_channel retry_channel forget_thread processed remember_thread failed
step-IsFrozenAt in_range u (begins ids at) s id h z = cc
step-IsFrozenAt in_range u (adds k at) s id h z = elim (Option-cases (lookup id s.channels)) [
  | inl absent ↦ absurd (rw absent at z)
  | inr (c, present) ↦
      let same : lookup id (step in_range (adds k at) s).channels ≡ some c = ground (
        arith,
        lookup-or_insert k id (new_channel at) s.channels,
        contains_key-lookup k s.channels,
        text_eq_iff k id,
      ) in
      rw same (rw present at z)
]
step-IsFrozenAt in_range u (retries k) s id h z =
    IsFrozenAt-modify u (λ c. record c { failed = false }) (λ x. record x { failed = false })
      (λ c. refl) k id s.channels (λ x e f. cc) z
step-IsFrozenAt in_range u (forgets k ts) s id h z =
    IsFrozenAt-modify u (λ c. record c { threads = remove ts c.threads }) (λ x. x) (λ c. refl) k id
      s.channels (λ x e f. f) z
step-IsFrozenAt in_range u (processes k ts thread at) s id h z =
    rw (mark-prune _ at s.window id, mark_in-track_valid in_range k thread at s.channels id) z
step-IsFrozenAt in_range u (remembers k parent at pruned_at) s id h z =
    rw
      (
        mark-prune _ pruned_at s.window id,
        mark_in-track_valid in_range k (some parent) at s.channels id,
      )
      z
step-IsFrozenAt in_range u (fails k) s id h z =
    IsFrozenAt-modify u (λ c. record c { failed = true }) (λ x. record x { failed = true })
      (λ c. refl) k id s.channels (λ x e f. (f.0, refl)) z
step-IsFrozenAt in_range u (finishes k through) s id h z =
    unfold finish_recovery in
    IsFrozenAt-modify u (recovered through) (recovered_mark through)
      (λ c. unfold recovered in ground arith) k id s.channels (λ x e f. ground arith) z
step-IsFrozenAt in_range u (checkpoints through at) s id h z =
    rw (mark-checkpoint through at s id) (elim (Option-cases (mark_of s id)) [
      | inl absent ↦ absurd (rw absent at z)
      | inr (x, present) ↦
          let now : IsFrozenAt u (some x) = rw present at z in rw present (ground arith)
    ])

-- Once a channel has failed, any history of calls leaves it failed and its watermark where it was, as
-- long as no connection begins and the channel is not retried.
pub run-IsFrozenAt :
    (in_range : ℕ → Bool) (u : ℤ) (cs : List Call) (s : Store) (id : Text)
    → any (clears id) cs ≡ false
    → IsFrozenAt u (mark_of s id)
    → IsFrozenAt u (mark_of (run in_range cs s) id)
run-IsFrozenAt in_range u [] s id h z = z
run-IsFrozenAt in_range u (c ∷ cs) s id h z =
    run-IsFrozenAt in_range u cs (step in_range c s) id (ground arith)
      (step-IsFrozenAt in_range u c s id (ground arith) z)
