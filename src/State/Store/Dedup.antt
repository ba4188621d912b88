-- ===== src/State/Store/Dedup.antt =====
-- Duplicate detection: what `seen` says of a message after other operations.
use sjmb_slack.Prelude.{
  ℕ, ◌≤◌, ◌<◌, ◌≡◌, ◌⊎◌, refl, Bool, true, false, ◌&&◌, ◌||◌, List, [], ◌∷◌, ◌++◌, arith, length,
  Option, inl, any, any-append, length-append, retain, retain-append,
}
use sjmb_slack.Prelude.Int.{ℤ, ◌≤ℤ◌, leb_ℤ, ◌-ℤ◌, pos}
use sjmb_slack.Prelude.Text.{Text, text_eq, text_eq_refl}
use sjmb_slack.Prelude.Map.{Map}
use sjmb_slack.Prelude.Result.{Result, ok, err}
use sjmb_slack.State.{Channel, Snapshot, max_seen, Seen, overlap}
use sjmb_slack.State.Prune.{prune, trim}
use sjmb_slack.State.Store.{
  Store, StoreError, begin_connection, add_channel, retry_channel, forget_thread, processed,
  remember_thread, failed, finish_recovery, checkpoint, conclude, seen, same_message,
}
use sjmb_slack.State.Store.Bounds.{
  Call, begins, adds, retries, forgets, processes, remembers, fails, finishes, checkpoints, step,
  run,
}

-- A list of fewer than `max_seen` entries and a last one keeps the last one.
any-trim_last :
    (p : Seen → Bool) (x : Seen) (xs : List Seen) → p x ≡ true → any p (trim (xs ++ x ∷ [])) ≡ true
unfolding trim
any-trim_last p x [] h = ground arith
any-trim_last p x (y ∷ ys) h = ground (arith, any-trim_last p x ys h, any-append p ys (x ∷ []))

any-trim_small : (xs : List Seen) → length xs ≤ max_seen → trim xs ≡ xs
unfolding trim
any-trim_small [] h = refl
any-trim_small (x ∷ xs) h = ground arith

any-trim→any : (p : Seen → Bool) (xs : List Seen) → any p (trim xs) ≡ true → any p xs ≡ true
unfolding trim
any-trim→any p [] h = h
any-trim→any p (x ∷ xs) h = ground (arith, any-trim→any p xs)

any-retain→any : (p q : Seen → Bool) (xs : List Seen) → any p (retain q xs) ≡ true → any p xs ≡ true
any-retain→any p q [] h = h
any-retain→any p q (x ∷ xs) h = ground (arith, any-retain→any p q xs)

any-retain_both :
    (p q : Seen → Bool) (xs : List Seen)
    → any (λ x. p x && q x) xs ≡ true
    → any p (retain q xs) ≡ true
any-retain_both p q [] h = h
any-retain_both p q (x ∷ xs) h = ground (arith, any-retain_both p q xs)

length-retain_le : (q : Seen → Bool) (xs : List Seen) → length (retain q xs) ≤ length xs
length-retain_le q [] = omega arith
length-retain_le q (x ∷ xs) = ground (arith, length-retain_le q xs)

same_message_self :
    (channel ts : Text) (at : ℤ)
    → same_message channel ts (record { channel = channel; ts = ts; processed_at = at }) ≡ true
same_message_self channel ts at = ground (arith, text_eq_refl channel, text_eq_refl ts)

young : (at window : ℤ) → pos 0 ≤ℤ window → leb_ℤ (at -ℤ window -ℤ overlap) at ≡ true
unfolding ◌-ℤ◌
young at window h = ground arith

-- A message that was processed is seen from then on: the entry just written survives its own prune.
pub seen-processed_self :
    (in_range : ℕ → Bool) (channel ts : Text) (thread : Option Text) (at : ℤ) (s : Store)
    → pos 0 ≤ℤ s.window
    → seen channel ts (processed in_range channel ts thread at s) ≡ true
unfolding seen processed prune
seen-processed_self in_range channel ts thread at s h =
    rw
      (
        retain-append (λ x. leb_ℤ (at -ℤ s.window -ℤ overlap) x.processed_at) s.seen,
        young at s.window h,
      )
      (any-trim_last (same_message channel ts) _ _ (same_message_self channel ts at))

-- Processing another message forgets none that is younger than the window with its overlap, as
-- long as there is room for one more.
pub seen-processed_other :
    (in_range : ℕ → Bool) (channel ts k t : Text) (thread : Option Text) (at : ℤ) (s : Store)
    → length s.seen < max_seen
    → any
        (λ x. same_message channel ts x && leb_ℤ (at -ℤ s.window -ℤ overlap) x.processed_at)
        s.seen
      ≡ true
    → seen channel ts (processed in_range k t thread at s) ≡ true
unfolding seen processed prune
seen-processed_other in_range channel ts k t thread at s room h =
    let live = λ (x : Seen). leb_ℤ (at -ℤ s.window -ℤ overlap) x.processed_at in
    let n : Seen = record { channel = k; ts = t; processed_at = at } in
    let fits : length (retain live (s.seen ++ n ∷ [])) ≤ max_seen =
      omega (arith, length-retain_le live (s.seen ++ n ∷ []), length-append s.seen (n ∷ [])) in
    rw
      (
        any-trim_small (retain live (s.seen ++ n ∷ [])) fits,
        retain-append live s.seen,
        any-append (same_message channel ts) (retain live s.seen),
      )
      (ground (arith, any-retain_both (same_message channel ts) live s.seen h))

-- Whether a call records the message as processed.
abbrev pub records : Text → Text → Call → Bool
records channel ts (processes k t thread at) = text_eq k channel && text_eq t ts
records channel ts _ = false

seen-prune→seen :
    (p : Seen → Bool) (data' : Snapshot) (at window : ℤ)
    → any p (prune data' at window).seen ≡ true
    → any p data'.seen ≡ true
unfolding prune
seen-prune→seen p data' at window h =
    any-retain→any p _ data'.seen (any-trim→any p (retain _ data'.seen) h)

seen-conclude→seen :
    (p : Seen → Bool) (at : ℤ) (s : Store) (r : Result StoreError (Unit {0}) × Map Channel)
    → any p (conclude at s r).1.seen ≡ true
    → any p s.seen ≡ true
unfolding conclude
seen-conclude→seen p at s (ok u, m) h = seen-prune→seen p _ at s.window h
seen-conclude→seen p at s (err e, m) h = h

step-seen :
    (in_range : ℕ → Bool) (channel ts : Text) (c : Call) (s : Store)
    → seen channel ts (step in_range c s) ≡ true
    → (seen channel ts s || records channel ts c) ≡ true
unfolding seen begin_connection add_channel retry_channel forget_thread processed remember_thread
    failed finish_recovery checkpoint
step-seen in_range channel ts (begins ids at) s h =
    ground (arith, seen-conclude→seen (same_message channel ts) at s _ h)
step-seen in_range channel ts (adds k at) s h = ground arith
step-seen in_range channel ts (processes k t thread at) s h = ground (
  arith,
  seen-prune→seen (same_message channel ts) _ at s.window h,
  any-append (same_message channel ts) s.seen
      (record { channel = k; ts = t; processed_at = at } ∷ []),
)
step-seen in_range channel ts (remembers k parent at pruned_at) s h =
    ground (arith, seen-prune→seen (same_message channel ts) _ pruned_at s.window h)
step-seen in_range channel ts (checkpoints through at) s h =
    ground (arith, seen-prune→seen (same_message channel ts) _ at s.window h)
step-seen in_range channel ts (retries k) s h = ground arith
step-seen in_range channel ts (forgets k t) s h = ground arith
step-seen in_range channel ts (fails k) s h = ground arith
step-seen in_range channel ts (finishes k through) s h = ground arith

-- No message is taken for a duplicate that was not recorded: after any calls, what is seen was seen
-- before or was recorded by one of them.
pub run-seen :
    (in_range : ℕ → Bool) (channel ts : Text) (cs : List Call) (s : Store)
    → seen channel ts (run in_range cs s) ≡ true
    → (seen channel ts s ≡ true) ⊎ (any (records channel ts) cs ≡ true)
run-seen in_range channel ts [] s h = inl h
run-seen in_range channel ts (c ∷ cs) s h = ground (
  arith,
  run-seen in_range channel ts cs (step in_range c s) h,
  step-seen in_range channel ts c s,
)
