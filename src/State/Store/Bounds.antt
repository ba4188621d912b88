-- ===== src/State/Store/Bounds.antt =====
-- Every operation of the store keeps its limits, on the error paths too.
use sjmb_slack.Prelude.{
  ℕ, ◌≤◌, ◌≡◌, refl, Bool, true, false, ◌||◌, List, [], ◌∷◌, arith, ltb, length, Option, none, some,
  Bool-cases, inl, inr,
}
use sjmb_slack.Prelude.Int.{ℤ}
use sjmb_slack.Prelude.Text.{Text}
use sjmb_slack.Prelude.Map.{
  Map, contains_key, insert, modify, remove, retain_entries, length-modify, length-map_values,
  length-insert-le, length-retain_entries-le,
}
use sjmb_slack.Prelude.Result.{Result, ok, err}
use sjmb_slack.State.{Channel, max_channels, max_threads, valid_id}
use sjmb_slack.State.Prune.{thread_count}
use sjmb_slack.State.Prune.Total.{IsBounded, prune-IsBounded}
use sjmb_slack.State.Store.{
  Store, StoreError, new_channel, connect_channel, connect_channels, begin_connection, add_channel,
  retry_channel, forget_thread, track, track_valid, processed, remember_thread, failed,
  finish_recovery, checkpoint, recovered, advance, or_insert, contains, conclude,
}

-- The calls that change a store, with the clock readings that they take.
pub data Call : Type 0 where
  begins : (channels : List Text) (at : ℤ) → Call
  adds : (id : Text) (at : ℤ) → Call
  retries : (id : Text) → Call
  forgets : (id ts : Text) → Call
  processes : (channel ts : Text) (thread : Option Text) (at : ℤ) → Call
  remembers : (id parent : Text) (at pruned_at : ℤ) → Call
  fails : (id : Text) → Call
  finishes : (id : Text) (through : ℤ) → Call
  checkpoints : (through at : ℤ) → Call

module _ (in_range : ℕ → Bool) where
  abbrev pub step : Call → Store → Store
  step (begins channels at) s = (begin_connection channels at s).1
  step (adds id at) s = (add_channel id at s).1
  step (retries id) s = retry_channel id s
  step (forgets id ts) s = forget_thread id ts s
  step (processes channel ts thread at) s = processed in_range channel ts thread at s
  step (remembers id parent at pruned_at) s = remember_thread in_range id parent at pruned_at s
  step (fails id) s = failed id s
  step (finishes id through) s = finish_recovery id through s
  step (checkpoints through at) s = checkpoint through at s

  abbrev pub run : List Call → Store → Store
  run [] s = s
  run (c ∷ cs) s = run cs (step c s)

-- A change of one channel that tracks no new thread.
thread_count-modify-le :
    (id : Text) (f : Channel → Channel) (m : Map Channel)
    → ((c : Channel) → length (f c).threads ≤ length c.threads)
    → thread_count (modify id f m) ≤ thread_count m
unfolding modify
thread_count-modify-le id f [] h = omega arith
thread_count-modify-le id f ((j, c) ∷ m) h = ground (arith, h c, thread_count-modify-le id f m h)

thread_count-insert_new-le :
    (id : Text) (at : ℤ) (m : Map Channel)
    → thread_count (insert id (new_channel at) m) ≤ thread_count m
unfolding insert
thread_count-insert_new-le id at [] = omega arith
thread_count-insert_new-le id at ((j, c) ∷ m) = ground (arith, thread_count-insert_new-le id at m)

thread_count-retain-le :
    (p : Text → Channel → Bool) (m : Map Channel)
    → thread_count (retain_entries p m) ≤ thread_count m
unfolding retain_entries
thread_count-retain-le p [] = omega arith
thread_count-retain-le p ((j, c) ∷ m) = ground (arith, thread_count-retain-le p m)

length-remove-le {ℓ} : {V : Type ℓ} (k : Text) (m : Map V) → length (remove k m) ≤ length m
unfolding remove
length-remove-le k [] = omega arith
length-remove-le k ((j, v) ∷ m) = ground (arith, length-remove-le k m)

-- Within the limits on channels and threads.
abbrev Fits : Map Channel → Type 0
Fits m = (length m ≤ max_channels) × (thread_count m ≤ max_threads)

or_insert-Fits :
    (id : Text) (at : ℤ) (m : Map Channel)
    → (contains_key id m || ltb (length m) max_channels) ≡ true
    → Fits m
    → Fits (or_insert id (new_channel at) m)
or_insert-Fits id at m room fits =
    ground (arith, length-insert-le id (new_channel at) m, thread_count-insert_new-le id at m)

modify-Fits :
    (id : Text) (f : Channel → Channel) (m : Map Channel)
    → ((c : Channel) → length (f c).threads ≤ length c.threads)
    → Fits m
    → Fits (modify id f m)
modify-Fits id f m h fits = (
  omega (arith, length-modify id f m, fits.0),
  omega (arith, thread_count-modify-le id f m h, fits.1),
)

connect_channels-Fits :
    (at window : ℤ) (ids : List Text) (m : Map Channel)
    → Fits m
    → Fits (connect_channels at window ids m).1
unfolding connect_channels connect_channel
connect_channels-Fits at window [] m fits = fits
connect_channels-Fits at window (id ∷ ids) m fits = elim (Bool-cases (valid_id id)) [
  | inr bad ↦ rw bad fits
  | inl good ↦ elim (Bool-cases (contains_key id m || ltb (length m) max_channels)) [
    | inr full ↦ rw (good, full) fits
    | inl room ↦
        rw (good, room)
          (connect_channels-Fits at window ids _ (
            modify-Fits id (connect_channel at window (contains_key id m)) _ (λ c. omega arith)
              (or_insert-Fits id at m room fits)))
  ]
]

conclude-IsBounded :
    (at : ℤ) (s : Store) (r : Result StoreError (Unit {0}) × Map Channel)
    → Fits r.1
    → IsBounded s.snapshot
    → IsBounded (conclude at s r).1.snapshot
unfolding conclude
conclude-IsBounded at s (ok u, m) fits b = (prune-IsBounded _ at s.window fits.0).0
conclude-IsBounded at s (err e, m) fits b = record {
  channels = fits.0;
  threads = fits.1;
  seen = b.seen;
}

begin_connection-IsBounded :
    (ids : List Text) (at : ℤ) (s : Store)
    → IsBounded s.snapshot
    → IsBounded (begin_connection ids at s).1.snapshot
unfolding begin_connection
begin_connection-IsBounded ids at s b =
    let keep = λ (id : Text) (c : Channel). contains ids id in
    conclude-IsBounded at s (connect_channels at s.window ids (retain_entries keep s.channels))
      (connect_channels-Fits at s.window ids (retain_entries keep s.channels) (
        omega (arith, length-retain_entries-le keep s.channels, b.channels),
        omega (arith, thread_count-retain-le keep s.channels, b.threads),
      ))
      b

track_valid-length :
    (in_range : ℕ → Bool) (id : Text) (thread : Option Text) (at : ℤ) (m : Map Channel)
    → length (track_valid in_range id thread at m) ≡ length m
track_valid-length in_range id none at m = refl
track_valid-length in_range id (some p) at m = ground (arith, length-modify id (track p at) m)

-- No operation, whatever its arguments and whether or not it fails, leaves more than 4096 channels,
-- 4096 threads or 32768 remembered messages.
pub step-IsBounded :
    (in_range : ℕ → Bool) (c : Call) (s : Store)
    → IsBounded s.snapshot
    → IsBounded (step in_range c s).snapshot
unfolding add_channel retry_channel forget_thread processed remember_thread failed finish_recovery
    checkpoint
step-IsBounded in_range (begins ids at) s b = begin_connection-IsBounded ids at s b
step-IsBounded in_range (adds id at) s b = ground (arith, or_insert-Fits id at s.channels)
step-IsBounded in_range (retries id) s b =
    let fits =
      modify-Fits id (λ c. record c { failed = false }) s.channels (λ c. omega arith)
        (b.channels, b.threads) in
    record { channels = fits.0; threads = fits.1; seen = b.seen }
step-IsBounded in_range (forgets id ts) s b =
    let fits =
      modify-Fits id (λ c. record c { threads = remove ts c.threads }) s.channels
        (λ c. length-remove-le ts c.threads) (b.channels, b.threads) in
    record { channels = fits.0; threads = fits.1; seen = b.seen }
step-IsBounded in_range (processes ch ts thread at) s b =
    (prune-IsBounded _ at s.window
      (omega (arith, track_valid-length in_range ch thread at s.channels, b.channels))).0
step-IsBounded in_range (remembers id parent at pruned_at) s b =
    (prune-IsBounded _ pruned_at s.window
      (omega (arith, track_valid-length in_range id (some parent) at s.channels, b.channels))).0
step-IsBounded in_range (fails id) s b =
    let fits =
      modify-Fits id (λ c. record c { failed = true }) s.channels (λ c. omega arith)
        (b.channels, b.threads) in
    record { channels = fits.0; threads = fits.1; seen = b.seen }
step-IsBounded in_range (finishes id through) s b =
    let fits =
      modify-Fits id (recovered through) s.channels (λ c. ground arith) (b.channels, b.threads) in
    record { channels = fits.0; threads = fits.1; seen = b.seen }
step-IsBounded in_range (checkpoints through at) s b =
    (prune-IsBounded _ at s.window
      (omega (arith, length-map_values (advance through) s.channels, b.channels))).0

-- The limits of 4096 channels, 4096 threads and 32768 remembered messages hold after any history of
-- calls of the store, failing ones included, if they held before.
pub run-IsBounded :
    (in_range : ℕ → Bool) (cs : List Call) (s : Store)
    → IsBounded s.snapshot
    → IsBounded (run in_range cs s).snapshot
run-IsBounded in_range [] s b = b
run-IsBounded in_range (c ∷ cs) s b =
    run-IsBounded in_range cs (step in_range c s) (step-IsBounded in_range c s b)
