-- ===== src/Tests/StateTests.antt =====
-- Runs of the store and witnesses for the theorems about it.
use sjmb_slack.Prelude.{
  ℕ, zero, suc, ◌-◌, ◌<◌, ◌≡◌, refl, ◌⊎◌, Bool, true, false, List, [], ◌∷◌, ◌++◌, Option, none,
  some, length, arith, any, retain, All, Perm,
}
use sjmb_slack.Prelude.Int.{ℤ, pos, ◌-ℤ◌, ◌+ℤ◌}
use sjmb_slack.Prelude.Text.{Text, codes}
use sjmb_slack.Prelude.Map.{Map, keys, map_values, modify, retain_entries}
use sjmb_slack.Prelude.Result.{ok}
use sjmb_slack.Harvest.Timestamp.{message_timestamp}
use sjmb_slack.State.{Channel, Snapshot, max_threads, valid_id, valid_ts}
use sjmb_slack.State.Prune.{prune, tracked, thread_count, Tracked, cap_threads, drop_old_threads}
use sjmb_slack.State.Prune.Total.{IsBounded, prune-IsBounded, outside}
use sjmb_slack.State.Prune.Order.{NoneBefore}
use sjmb_slack.State.Prune.Kept.{cap_threads-forgets_oldest}
use sjmb_slack.State.Store.{
  Store, begin_connection, checkpoint, failed, processed, seen, finish_recovery,
}
use sjmb_slack.State.Store.Bounds.{
  Call, begins, processes, checkpoints, finishes, fails, run, run-IsBounded,
}
use sjmb_slack.State.Store.Progress.{mark_of}
use sjmb_slack.State.Store.Frozen.{IsFrozenAt, run-IsFrozenAt}
use sjmb_slack.State.Store.Dedup.{seen-processed_self, run-seen, records}
use sjmb_slack.State.Store.Disk.{
  Bytes, Files, found, not_found, open_store, save, as_i64, persisted, valid_checkpoint, valid_seen,
  check_channels,
}
use sjmb_slack.State.Store.Disk.Sound.{IsSound, IsRead, open-IsSound}
use sjmb_slack.State.Store.Disk.Reopen.{open-save}

abbrev any_date : ℕ → Bool
any_date n = true

abbrev c1 : Text
c1 = codes "C1"

abbrev ts1 : Text
ts1 = codes "1234.000001"

-- One channel, recovering since second 40, with one thread, as in the test of the source.
abbrev store : Store
store = record {
  snapshot = record {
    version = 1;
    team = codes "T1";
    user = codes "U1";
    channels =
        (
          c1,
          record {
            covered_until = pos 40;
            threads = (codes "1230.000001", pos 100) ∷ [];
            recovering = true;
            failed = false;
          },
        )
        ∷ [];
    seen = record { channel = c1; ts = ts1; processed_at = pos 100 } ∷ [];
  };
  window = pos 86400;
}

store-IsBounded : IsBounded store.snapshot
store-IsBounded = record { channels = omega arith; threads = omega arith; seen = omega arith }

abbrev history : List Call
history =
    begins (c1 ∷ []) (pos 100)
    ∷ checkpoints (pos 110) (pos 111)
    ∷ finishes c1 (pos 100)
    ∷ processes c1 (codes "1235.0") none (pos 112)
    ∷ fails c1
    ∷ checkpoints (pos 120) (pos 121)
    ∷ []

-- The checkpoint during the recovery moves nothing; the one after the failure neither.
history_runs :
    mark_of (run any_date history store) c1
    ≡ some (record { covered_until = pos 100; recovering = false; failed = true })
unfolding begin_connection checkpoint processed failed finish_recovery prune valid_id cap_threads
    map_values modify retain_entries drop_old_threads ◌-ℤ◌
history_runs = refl

prune-IsBounded_example :
    IsBounded (prune store.snapshot (pos 100) (pos 86400))
    × (length (prune store.snapshot (pos 100) (pos 86400)).channels ≡ 1)
    × (keys (prune store.snapshot (pos 100) (pos 86400)).channels ≡ keys store.snapshot.channels)
prune-IsBounded_example = prune-IsBounded store.snapshot (pos 100) (pos 86400) (omega arith)

run-IsBounded_example : IsBounded (run any_date history store).snapshot
run-IsBounded_example = run-IsBounded any_date history store store-IsBounded

abbrev broken : Store
broken = record store {
  snapshot = record store.snapshot {
    channels =
        (c1, record { covered_until = pos 40; threads = []; recovering = true; failed = true })
        ∷ [];
  };
}

run-IsFrozenAt_example :
    IsFrozenAt
      (pos 40)
      (mark_of (run any_date (checkpoints (pos 50) (pos 51) ∷ finishes c1 (pos 60) ∷ []) broken) c1)
run-IsFrozenAt_example =
    run-IsFrozenAt any_date (pos 40) (checkpoints (pos 50) (pos 51) ∷ finishes c1 (pos 60) ∷ [])
      broken c1 refl (refl, refl)

run-seen_example :
    (seen c1 (codes "1235.0") store ≡ true)
    ⊎ (any (records c1 (codes "1235.0")) (processes c1 (codes "1235.0") none (pos 112) ∷ []) ≡ true)
run-seen_example =
    run-seen any_date c1 (codes "1235.0") (processes c1 (codes "1235.0") none (pos 112) ∷ []) store
      (seen-processed_self any_date c1 (codes "1235.0") none (pos 112) store (omega arith))

replicate : ℕ → Map ℤ
replicate zero = []
replicate (suc n) = (ts1, pos 0) ∷ replicate n

length-replicate : (n : ℕ) → length (replicate n) ≡ n
unfolding replicate
length-replicate zero = refl
length-replicate (suc n) = omega (arith, length-replicate n)

crowded : ℕ → Map Channel
crowded n =
    (
      c1,
      record { covered_until = pos 0; threads = replicate n; recovering = false; failed = false },
    )
    ∷ []

crowded_many : max_threads < thread_count (crowded 4097)
unfolding crowded
crowded_many = omega (arith, length-replicate 4097)

cap_threads-forgets_oldest_example :
    (gone : List Tracked) × (rest : List Tracked) × Perm (gone ++ rest) (tracked (crowded 4097))
    × (length gone ≡ thread_count (crowded 4097) - max_threads)
    × All (λ r. NoneBefore r rest) gone
    × (tracked (cap_threads (crowded 4097)) ≡ retain (outside gone) (tracked (crowded 4097)))
cap_threads-forgets_oldest_example = cap_threads-forgets_oldest (crowded 4097) crowded_many

-- A codec for the one snapshot of `store`.
abbrev files : Files
files = record {
  directory_created = true;
  lock_opened = true;
  lock_taken = true;
  state = found (1 ∷ []);
}

abbrev encode : Snapshot → Option Bytes
encode d = some (1 ∷ [])

abbrev decode : Bytes → Option Snapshot
decode bytes = some (persisted store.snapshot)

store-IsSound : IsSound any_date (codes "T1") (codes "U1") (pos 200) store.snapshot
unfolding valid_checkpoint valid_seen valid_id valid_ts message_timestamp ◌+ℤ◌
store-IsSound = record {
  version = refl;
  team = refl;
  user = refl;
  bounded = store-IsBounded;
  channels = (refl, refl, tt);
  seen = refl;
}

open-save_example :
    open_store any_date decode 86400 (codes "T1") (codes "U1") (pos 200) files
    ≡ ok (record { snapshot = persisted store.snapshot; window = pos 86400 })
unfolding save valid_id
open-save_example =
    open-save any_date encode decode store (λ bytes e. refl) 86400 (codes "T1") (codes "U1")
      (pos 200) not_found files refl refl store-IsSound refl (refl, refl, refl) refl

open_files :
    open_store any_date decode 86400 (codes "T1") (codes "U1") (pos 200) files
    ≡ ok (record { snapshot = persisted store.snapshot; window = pos 86400 })
unfolding open_store valid_id valid_checkpoint valid_seen valid_ts message_timestamp ◌+ℤ◌ map_values
    check_channels
open_files = refl

open-IsSound_example :
    IsSound any_date (codes "T1") (codes "U1") (pos 200) (persisted store.snapshot)
    × (valid_id (codes "T1") ≡ true)
    × (valid_id (codes "U1") ≡ true)
    × (files.lock_taken ≡ true)
    × (◌≡◌ {A = ℤ} (pos 86400) (as_i64 86400))
    × IsRead any_date decode files.state (persisted store.snapshot)
open-IsSound_example =
    open-IsSound any_date decode 86400 (codes "T1") (codes "U1") (pos 200) files
      (record { snapshot = persisted store.snapshot; window = pos 86400 }) open_files
