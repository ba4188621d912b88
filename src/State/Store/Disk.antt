-- ===== src/State/Store/Disk.antt =====
-- `Store::open` and `Store::save` of src/slackbot/user_session/state.rs. What the file system
-- answers is an argument; the JSON codec of serde is a parameter. `now()` is one clock reading.
pub mod Sound
pub mod Reopen
use sjmb_slack.Prelude.{
  ℕ, suc, ◌+◌, ◌-◌, ◌^◌, ◌≤◌, ◌≡◌, Bool, true, false, not, ◌&&◌, List, [], ◌∷◌, Option, none, some,
  ltb, leb, length, all, ◌==◌, take, if◌then◌else◌,
}
use sjmb_slack.Prelude.Int.{ℤ, pos, negsuc, leb_ℤ, ◌+ℤ◌}
use sjmb_slack.Prelude.Text.{Text, text_eq}
use sjmb_slack.Prelude.Map.{Map, keys, map_values}
use sjmb_slack.Prelude.Result.{Result, ok, err, ◌>>=◌, ◌>>◌, ensure}
use sjmb_slack.State.{
  Channel, Seen, Snapshot, state_version, max_state_bytes, max_channels, max_threads, max_seen,
  valid_id, valid_ts,
}
use sjmb_slack.State.Store.{Store}

abbrev pub Bytes : Type 0
Bytes = List ℕ

-- `File::open` of the state and the read of it.
pub data StateFile : Type 0 where
  found : Bytes → StateFile
  not_found unreadable : StateFile

-- The directory, the lock file and the OS lock, as far as `open` gets with each.
pub record Files : Type 0 where
  pub directory_created : Bool
  pub lock_opened : Bool
  pub lock_taken : Bool
  pub state : StateFile

pub data OpenError : Type 0 where
  invalid_identity no_directory no_lock already_in_use unreadable_state too_large : OpenError
  invalid_state identity_mismatch too_many_entries invalid_checkpoint : OpenError
  invalid_thread too_many_threads invalid_duplicates : OpenError

-- `config.window_seconds as i64` from u64.
abbrev pub as_i64 : ℕ → ℤ
as_i64 n = if ltb n (2 ^ 63) then pos n else negsuc (2 ^ 64 - n - 1)

unfoldable pub valid_checkpoint : ℤ → Text → Channel → Bool
valid_checkpoint now id c =
    valid_id id && leb_ℤ (pos 0) c.covered_until && leb_ℤ c.covered_until (now +ℤ pos 300)

module _ (in_range : ℕ → Bool) where
  -- The loop over the channels, with the count of threads so far.
  unfoldable pub check_channels : ℤ → ℕ → Map Channel → Result OpenError ℕ
  check_channels now threads [] = ok threads
  check_channels now threads ((id, c) ∷ m) =
      let rest = check_channels now (threads + length c.threads) m in
      do
        ensure (valid_checkpoint now id c) invalid_checkpoint
        ensure (all (valid_ts in_range) (keys c.threads)) invalid_thread
        rest

  unfoldable pub valid_seen : Seen → Bool
  valid_seen x = valid_id x.channel && valid_ts in_range x.ts

  -- The checks of a snapshot that was read.
  unfoldable pub check_snapshot : Text → Text → ℤ → Snapshot → Result OpenError Snapshot
  unfolding valid_seen
  check_snapshot team user now d = do
    ensure (d.version == state_version && text_eq d.team team && text_eq d.user user)
        identity_mismatch
    ensure (leb (length d.channels) max_channels && leb (length d.seen) max_seen) too_many_entries
    threads ← check_channels now 0 d.channels
    ensure (leb threads max_threads) too_many_threads
    ensure (all valid_seen d.seen) invalid_duplicates
    ok d

  module _ (decode : Bytes → Option Snapshot) where
    abbrev parse : Bytes → Result OpenError Snapshot
    parse bytes = elim (decode bytes) [ none ↦ err invalid_state | some d ↦ ok d ]

    -- The checks of the bytes that were read.
    unfoldable pub accept : Text → Text → ℤ → Bytes → Result OpenError Snapshot
    unfolding check_snapshot
    accept team user now bytes = do
      ensure (leb (length bytes) max_state_bytes) too_large
      d ← parse bytes
      check_snapshot team user now d

    -- One byte more than the limit is read at most.
    unfoldable pub read_state : Text → Text → ℤ → StateFile → Result OpenError Snapshot
    unfolding accept
    read_state team user now (found content) =
        accept team user now (take (max_state_bytes + 1) content)
    read_state team user now not_found =
        ok (record { version = state_version; team = team; user = user; channels = []; seen = [] })
    read_state team user now unreadable = err unreadable_state

    unfoldable pub open_store : ℕ → Text → Text → ℤ → Files → Result OpenError Store
    unfolding read_state
    open_store window_seconds team user now files = do
      ensure (valid_id team && valid_id user) invalid_identity
      ensure files.directory_created no_directory
      ensure files.lock_opened no_lock
      ensure files.lock_taken already_in_use
      d ← read_state team user now files.state
      ok (record { snapshot = d; window = as_i64 window_seconds })

-- What serde stores: a channel's `recovering` and `failed` are marked `#[serde(skip)]`, and read
-- back as `false`.
abbrev pub persisted_channel : Channel → Channel
persisted_channel c = record c { recovering = false; failed = false }

abbrev pub persisted : Snapshot → Snapshot
persisted d = record d { channels = map_values persisted_channel d.channels }

pub data SaveError : Type 0 where
  not_serialised oversized write_failed : SaveError

module _ (encode : Snapshot → Option Bytes) where
  -- The new state is written beside the old one and renamed over it: the file changes only if every
  -- step (`written`) succeeds.
  unfoldable pub save : Bool → Store → StateFile → Result SaveError (Unit {0}) × StateFile
  save written s disk = elim (encode s.snapshot) [
    | none ↦ (err not_serialised, disk)
    | some bytes ↦
        if leb (length bytes) max_state_bytes
        then (if written then (ok tt, found bytes) else (err write_failed, disk))
        else (err oversized, disk)
  ]
