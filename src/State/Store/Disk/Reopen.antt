-- ===== src/State/Store/Disk/Reopen.antt =====
-- `open` accepts what `save` wrote.
use sjmb_slack.Prelude.{
  ℕ, zero, suc, ◌+◌, ◌≤◌, ◌≡◌, refl, ap, inl, inr, Bool, true, [], ◌∷◌, Option, some, leb, length,
  take, arith, leb→le, Bool-cases, Option-cases,
}
use sjmb_slack.Prelude.Int.{ℤ}
use sjmb_slack.Prelude.Text.{Text}
use sjmb_slack.Prelude.Map.{Map, map_values, length-map_values}
use sjmb_slack.Prelude.Result.{ok}
use sjmb_slack.State.{Channel, Snapshot, max_state_bytes, valid_id}
use sjmb_slack.State.Prune.{thread_count}
use sjmb_slack.State.Store.{Store}
use sjmb_slack.State.Store.Disk.{
  Bytes, StateFile, Files, as_i64, persisted, persisted_channel, valid_checkpoint, read_state,
  open_store, save,
}
use sjmb_slack.State.Store.Disk.Sound.{IsSound, ValidChannels, accept_complete}

take_all : (n : ℕ) (xs : Bytes) → length xs ≤ n → take n xs ≡ xs
take_all zero [] h = refl
take_all zero (x ∷ xs) h = absurd (omega arith)
take_all (suc n) [] h = refl
take_all (suc n) (x ∷ xs) h = ap (◌∷◌ x) (take_all n xs (omega arith))

module _ (in_range : ℕ → Bool) where
  persisted-ValidChannels :
      (now : ℤ) (m : Map Channel)
      → ValidChannels in_range now m
      → ValidChannels in_range now (map_values persisted_channel m)
  unfolding map_values valid_checkpoint
  persisted-ValidChannels now [] v = tt
  persisted-ValidChannels now ((id, c) ∷ m) v = (v.0, v.1, persisted-ValidChannels now m v.2)

  persisted-thread_count :
      (m : Map Channel) → thread_count (map_values persisted_channel m) ≡ thread_count m
  unfolding map_values
  persisted-thread_count [] = refl
  persisted-thread_count ((id, c) ∷ m) = ap (λ n. length c.threads + n) (persisted-thread_count m)

  persisted-IsSound :
      (t u : Text) (now : ℤ) (d : Snapshot)
      → IsSound in_range t u now d
      → IsSound in_range t u now (persisted d)
  persisted-IsSound t u now d s = record {
    version = s.version;
    team = s.team;
    user = s.user;
    bounded = record {
      channels = omega (arith, length-map_values persisted_channel d.channels, s.bounded.channels);
      threads = omega (arith, persisted-thread_count d.channels, s.bounded.threads);
      seen = s.bounded.seen;
    };
    channels = persisted-ValidChannels now d.channels s.channels;
    seen = s.seen;
  }

  module _ (encode : Snapshot → Option Bytes) (decode : Bytes → Option Snapshot) (s : Store)
      (codec : (bytes : Bytes)
        → encode s.snapshot ≡ some bytes
        → decode bytes ≡ some (persisted s.snapshot)) where
    saved_state :
        (t u : Text) (now : ℤ) (old : StateFile)
        → IsSound in_range t u now s.snapshot
        → (save encode true s old).0 ≡ ok tt
        → read_state in_range decode t u now (save encode true s old).1 ≡ ok (persisted s.snapshot)
    unfolding save read_state
    saved_state t u now old sound saved = elim (Option-cases (encode s.snapshot)) [
      | inl bad ↦ ground arith
      | inr (bytes, good) ↦ elim (Bool-cases (leb (length bytes) max_state_bytes)) [
        | inl fits ↦
            rw (good, save, fits)
              (rw (take_all (max_state_bytes + 1) bytes (omega (arith, leb→le _ _ fits))) (
                accept_complete in_range decode t u now bytes (persisted s.snapshot)
                  (leb→le _ _ fits) (codec bytes good)
                  (persisted-IsSound t u now s.snapshot sound)))
        | inr over ↦ ground arith
      ]
    ]

    -- Progress survives a restart. Where the codec reads back what it wrote, less the skipped flags,
    -- and `save` of a sound store succeeded, a later `open` for the account accepts the file and has
    -- the saved channels, watermarks, threads and processed messages, with all flags cleared.
    pub open-save :
        (window : ℕ) (t u : Text) (now : ℤ) (old : StateFile) (files : Files)
        → valid_id t ≡ true
        → valid_id u ≡ true
        → IsSound in_range t u now s.snapshot
        → (save encode true s old).0 ≡ ok tt
        → (files.directory_created ≡ true) × (files.lock_opened ≡ true) × (files.lock_taken ≡ true)
        → files.state ≡ (save encode true s old).1
        → open_store in_range decode window t u now files
          ≡ ok (record { snapshot = persisted s.snapshot; window = as_i64 window })
    unfolding open_store
    open-save window t u now old files vt vu sound saved free same =
        rw (vt, vu, free.0, free.1, free.2, same, saved_state t u now old sound saved)
