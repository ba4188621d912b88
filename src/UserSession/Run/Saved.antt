-- ===== src/UserSession/Run/Saved.antt =====
-- What the end of a run leaves on the disk.
use sjmb_slack.Prelude.{ℕ, ◌≡◌, Bool, List, Option, some, All, ◌⊎◌}
use sjmb_slack.Prelude.Text.{Text}
use sjmb_slack.Prelude.Result.{Result, err}
use sjmb_slack.State.{Snapshot}
use sjmb_slack.State.Store.Disk.{Bytes, SaveError}
use sjmb_slack.UserSession.Run.{
  Disk, Started, RunError, progressed, from_save, selected, Course, end_run, sessions_of,
  saved_during,
}
use sjmb_slack.UserSession.Run.Saves.{HasState}

module _ (in_range : ℕ → Bool) (decode : Bytes → Option Snapshot) (encode : Snapshot → Option Bytes)
    (window : ℕ) (dry_run : Bool) (state_dir : Text) (disk : Disk) (c : Course) where
  abbrev pub sessions_at_end : List Started
  sessions_at_end =
      progressed c.progress (sessions_of in_range decode encode window dry_run state_dir disk c).0

  abbrev pub left : Disk
  left =
      saved_during encode (sessions_of in_range decode encode window dry_run state_dir disk c).0
        c.saves disk

  -- A run that got past its database and its regex: it failed to save, or every session that was
  -- started has its state in a file of its own and the result is that of the select.
  abbrev pub IsSaved : Result RunError (Unit {0}) → Disk → Type 0
  IsSaved result after =
      ((x : SaveError) × (result ≡ err (from_save x)))
      ⊎ (All (HasState encode c.written after) sessions_at_end
          × (selected c.ending
                (sessions_of in_range decode encode window dry_run state_dir disk c).1
              ≡ some result))

  abbrev pub ended_run : Result RunError (Unit {0}) → Result RunError (Unit {0}) × Disk
  ended_run r = end_run encode c.written r sessions_at_end left
