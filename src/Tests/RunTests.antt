-- ===== src/Tests/RunTests.antt =====
-- A run of the user sessions in which two workspaces log in to the same account.
use sjmb_slack.Prelude.{ℕ, ◌≡◌, refl, Bool, true, false, [], ◌∷◌, Option, none, some}
use sjmb_slack.Prelude.Int.{pos}
use sjmb_slack.Prelude.Text.{Text, codes}
use sjmb_slack.Prelude.Result.{Result, ok, err}
use sjmb_slack.State.{Snapshot, valid_id}
use sjmb_slack.State.Store.Disk.{
  Bytes, found, not_found, already_in_use, open_store, read_state, save,
}
use sjmb_slack.UserSession.Json.{Value, text, object, field, no_fields}
use sjmb_slack.UserSession.Connection.{authenticate, identify}
use sjmb_slack.UserSession.Run.{
  Disk, Login, Course, RunError, from_open, recovery_dir, state_path, start_store, start_session,
  start_sessions, save_all, end_run, run_user_sessions,
}

abbrev account : Value
account = object (
    field (codes "team_id") (text (codes "T1"))
      (field (codes "user_id") (text (codes "U1")) no_fields))

abbrev login : Login
login = record {
  api_built = true;
  attempts = record { answer = ok account; auth_jitter = 0 } ∷ [];
  clock = pos 100;
  directory_created = true;
  lock_opened = true;
  lock_free = true;
  client_built = true;
}

abbrev any_date : ℕ → Bool
any_date n = true

abbrev no_state : Bytes → Option Snapshot
no_state bytes = none

abbrev one_byte : Snapshot → Option Bytes
one_byte d = some (7 ∷ [])

abbrev no_files : Disk
no_files path = not_found

abbrev twice : Course
twice = record {
  database_started = true;
  regex_set = true;
  logins = login ∷ login ∷ [];
  ending = none;
  progress = λ path s. s;
  saves = [];
  written = λ path. true;
}

abbrev in_use : Result RunError (Unit {0})
in_use = err (from_open already_in_use)

writes_one :
    (run_user_sessions any_date no_state one_byte 3600 false (codes "state") no_files twice).1
      (codes "state/T1-U1.json")
    ≡ found (7 ∷ [])
unfolding run_user_sessions end_run save_all start_sessions start_session start_store authenticate
    identify open_store read_state save state_path recovery_dir valid_id
writes_one = refl

probes :
    state_path (recovery_dir true (codes "state")) (codes "T1") (codes "U1")
    ≡ codes "state/probe/T1-U1.json"
unfolding state_path recovery_dir
probes = refl
