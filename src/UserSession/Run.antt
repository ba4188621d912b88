-- ===== src/UserSession/Run.antt =====
-- `Bot::run_user_sessions` of src/slackbot/user_session.rs: the start of the sessions one after
-- another, the end of the run, and the last save of each session's state. What the sessions do in
-- between is an argument: their saves, and the stores as they leave them.
pub mod Locks
pub mod Saves
pub mod Saved
use sjmb_slack.Prelude.{
  ℕ, zero, suc, ◌≡◌, Bool, true, false, not, ◌&&◌, List, [], ◌∷◌, ◌++◌, Option, none, some, any,
  if◌then◌else◌,
}
use sjmb_slack.Prelude.Int.{ℤ}
use sjmb_slack.Prelude.Text.{Text, codes, text_eq}
use sjmb_slack.Prelude.Result.{Result, ok, err}
use sjmb_slack.State.{Snapshot}
use sjmb_slack.State.Store.{Store}
use sjmb_slack.State.Store.Disk.{Bytes, StateFile, Files, OpenError, SaveError, open_store, save}
use sjmb_slack.UserSession.Json.{Value}
use sjmb_slack.UserSession.Events.{ApiError}
use sjmb_slack.UserSession.Connection.{AuthAttempt, IdentityError, authenticate, identify}

-- `Path::join` of a relative name without separators, on Unix.
abbrev pub join_path : Text → Text → Text
join_path [] name = name
join_path (c ∷ []) name = if text_eq (c ∷ []) (codes "/") then c ∷ name else c ∷ codes "/" ++ name
join_path (c ∷ d ∷ cs) name = c ∷ join_path (d ∷ cs) name

-- The directory of the states: a dry run has one of its own.
unfoldable pub recovery_dir : Bool → Text → Text
recovery_dir dry_run dir = if dry_run then join_path dir (codes "probe") else dir

-- The state file of an account.
unfoldable pub state_path : Text → Text → Text → Text
state_path dir team user = join_path dir (team ++ codes "-" ++ user ++ codes ".json")

abbrev pub Disk : Type 0
Disk = Text → StateFile

abbrev pub put : Text → StateFile → Disk → Disk
put path file disk q = if text_eq q path then file else disk q

-- A session that was started: its name for a file, which it has locked, and its store.
pub record Started : Type 0 where
  pub path : Text
  pub store : Store

-- What the start of a session meets: the building of the clients, the answers to `auth.test`, the clock,
-- the directory and the lock file, and whether no other process has the lock.
pub record Login : Type 0 where
  pub api_built : Bool
  pub attempts : List AuthAttempt
  pub clock : ℤ
  pub directory_created : Bool
  pub lock_opened : Bool
  pub lock_free : Bool
  pub client_built : Bool

pub data RunError : Type 0 where
  no_database no_regex no_client worker_stopped other_error : RunError
  login_refused : ApiError → RunError
  from_identity : IdentityError → RunError
  from_open : OpenError → RunError
  from_save : SaveError → RunError

-- How far a start gets.
pub data Start : Type 0 where
  waiting : Start
  start_failed : RunError → Start
  started : Started → Start

module _ (in_range : ℕ → Bool) (decode : Bytes → Option Snapshot) (window : ℕ) (dir : Text)
    (disk : Disk) where
  -- An OS lock that another session of the run holds is not free either.
  abbrev pub files_for : List Text → Login → Text → Files
  files_for held l path = record {
    directory_created = l.directory_created;
    lock_opened = l.lock_opened;
    lock_taken = l.lock_free && not (any (text_eq path) held);
    state = disk path;
  }

  -- `Session::new` from the store on.
  unfoldable pub start_store : List Text → Login → Text → Text → Start
  start_store held l team user =
      let path = state_path dir team user in
      elim (open_store in_range decode window team user l.clock (files_for held l path)) [
        | err e ↦ start_failed (from_open e)
        | ok store ↦
            if l.client_built
            then started (record { path = path; store = store })
            else start_failed no_client
      ]

  abbrev pub start_account : List Text → Login → Value → Start
  start_account held l auth = elim (identify auth) [
    | err e ↦ start_failed (from_identity e)
    | ok ids ↦ start_store held l ids.0 ids.1
  ]

  -- `Session::new`.
  unfoldable pub start_session : List Text → Login → Start
  start_session held l =
      if not l.api_built then start_failed no_client else elim (authenticate 2 l.attempts).1 [
        | none ↦ waiting
        | some (err e) ↦ start_failed (login_refused e)
        | some (ok auth) ↦ start_account held l auth
      ]

  -- The loop over the workspaces: the sessions that were started, and the error that ended it.
  unfoldable pub start_sessions : List Text → List Login → List Started × Option RunError
  start_sessions held [] = ([], none)
  start_sessions held (l ∷ ls) = elim (start_session held l) [
    | waiting ↦ ([], none)
    | start_failed e ↦ ([], some e)
    | started s ↦ let later = start_sessions (s.path ∷ held) ls in (s ∷ later.0, later.1)
  ]

-- The branch of the select that ends the run, if it is not a start that failed.
pub data Ending : Type 0 where
  shut_down sessions_ended worker_ended : Result RunError (Unit {0}) → Ending

abbrev pub ending_result : Ending → Result RunError (Unit {0})
ending_result (shut_down r) = r
ending_result (sessions_ended r) = r
ending_result (worker_ended (ok u)) = err worker_stopped
ending_result (worker_ended (err e)) = err e

-- The result of the select; none, while the run goes on.
abbrev pub selected : Option Ending → Option RunError → Option (Result RunError (Unit {0}))
selected (some ending) failure = some (ending_result ending)
selected none (some e) = some (err e)
selected none none = none

module _ (encode : Snapshot → Option Bytes) (written : Text → Bool) where
  -- The last loop of the run: the first save that fails ends it.
  unfoldable pub save_all : List Started → Disk → Result SaveError (Unit {0}) × Disk
  save_all [] disk = (ok tt, disk)
  save_all (s ∷ rest) disk =
      let saved = save encode (written s.path) s.store (disk s.path) in
      let later = save_all rest (put s.path saved.1 disk) in
      elim saved.0 [ err e ↦ (err e, put s.path saved.1 disk) | ok _ ↦ later ]

  -- The end of a run whose select gave a result.
  unfoldable pub end_run :
      Result RunError (Unit {0}) → List Started → Disk → Result RunError (Unit {0}) × Disk
  end_run result sessions disk =
      let saved = save_all sessions disk in
      (elim saved.0 [ err e ↦ err (from_save e) | ok _ ↦ result ], saved.1)

-- The sessions with the stores that they have when the run ends.
abbrev pub progressed : (Text → Store → Store) → List Started → List Started
progressed progress [] = []
progressed progress (s ∷ ss) = record s { store = progress s.path s.store } ∷ progressed progress ss

-- A save of a session's state while the run goes on: which session it is, and its store then.
pub record RunSave : Type 0 where
  pub session : ℕ
  pub saved_store : Store
  pub save_written : Bool

abbrev pub nth : ℕ → List Started → Option Started
nth n [] = none
nth zero (s ∷ ss) = some s
nth (suc n) (s ∷ ss) = nth n ss

module _ (encode : Snapshot → Option Bytes) where
  abbrev pub save_started : Option Started → RunSave → Disk → Disk
  save_started none x disk = disk
  save_started (some s) x disk =
      put s.path (save encode x.save_written x.saved_store (disk s.path)).1 disk

  -- The disk after the saves of a run.
  abbrev pub saved_during : List Started → List RunSave → Disk → Disk
  saved_during ss [] disk = disk
  saved_during ss (x ∷ xs) disk = saved_during ss xs (save_started (nth x.session ss) x disk)

-- What a run meets: the database and the regex, the log-ins as far as they are answered, the end of the
-- select, the saves of the sessions until then, and the stores and the outcomes of the writes at its end.
pub record Course : Type 0 where
  pub database_started : Bool
  pub regex_set : Bool
  pub logins : List Login
  pub ending : Option Ending
  pub progress : Text → Store → Store
  pub saves : List RunSave
  pub written : Text → Bool

module _ (in_range : ℕ → Bool) (decode : Bytes → Option Snapshot) (encode : Snapshot → Option Bytes)
    (window : ℕ) (dry_run : Bool) (state_dir : Text) (disk : Disk) where
  abbrev pub sessions_of : Course → List Started × Option RunError
  sessions_of c =
      start_sessions in_range decode window (recovery_dir dry_run state_dir) disk [] c.logins

  -- The run's result, none while it goes on, and the disk.
  unfoldable pub run_user_sessions : Course → Option (Result RunError (Unit {0})) × Disk
  run_user_sessions c =
      let begun = sessions_of c in
      let left = saved_during encode begun.0 c.saves disk in
      if not c.database_started
      then (some (err no_database), disk)
      else if not c.regex_set
      then (some (err no_regex), disk)
      else elim (selected c.ending begun.1) [
        | none ↦ (none, left)
        | some result ↦
            let ended = end_run encode c.written result (progressed c.progress begun.0) left in
            (some ended.0, ended.1)
      ]
