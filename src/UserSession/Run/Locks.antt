-- ===== src/UserSession/Run/Locks.antt =====
-- The sessions of a run have state files of their own.
use sjmb_slack.Prelude.{
  ℕ, ◌≡◌, refl, subst, Bool, true, false, List, [], ◌∷◌, Option, All, any, ◌⊎◌, inl, inr, arith,
  Option-cases, Bool-cases,
}
use sjmb_slack.Prelude.Text.{Text, text_eq, text_eq→eq}
use sjmb_slack.Prelude.Result.{Result-cases}
use sjmb_slack.State.{Snapshot}
use sjmb_slack.State.Store.{Store}
use sjmb_slack.State.Store.Disk.{Bytes, open_store}
use sjmb_slack.State.Store.Disk.Sound.{open-IsSound}
use sjmb_slack.UserSession.Json.{Value}
use sjmb_slack.UserSession.Connection.{authenticate, identify}
use sjmb_slack.UserSession.Run.{
  Disk, Started, Login, RunError, Start, waiting, start_failed, started, files_for, state_path,
  start_store, start_account, start_session, start_sessions, progressed,
}

-- No session has the file of one before it, or of one of those that are held.
abbrev pub Distinct : List Text → List Started → Type 0
Distinct held [] = Unit
Distinct held (s ∷ ss) = (any (text_eq s.path) held ≡ false) × Distinct (s.path ∷ held) ss

-- None of the sessions has the file.
abbrev pub NoneHas : Text → List Started → Type 0
NoneHas path = All (λ s. text_eq path s.path ≡ false)

abbrev pub Free : List Text → Start → Type 0
Free held (started s) = any (text_eq s.path) held ≡ false
Free held _ = Unit

Start-cases :
    (st : Start)
    → (st ≡ waiting)
      ⊎ (((x : RunError) × (st ≡ start_failed x)) ⊎ ((s : Started) × (st ≡ started s)))
Start-cases waiting = inl refl
Start-cases (start_failed x) = inr (inl (x, refl))
Start-cases (started s) = inr (inr (s, refl))

module _ (in_range : ℕ → Bool) (decode : Bytes → Option Snapshot) (window : ℕ) (dir : Text)
    (disk : Disk) where
  start_store-Free :
      (held : List Text) (l : Login) (team user : Text)
      → Free held (start_store in_range decode window dir disk held l team user)
  unfolding start_store
  start_store-Free held l team user =
      let path = state_path dir team user in
      let files = files_for in_range decode window dir disk held l path in
      elim (Result-cases (open_store in_range decode window team user l.clock files)) [
        | inr (x, e) ↦ rw (e, start_store) tt
        | inl (s, e) ↦
            let opened = open-IsSound in_range decode window team user l.clock files s e in
            elim (Bool-cases l.client_built) [
              | inl built ↦ rw (e, start_store, built) ground (arith, opened)
              | inr unbuilt ↦ rw (e, start_store, unbuilt) tt
            ]
      ]

  start_account-Free :
      (held : List Text) (l : Login) (auth : Value)
      → Free held (start_account in_range decode window dir disk held l auth)
  start_account-Free held l auth = elim (Result-cases (identify auth)) [
    | inr (x, e) ↦ rw (e, start_account) tt
    | inl (ids, e) ↦ rw (e, start_account) (start_store-Free held l ids.0 ids.1)
  ]

  start_session-Free :
      (held : List Text) (l : Login)
      → Free held (start_session in_range decode window dir disk held l)
  unfolding start_session
  start_session-Free held l = elim (Bool-cases l.api_built) [
    | inr unbuilt ↦ rw (unbuilt, start_session) tt
    | inl built ↦ elim (Option-cases (authenticate 2 l.attempts).1) [
      | inl silent ↦ rw (built, silent, start_session) tt
      | inr (r, answered) ↦ elim (Result-cases r) [
        | inr (x, e) ↦ rw (built, answered, e, start_session) tt
        | inl (auth, e) ↦ rw (built, answered, e, start_session) (start_account-Free held l auth)
      ]
    ]
  ]

  pub start_sessions-Distinct :
      (held : List Text) (ls : List Login)
      → Distinct held (start_sessions in_range decode window dir disk held ls).0
  unfolding start_sessions
  start_sessions-Distinct held [] = tt
  start_sessions-Distinct held (l ∷ ls) =
      let free = start_session-Free held l in
      elim (Start-cases (start_session in_range decode window dir disk held l)) [
        | inl e ↦ rw (e, start_sessions) tt
        | inr (inl (x, e)) ↦ rw (e, start_sessions) tt
        | inr (inr (s, e)) ↦
            let own : any (text_eq s.path) held ≡ false = subst (Free held) e free in
            rw (e, start_sessions) (own, start_sessions-Distinct (s.path ∷ held) ls)
      ]

pub progressed-Distinct :
    (progress : Text → Store → Store) (held : List Text) (ss : List Started)
    → Distinct held ss
    → Distinct held (progressed progress ss)
progressed-Distinct progress held [] d = tt
progressed-Distinct progress held (s ∷ ss) d =
    (d.0, progressed-Distinct progress (s.path ∷ held) ss d.1)

pub Distinct-NoneHas :
    (p : Text) (held : List Text) (ss : List Started)
    → any (text_eq p) held ≡ true
    → Distinct held ss
    → NoneHas p ss
Distinct-NoneHas p held [] h d = tt
Distinct-NoneHas p held (s ∷ ss) h d =
    let others = Distinct-NoneHas p (s.path ∷ held) ss (ground arith) d.1 in
    elim (Bool-cases (text_eq p s.path)) [
      | inr differs ↦ (differs, others)
      | inl same ↦
          let taken : any (text_eq s.path) held ≡ true =
            subst (λ q. any (text_eq q) held ≡ true) (text_eq→eq p s.path same) h in
          absurd (ground (arith, taken, d.0))
    ]

pub progressed-NoneHas :
    (progress : Text → Store → Store) (p : Text) (ss : List Started)
    → NoneHas p (progressed progress ss)
    → NoneHas p ss
progressed-NoneHas progress p [] h = tt
progressed-NoneHas progress p (s ∷ ss) (now, later) = (now, progressed-NoneHas progress p ss later)
