-- ===== src/UserSession/Run/Saves.antt =====
-- The saves at the end of a run: which files they write.
use sjmb_slack.Prelude.{
  ℕ, zero, suc, none, ◌≡◌, refl, ◌∙◌, sym, subst, Bool, false, List, [], ◌∷◌, Option, some, All,
  inl, inr, arith, Option-cases,
}
use sjmb_slack.Prelude.Text.{Text, text_eq, text_eq_refl}
use sjmb_slack.Prelude.Result.{ok, Result-cases}
use sjmb_slack.State.{Snapshot}
use sjmb_slack.State.Store.Disk.{Bytes, StateFile, found, save}
use sjmb_slack.UserSession.Run.{
  Disk, put, Started, save_all, RunSave, nth, save_started, saved_during,
}
use sjmb_slack.UserSession.Run.Locks.{Distinct, NoneHas, Distinct-NoneHas}

put_same : (p : Text) (file : StateFile) (disk : Disk) → put p file disk p ≡ file
put_same p file disk = ground (arith, text_eq_refl p)

put_other :
    (p q : Text) (file : StateFile) (disk : Disk) → text_eq q p ≡ false → put p file disk q ≡ disk q
put_other p q file disk h = rw (h) refl

abbrev started_list : Option Started → List Started
started_list none = []
started_list (some s) = s ∷ []

NoneHas-nth :
    (p : Text) (n : ℕ) (ss : List Started) → NoneHas p ss → NoneHas p (started_list (nth n ss))
NoneHas-nth p n [] h = tt
NoneHas-nth p zero (s ∷ ss) h = (h.0, tt)
NoneHas-nth p (suc n) (s ∷ ss) h = NoneHas-nth p n ss h.1

module _ (encode : Snapshot → Option Bytes) (written : Text → Bool) where
  -- The session's file has its state.
  abbrev pub HasState : Disk → Started → Type 0
  HasState disk s =
      (bytes : Bytes) × (encode s.store.snapshot ≡ some bytes) × (disk s.path ≡ found bytes)

  pub save_all-keeps :
      (p : Text) (ss : List Started) (disk : Disk)
      → NoneHas p ss
      → (save_all encode written ss disk).1 p ≡ disk p
  unfolding save_all
  save_all-keeps p [] disk n = refl
  save_all-keeps p (s ∷ ss) disk n =
      let saved = save encode (written s.path) s.store (disk s.path) in
      let kept = put_other s.path p saved.1 disk n.0 in
      elim (Result-cases saved.0) [
        | inr (x, e) ↦ rw (e, save_all) kept
        | inl (u, e) ↦ rw (e, save_all) (save_all-keeps p ss (put s.path saved.1 disk) n.1 ∙ kept)
      ]

  save_has :
      (s : Started) (old : StateFile) (u : Unit {0})
      → (save encode (written s.path) s.store old).0 ≡ ok u
      → (bytes : Bytes) × (encode s.store.snapshot ≡ some bytes)
        × ((save encode (written s.path) s.store old).1 ≡ found bytes)
  unfolding save
  save_has s old u h = elim (Option-cases (encode s.store.snapshot)) [
    | inl bad ↦ ground arith
    | inr (bytes, good) ↦ (bytes, good, ground arith)
  ]

  save_all_goes_on :
      (s : Started) (ss : List Started) (disk : Disk) (u : Unit {0})
      → (save encode (written s.path) s.store (disk s.path)).0 ≡ ok u
      → save_all encode written (s ∷ ss) disk
        ≡ save_all encode written ss
            (put s.path (save encode (written s.path) s.store (disk s.path)).1 disk)
  unfolding save_all
  save_all_goes_on s ss disk u e = rw (e, save_all) refl

  pub save_all-HasState :
      (held : List Text) (ss : List Started) (disk : Disk)
      → Distinct held ss
      → (save_all encode written ss disk).0 ≡ ok tt
      → All (HasState (save_all encode written ss disk).1) ss
  unfolding save_all
  save_all-HasState held [] disk d h = tt
  save_all-HasState held (s ∷ ss) disk d h =
      let saved = save encode (written s.path) s.store (disk s.path) in
      let disk' = put s.path saved.1 disk in
      elim (Result-cases saved.0) [
        | inr (x, e) ↦ ground arith
        | inl (u, e) ↦
            let (bytes, encoded, file) = save_has s (disk s.path) u e in
            let others =
              Distinct-NoneHas s.path (s.path ∷ held) ss (ground (arith, text_eq_refl s.path))
                d.1 in
            let kept = save_all-keeps s.path ss disk' others in
            let went : (save_all encode written ss disk').0 ≡ ok tt = ground arith in
            subst (λ out. All (HasState out.1) (s ∷ ss)) (sym (save_all_goes_on s ss disk u e))
              (
                (bytes, encoded, kept ∙ put_same s.path saved.1 disk ∙ file),
                save_all-HasState (s.path ∷ held) ss disk' d.1 went,
              )
      ]

  started_keeps :
      (p : Text) (o : Option Started) (x : RunSave) (disk : Disk)
      → NoneHas p (started_list o)
      → save_started encode o x disk p ≡ disk p
  started_keeps p none x disk n = refl
  started_keeps p (some s) x disk n = put_other s.path p _ disk n.0

  pub during-keeps :
      (p : Text) (ss : List Started) (xs : List RunSave) (disk : Disk)
      → NoneHas p ss
      → saved_during encode ss xs disk p ≡ disk p
  during-keeps p ss [] disk n = refl
  during-keeps p ss (x ∷ xs) disk n =
      during-keeps p ss xs (save_started encode (nth x.session ss) x disk) n
      ∙ started_keeps p (nth x.session ss) x disk (NoneHas-nth p x.session ss n)
