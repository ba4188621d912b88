-- ===== src/State/Store/Disk/Sound.antt =====
-- What `open` accepts, and where it comes from.
use sjmb_slack.Prelude.{
  ℕ, zero, suc, ◌+◌, ◌≤◌, ◌<◌, ◌≡◌, refl, ap, sym, subst, ◌∙◌, inl, inr, Bool, true, [], ◌∷◌,
  Option, some, length, all, take, arith, le→leb, Option-cases,
}
use sjmb_slack.Prelude.Int.{ℤ}
use sjmb_slack.Prelude.Text.{Text, text_eq_iff}
use sjmb_slack.Prelude.Map.{Map, keys}
use sjmb_slack.Prelude.Result.{ok, Result-cases}
use sjmb_slack.State.{Channel, Snapshot, state_version, max_state_bytes, valid_id, valid_ts}
use sjmb_slack.State.Prune.{thread_count}
use sjmb_slack.State.Prune.Total.{IsBounded}
use sjmb_slack.State.Store.{Store}
use sjmb_slack.State.Store.Disk.{
  Bytes, StateFile, Files, found, not_found, unreadable, as_i64, valid_checkpoint, check_channels,
  valid_seen, check_snapshot, accept, parse, read_state, open_store,
}

take_short : (n m : ℕ) (xs : Bytes) → n < m → length (take m xs) ≤ n → take m xs ≡ xs
take_short n zero xs few h = absurd (omega arith)
take_short n (suc m) [] few h = refl
take_short zero (suc m) (x ∷ xs) few h = absurd (omega (arith, h))
take_short (suc n) (suc m) (x ∷ xs) few h =
    ap (◌∷◌ x) (take_short n m xs (omega arith) (omega (arith, h)))

module _ (in_range : ℕ → Bool) where
  -- Every channel has a valid name, a watermark that is neither negative nor ahead of the clock by
  -- more than five minutes, and threads that are timestamps.
  abbrev pub ValidChannels : ℤ → Map Channel → Type 0
  ValidChannels now [] = Unit
  ValidChannels now ((id, c) ∷ m) =
      (valid_checkpoint now id c ≡ true)
      × (all (valid_ts in_range) (keys c.threads) ≡ true)
      × ValidChannels now m

  pub record IsSound (t u : Text) (now : ℤ) (d : Snapshot) : Type 0 where
    pub version : d.version ≡ state_version
    pub team : d.team ≡ t
    pub user : d.user ≡ u
    pub bounded : IsBounded d
    pub channels : ValidChannels now d.channels
    pub seen : all (valid_seen in_range) d.seen ≡ true

  check_channels_sound :
      (now : ℤ) (n k : ℕ) (m : Map Channel)
      → check_channels in_range now n m ≡ ok k
      → ValidChannels now m × (k ≡ n + thread_count m)
  unfolding check_channels
  check_channels_sound now n k [] h = (tt, ground arith)
  check_channels_sound now n k ((id, c) ∷ m) h =
      ground (arith, check_channels_sound now (n + length c.threads) k m)

  check_channels_complete :
      (now : ℤ) (n : ℕ) (m : Map Channel)
      → ValidChannels now m
      → check_channels in_range now n m ≡ ok (n + thread_count m)
  unfolding check_channels
  check_channels_complete now n [] v = ground arith
  check_channels_complete now n ((id, c) ∷ m) v =
      ground (arith, check_channels_complete now (n + length c.threads) m v.2)

  check_snapshot-IsSound :
      (t u : Text) (now : ℤ) (d e : Snapshot)
      → check_snapshot in_range t u now d ≡ ok e
      → (d ≡ e) × IsSound t u now e
  unfolding check_snapshot
  check_snapshot-IsSound t u now d e h =
      elim (Result-cases (check_channels in_range now 0 d.channels)) [
        | inl (k, good) ↦
            let facts = check_channels_sound now 0 k d.channels good in
            ground (arith, facts, text_eq_iff d.team t, text_eq_iff d.user u)
        | inr (x, bad) ↦ ground arith
      ]

  check_snapshot_complete :
      (t u : Text) (now : ℤ) (d : Snapshot)
      → IsSound t u now d
      → check_snapshot in_range t u now d ≡ ok d
  unfolding check_snapshot
  check_snapshot_complete t u now d s = ground (
    arith,
    check_channels_complete now 0 d.channels s.channels,
    text_eq_iff d.team t,
    text_eq_iff d.user u,
  )

  accept-IsSound :
      (decode : Bytes → Option Snapshot) (t u : Text) (now : ℤ) (bytes : Bytes) (d : Snapshot)
      → accept in_range decode t u now bytes ≡ ok d
      → IsSound t u now d
  unfolding accept
  accept-IsSound decode t u now bytes d h = elim (Option-cases (decode bytes)) [
    | inl bad ↦ ground arith
    | inr (e, good) ↦
        let checked : check_snapshot in_range t u now e ≡ ok d = ground arith in
        (check_snapshot-IsSound t u now e d checked).1
  ]

  pub accept_complete :
      (decode : Bytes → Option Snapshot) (t u : Text) (now : ℤ) (bytes : Bytes) (d : Snapshot)
      → length bytes ≤ max_state_bytes
      → decode bytes ≡ some d
      → IsSound t u now d
      → accept in_range decode t u now bytes ≡ ok d
  unfolding accept
  accept_complete decode t u now bytes d fits good sound =
      rw (le→leb _ _ fits, parse, good) (check_snapshot_complete t u now d sound)

  read_state-IsSound :
      (decode : Bytes → Option Snapshot) (t u : Text) (now : ℤ) (file : StateFile) (d : Snapshot)
      → read_state in_range decode t u now file ≡ ok d
      → IsSound t u now d
  unfolding read_state
  read_state-IsSound decode t u now (found content) d h = accept-IsSound decode t u now _ d h
  read_state-IsSound decode t u now not_found d h = ground arith
  read_state-IsSound decode t u now unreadable d h = cc

  -- Where a state comes from: there is no file and it is empty, or the whole file decodes to it.
  abbrev pub IsRead : (Bytes → Option Snapshot) → StateFile → Snapshot → Type 0
  IsRead decode not_found d = (d.channels ≡ []) × (d.seen ≡ [])
  IsRead decode (found content) d = (length content ≤ max_state_bytes) × (decode content ≡ some d)
  IsRead decode unreadable d = ⊥

  accept-IsRead :
      (decode : Bytes → Option Snapshot) (t u : Text) (now : ℤ) (bytes : Bytes) (d : Snapshot)
      → accept in_range decode t u now bytes ≡ ok d
      → (length bytes ≤ max_state_bytes) × (decode bytes ≡ some d)
  unfolding accept
  accept-IsRead decode t u now bytes d h = elim (Option-cases (decode bytes)) [
    | inl bad ↦ absurd (ground arith)
    | inr (e, good) ↦
        let checked : check_snapshot in_range t u now e ≡ ok d = ground arith in
        let same = (check_snapshot-IsSound t u now e d checked).0 in
        (ground arith, good ∙ ap some same)
  ]

  read_state-IsRead :
      (decode : Bytes → Option Snapshot) (t u : Text) (now : ℤ) (file : StateFile) (d : Snapshot)
      → read_state in_range decode t u now file ≡ ok d
      → IsRead decode file d
  unfolding read_state
  read_state-IsRead decode t u now (found content) d h =
      let (short, good) = accept-IsRead decode t u now (take (max_state_bytes + 1) content) d h in
      let whole = take_short max_state_bytes (max_state_bytes + 1) content (omega arith) short in
      (subst (λ c. length c ≤ max_state_bytes) whole short, ap decode (sym whole) ∙ good)
  read_state-IsRead decode t u now not_found d h = (ground arith, ground arith)
  read_state-IsRead decode t u now unreadable d h = absurd (ground arith)

  -- A state that `open` accepts is new and empty, where there is no file, or is what the whole file
  -- decodes to, unchanged; a file that cannot be read, decoded or accepted is no reason to start anew.
  -- Either way it passed every check: the account and version match, the limits hold, and every name,
  -- timestamp and watermark is valid. The lock was free.
  pub open-IsSound :
      (decode : Bytes → Option Snapshot) (window : ℕ) (t u : Text) (now : ℤ) (files : Files)
      (s : Store)
      → open_store in_range decode window t u now files ≡ ok s
      → IsSound t u now s.snapshot
        × (valid_id t ≡ true)
        × (valid_id u ≡ true)
        × (files.lock_taken ≡ true)
        × (s.window ≡ as_i64 window)
        × IsRead decode files.state s.snapshot
  unfolding open_store
  open-IsSound decode window t u now files s h =
      elim (Result-cases (read_state in_range decode t u now files.state)) [
        | inl (d, good) ↦
            let sound = read_state-IsSound decode t u now files.state d good in
            let read = read_state-IsRead decode t u now files.state d good in
            let same : d ≡ s.snapshot = ground arith in
            (
              subst (IsSound t u now) same sound,
              ground arith,
              ground arith,
              ground arith,
              ground arith,
              subst (IsRead decode files.state) same read,
            )
        | inr (x, bad) ↦ absurd (ground arith)
      ]
