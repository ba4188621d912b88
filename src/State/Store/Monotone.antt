-- ===== src/State/Store/Monotone.antt =====
-- No operation moves the watermark of a channel that it keeps backwards, and a failed channel is
-- frozen until it is retried.
use sjmb_slack.Prelude.{
  ℕ, ◌≡◌, refl, ap, Bool, true, false, ◌&&◌, ◌||◌, List, [], ◌∷◌, arith, ltb, length, Option, none,
  some, if◌then◌else◌, Bool-cases, inl, inr,
}
use sjmb_slack.Prelude.Int.{ℤ, ◌≤ℤ◌}
use sjmb_slack.Prelude.Text.{Text, text_eq, text_eq_iff}
use sjmb_slack.Prelude.Map.{Map, lookup, contains_key, modify, remove, retain_entries, map_some}
use sjmb_slack.Prelude.Result.{Result, ok, err}
use sjmb_slack.State.{Channel, Snapshot, max_channels, valid_id}
use sjmb_slack.State.Prune.{prune}
use sjmb_slack.State.Store.{
  Store, StoreError, new_channel, connect_channel, connect_channels, begin_connection, add_channel,
  retry_channel, forget_thread, track, track_valid, processed, remember_thread, failed, or_insert,
  contains, conclude,
}
use sjmb_slack.State.Store.Bounds.{
  Call, begins, adds, retries, forgets, processes, remembers, fails, finishes, checkpoints, step,
}
use sjmb_slack.State.Store.Progress.{
  Mark, mark, map_mark, mark_in, mark_of, mark_in-modify, map_some_id, mark-prune, mark-checkpoint,
  mark-finish_recovery, advance_mark, recovered_mark,
}
use sjmb_slack.State.Store.Kept.{
  Keeps, Keeps-connect_channels, Keeps-or_insert, Keeps-refl, lookup-or_insert, mark_in-connect,
}

-- A channel that is not among those of the new connection is gone; the others are kept.
abbrev pub Rises : Option Mark → Option Mark → Type 0
Rises (some a) (some b) = a.covered_until ≤ℤ b.covered_until
Rises _ _ = Unit

Rises-of_Keeps : (a b : Option Mark) → Keeps a b → Rises a b
Rises-of_Keeps none none h = tt
Rises-of_Keeps none (some b) h = tt
Rises-of_Keeps (some a) none h = absurd h
Rises-of_Keeps (some a) (some b) h = h

Rises-none : (a : Option Mark) → Rises a none
Rises-none none = tt
Rises-none (some a) = tt

lookup-retain_keys :
    (p : Text → Bool) (id : Text) (m : Map Channel)
    → lookup id (retain_entries (λ k _. p k) m) ≡ (if p id then lookup id m else none)
unfolding retain_entries
lookup-retain_keys p id [] = ground arith
lookup-retain_keys p id ((j, c) ∷ m) = ground (arith, lookup-retain_keys p id m, text_eq_iff j id)

-- The loop of `begin_connection` adds no channel but those of its list.
absent-connect_channels :
    (at window : ℤ) (ids : List Text) (m : Map Channel) (id : Text)
    → contains ids id ≡ false
    → mark_in m id ≡ none
    → mark_in (connect_channels at window ids m).1 id ≡ none
unfolding connect_channels
absent-connect_channels at window [] m id h absent = absent
absent-connect_channels at window (k ∷ ks) m id h absent =
    let other : text_eq k id ≡ false = ground arith in
    let gone : lookup id m ≡ none = ground arith in
    let next : mark_in
          (modify k (connect_channel at window (contains_key k m)) (or_insert k (new_channel at) m))
          id
        ≡ none =
      ground (
        arith,
        mark_in-connect at window k id (contains_key k m) (or_insert k (new_channel at) m),
        lookup-or_insert k id (new_channel at) m,
      ) in
    elim (Bool-cases (valid_id k)) [
      | inr bad ↦ rw bad absent
      | inl good ↦ elim (Bool-cases (contains_key k m || ltb (length m) max_channels)) [
        | inr full ↦ rw (good, full) absent
        | inl room ↦ rw (good, room) (absent-connect_channels at window ks _ id (ground arith) next)
      ]
    ]

pub mark-conclude :
    (at : ℤ) (s : Store) (r : Result StoreError (Unit {0}) × Map Channel) (id : Text)
    → mark_of (conclude at s r).1 id ≡ mark_in r.1 id
unfolding conclude
mark-conclude at s (ok u, m) id = mark-prune _ at s.window id
mark-conclude at s (err e, m) id = refl

Rises-begin :
    (ids : List Text) (at : ℤ) (s : Store) (id : Text)
    → Rises (mark_of s id) (mark_of (begin_connection ids at s).1 id)
unfolding begin_connection
Rises-begin ids at s id =
    let kept = retain_entries (λ id _. contains ids id) s.channels in
    let looked = lookup-retain_keys (contains ids) id s.channels in
    rw (mark-conclude at s (connect_channels at s.window ids kept) id)
      (elim (Bool-cases (contains ids id)) [
        | inl joined ↦
            let same : lookup id kept ≡ lookup id s.channels = rw (looked, joined) in
            rw (ap map_mark same) at
              (Rises-of_Keeps _ _ (Keeps-connect_channels at s.window ids kept id))
        | inr left ↦
            let gone : lookup id kept ≡ none = rw (looked, left) in
            rw (absent-connect_channels at s.window ids kept id left (ap map_mark gone))
              (Rises-none _)
      ])

pub mark_in-track_valid :
    (in_range : ℕ → Bool) (k : Text) (thread : Option Text) (at : ℤ) (m : Map Channel) (id : Text)
    → mark_in (track_valid in_range k thread at m) id ≡ mark_in m id
mark_in-track_valid in_range k none at m id = refl
mark_in-track_valid in_range k (some p) at m id =
    ground
      (arith, mark_in-modify (track p at) (λ x. x) (λ c. refl) k id m, map_some_id (mark_in m id))

Keeps-map_some :
    (g : Mark → Mark) (o : Option Mark)
    → ((k : Mark) → k.covered_until ≤ℤ (g k).covered_until)
    → Keeps o (map_some g o)
Keeps-map_some g none h = tt
Keeps-map_some g (some k) h = h k

Keeps-modify :
    (f : Channel → Channel) (g : Mark → Mark) (agree : (c : Channel) → mark (f c) ≡ g (mark c))
    → ((k : Mark) → k.covered_until ≤ℤ (g k).covered_until)
    → (k id : Text) (m : Map Channel) → Keeps (mark_in m id) (mark_in (modify k f m) id)
Keeps-modify f g agree h k id m =
    rw (mark_in-modify f g agree k id m) (elim (Bool-cases (text_eq k id)) [
      | inl hit ↦ rw hit (Keeps-map_some g _ h)
      | inr miss ↦ rw miss (Keeps-refl _)
    ])

Keeps-track_valid :
    (in_range : ℕ → Bool) (k : Text) (thread : Option Text) (at : ℤ) (data' : Snapshot)
    (m : Map Channel) (window pruned_at : ℤ) (id : Text)
    → data'.channels ≡ track_valid in_range k thread at m
    → Keeps (mark_in m id) (mark_in (prune data' pruned_at window).channels id)
Keeps-track_valid in_range k thread at data' m window pruned_at id e =
    rw (mark-prune data' pruned_at window id, e, mark_in-track_valid in_range k thread at m id)
      (Keeps-refl _)

Keeps-add_channel :
    (k : Text) (at : ℤ) (s : Store) (id : Text)
    → Keeps (mark_of s id) (mark_of (add_channel k at s).1 id)
unfolding add_channel
Keeps-add_channel k at s id =
    elim (Bool-cases
      (valid_id k && (contains_key k s.channels || ltb (length s.channels) max_channels))) [
        | inl room ↦ rw (room, add_channel) (Keeps-or_insert k id (new_channel at) s.channels)
        | inr full ↦ rw (full, add_channel) (Keeps-refl _)
      ]

-- No call moves the watermark of a channel that it keeps backwards, whether or not it succeeds.
pub step-Rises :
    (in_range : ℕ → Bool) (c : Call) (s : Store) (id : Text)
    → Rises (mark_of s id) (mark_of (step in_range c s) id)
unfolding retry_channel forget_thread processed remember_thread failed
step-Rises in_range (begins ids at) s id = Rises-begin ids at s id
step-Rises in_range (adds k at) s id = Rises-of_Keeps _ _ (Keeps-add_channel k at s id)
step-Rises in_range (retries k) s id = Rises-of_Keeps _ _ (
    Keeps-modify (λ c. record c { failed = false }) (λ x. record x { failed = false }) (λ c. refl)
      (λ x. omega arith) k id s.channels)
step-Rises in_range (forgets k ts) s id = Rises-of_Keeps _ _ (
    Keeps-modify (λ c. record c { threads = remove ts c.threads }) (λ x. x) (λ c. refl)
      (λ x. omega arith) k id s.channels)
step-Rises in_range (processes k ts thread at) s id =
    Rises-of_Keeps _ _ (Keeps-track_valid in_range k thread at _ s.channels s.window at id refl)
step-Rises in_range (remembers k parent at pruned_at) s id =
    Rises-of_Keeps _ _
      (Keeps-track_valid in_range k (some parent) at _ s.channels s.window pruned_at id refl)
step-Rises in_range (fails k) s id = Rises-of_Keeps _ _ (
    Keeps-modify (λ c. record c { failed = true }) (λ x. record x { failed = true }) (λ c. refl)
      (λ x. omega arith) k id s.channels)
step-Rises in_range (finishes k through) s id =
    rw (mark-finish_recovery k through s id) (elim (Bool-cases (text_eq k id)) [
      | inl hit ↦
          rw hit
            (Rises-of_Keeps _ _ (Keeps-map_some (recovered_mark through) _ (λ x. ground arith)))
      | inr miss ↦ rw miss (Rises-of_Keeps _ _ (Keeps-refl _))
    ])
step-Rises in_range (checkpoints through at) s id =
    rw (mark-checkpoint through at s id)
      (Rises-of_Keeps _ _ (Keeps-map_some (advance_mark through) _ (λ x. ground arith)))
