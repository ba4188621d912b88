-- ===== src/State/Store/Kept.antt =====
-- A present channel stays with its watermark.
use sjmb_slack.Prelude.{
  ◌≡◌, refl, Bool, false, ◌||◌, List, [], ◌∷◌, arith, ltb, length, Option, none, some,
  if◌then◌else◌, Bool-cases, inl, inr, Option-cases,
}
use sjmb_slack.Prelude.Int.{ℤ, ◌≤ℤ◌, ltb_ℤ, ◌-ℤ◌}
use sjmb_slack.Prelude.Text.{Text, text_eq, text_eq_iff}
use sjmb_slack.Prelude.Map.{
  Map, lookup, contains_key, modify, map_some, lookup-insert, contains_key-lookup,
}
use sjmb_slack.State.{Channel, max_channels, valid_id}
use sjmb_slack.State.Store.{new_channel, connect_channel, connect_channels, or_insert}
use sjmb_slack.State.Store.Progress.{Mark, mark_in, mark_in-modify}

-- A present channel stays, with a watermark that is no lower.
abbrev pub Keeps : Option Mark → Option Mark → Type 0
Keeps none after = Unit
Keeps (some a) none = ⊥
Keeps (some a) (some b) = a.covered_until ≤ℤ b.covered_until

pub Keeps-refl : (o : Option Mark) → Keeps o o
Keeps-refl none = tt
Keeps-refl (some a) = omega arith

Keeps-trans : (a b c : Option Mark) → Keeps a b → Keeps b c → Keeps a c
Keeps-trans none b c h g = tt
Keeps-trans (some a) none c h g = absurd h
Keeps-trans (some a) (some b) none h g = absurd g
Keeps-trans (some a) (some b) (some c) h g = omega arith

pub lookup-or_insert :
    (k id : Text) (c : Channel) (m : Map Channel)
    → lookup id (or_insert k c m)
      ≡ (if contains_key k m then lookup id m else if text_eq k id then some c else lookup id m)
lookup-or_insert k id c m = ground (arith, lookup-insert k id c m)

abbrev pub connect_mark : ℤ → ℤ → Bool → Mark → Mark
connect_mark at window existed k = record {
  covered_until = if ltb_ℤ k.covered_until (at -ℤ window) then at -ℤ window else k.covered_until;
  recovering = existed;
  failed = false;
}

-- What one round of the loop of `begin_connection` leaves of a channel.
pub mark_in-connect :
    (at window : ℤ) (k id : Text) (existed : Bool) (m : Map Channel)
    → mark_in (modify k (connect_channel at window existed) m) id ≡ (
        if text_eq k id
        then map_some (connect_mark at window existed) (mark_in m id)
        else mark_in m id)
unfolding connect_channel
mark_in-connect at window k id existed m =
    mark_in-modify (connect_channel at window existed) (connect_mark at window existed) (λ c. refl)
      k id m

pub Keeps-or_insert :
    (k id : Text) (c : Channel) (m : Map Channel)
    → Keeps (mark_in m id) (mark_in (or_insert k c m) id)
Keeps-or_insert k id c m = elim (Option-cases (lookup id m)) [
  | inl absent ↦ rw absent tt
  | inr (x, present) ↦
      let same : lookup id (or_insert k c m) ≡ some x =
        ground (arith, lookup-or_insert k id c m, contains_key-lookup k m, text_eq_iff k id) in
      rw (present, same) (omega arith)
]

Keeps-connect_mark :
    (at window : ℤ) (existed : Bool) (o : Option Mark)
    → Keeps o (map_some (connect_mark at window existed) o)
Keeps-connect_mark at window existed none = tt
Keeps-connect_mark at window existed (some a) = ground arith

Keeps-round :
    (at window : ℤ) (k id : Text) (existed : Bool) (c : Channel) (m : Map Channel)
    → Keeps
        (mark_in m id)
        (mark_in (modify k (connect_channel at window existed) (or_insert k c m)) id)
Keeps-round at window k id existed c m =
    Keeps-trans (mark_in m id) (mark_in (or_insert k c m) id) _ (Keeps-or_insert k id c m) (
      rw (mark_in-connect at window k id existed (or_insert k c m))
        (elim (Bool-cases (text_eq k id)) [
          | inl hit ↦ rw hit (Keeps-connect_mark at window existed _)
          | inr miss ↦ rw miss (Keeps-refl _)
        ]))

pub Keeps-connect_channels :
    (at window : ℤ) (ids : List Text) (m : Map Channel) (id : Text)
    → Keeps (mark_in m id) (mark_in (connect_channels at window ids m).1 id)
unfolding connect_channels
Keeps-connect_channels at window [] m id = Keeps-refl _
Keeps-connect_channels at window (k ∷ ks) m id = elim (Bool-cases (valid_id k)) [
  | inr bad ↦ rw bad (Keeps-refl _)
  | inl good ↦ elim (Bool-cases (contains_key k m || ltb (length m) max_channels)) [
    | inr full ↦ rw (good, full) (Keeps-refl _)
    | inl room ↦
        rw (good, room)
          (Keeps-trans (mark_in m id) _ _
            (Keeps-round at window k id (contains_key k m) (new_channel at) m)
            (Keeps-connect_channels at window ks _ id))
  ]
]
