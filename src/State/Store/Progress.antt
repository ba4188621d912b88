-- ===== src/State/Store/Progress.antt =====
-- How each operation moves the watermark `covered_until` of a channel, and with it the flags
-- `recovering` and `failed`.
use sjmb_slack.Prelude.{
  ◌-◌, ◌≡◌, refl, ap, ◌∙◌, Bool, false, ◌||◌, List, [], ◌∷◌, arith, Option, none, some,
  if◌then◌else◌, take,
}
use sjmb_slack.Prelude.Int.{ℤ, max_ℤ, ◌-ℤ◌}
use sjmb_slack.Prelude.Text.{Text, text_eq}
use sjmb_slack.Prelude.Map.{
  Map, lookup, modify, remove, map_values, map_some, lookup-modify, lookup-map_values,
}
use sjmb_slack.State.{Channel, Snapshot, max_threads}
use sjmb_slack.State.Prune.{
  Tracked, prune, thread_count, cap_threads, forget_all, forget, drop_old_threads, sort, tracked,
}
use sjmb_slack.State.Store.{Store, finish_recovery, checkpoint, recovered, advance}

pub record Mark : Type 0 where
  pub covered_until : ℤ
  pub recovering : Bool
  pub failed : Bool

abbrev pub mark : Channel → Mark
mark c = record { covered_until = c.covered_until; recovering = c.recovering; failed = c.failed }

abbrev pub map_mark : Option Channel → Option Mark
map_mark none = none
map_mark (some c) = some (mark c)

-- The mark of a channel, if the store has the channel.
abbrev pub mark_in : Map Channel → Text → Option Mark
mark_in m id = map_mark (lookup id m)

abbrev pub mark_of : Store → Text → Option Mark
mark_of s id = mark_in s.channels id

-- What a change of a channel does to its mark.
module _ (f : Channel → Channel) (g : Mark → Mark)
    (agree : (c : Channel) → mark (f c) ≡ g (mark c)) where
  pub map_mark_some : (o : Option Channel) → map_mark (map_some f o) ≡ map_some g (map_mark o)
  map_mark_some none = refl
  map_mark_some (some c) = ap some (agree c)

  pub mark_in-modify :
      (k id : Text) (m : Map Channel)
      → mark_in (modify k f m) id
        ≡ (if text_eq k id then map_some g (mark_in m id) else mark_in m id)
  mark_in-modify k id m = ground (arith, lookup-modify k id f m, map_mark_some (lookup id m))

  pub mark_in-map_values :
      (id : Text) (m : Map Channel) → mark_in (map_values f m) id ≡ map_some g (mark_in m id)
  mark_in-map_values id m = ground (arith, lookup-map_values id f m, map_mark_some (lookup id m))

pub map_some_id : (o : Option Mark) → map_some (λ c. c) o ≡ o
map_some_id none = refl
map_some_id (some c) = refl

mark_in-forget_all :
    (rs : List Tracked) (id : Text) (m : Map Channel) → mark_in (forget_all rs m) id ≡ mark_in m id
unfolding forget_all forget
mark_in-forget_all [] id m = refl
mark_in-forget_all (r ∷ rs) id m =
    mark_in-forget_all rs id (forget r.id r.ts m)
    ∙ ground (
      arith,
      mark_in-modify (λ c. record c { threads = remove r.ts c.threads }) (λ k. k) (λ c. refl) r.id
          id m,
      map_some_id (mark_in m id),
    )

mark_in-cap : (id : Text) (m : Map Channel) → mark_in (cap_threads m) id ≡ mark_in m id
unfolding cap_threads
mark_in-cap id m =
    ground (arith, mark_in-forget_all (take (thread_count m - max_threads) (sort (tracked m))) id m)

-- Pruning forgets threads and messages, and leaves every mark.
pub mark-prune :
    (s : Snapshot) (at window : ℤ) (id : Text)
    → mark_in (prune s at window).channels id ≡ mark_in s.channels id
unfolding prune drop_old_threads
mark-prune s at window id =
    mark_in-cap id (map_values (drop_old_threads (at -ℤ window)) s.channels)
    ∙ mark_in-map_values (drop_old_threads (at -ℤ window)) (λ k. k) (λ c. refl) id s.channels
    ∙ map_some_id (mark_in s.channels id)

abbrev pub advance_mark : ℤ → Mark → Mark
advance_mark through k =
    if k.recovering || k.failed
    then k
    else record k { covered_until = max_ℤ k.covered_until through }

-- A checkpoint raises the watermark of every channel that neither recovers nor failed, and leaves
-- the marks of the others as they are.
pub mark-checkpoint :
    (through at : ℤ) (s : Store) (id : Text)
    → mark_of (checkpoint through at s) id ≡ map_some (advance_mark through) (mark_of s id)
unfolding checkpoint
mark-checkpoint through at s id =
    mark-prune _ at s.window id
    ∙ mark_in-map_values (advance through) (advance_mark through) (λ c. ground arith) id s.channels

abbrev pub recovered_mark : ℤ → Mark → Mark
recovered_mark through k =
    if k.failed
    then k
    else record k { covered_until = max_ℤ k.covered_until through; recovering = false }

-- A finished recovery raises the watermark of its channel and ends its recovery, unless a message
-- of the channel failed meanwhile; no other channel changes.
pub mark-finish_recovery :
    (k : Text) (through : ℤ) (s : Store) (id : Text)
    → mark_of (finish_recovery k through s) id
      ≡ (if text_eq k id then map_some (recovered_mark through) (mark_of s id) else mark_of s id)
unfolding finish_recovery
mark-finish_recovery k through s id =
    mark_in-modify (recovered through) (recovered_mark through) (λ c. ground arith) k id s.channels
