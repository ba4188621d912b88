-- ===== src/State/Store.antt =====
-- The operations of `Store` in src/slackbot/user_session/state.rs. The store is a record: its data
-- and the recovery window; an operation returns the new store beside its result. `open` and `save`
-- are in `State.Store.Disk`; the file lock and the path have no part in the operations here.
pub mod Disk
pub mod Bounds
pub mod Progress
pub mod Kept
pub mod Monotone
pub mod Frozen
pub mod Dedup
use sjmb_slack.Prelude.{
  ℕ, ◌≡◌, Bool, true, false, not, ◌&&◌, ◌||◌, List, [], ◌∷◌, ◌++◌, Option, none, some, ltb, length,
  any, if◌then◌else◌,
}
use sjmb_slack.Prelude.Int.{ℤ, ltb_ℤ, max_ℤ, ◌-ℤ◌}
use sjmb_slack.Prelude.Text.{Text, text_eq}
use sjmb_slack.Prelude.Map.{
  Map, lookup, contains_key, insert, remove, modify, map_values, retain_entries, keys,
}
use sjmb_slack.Prelude.Result.{Result, ok, err, ◌>>=◌}
use sjmb_slack.State.{Channel, Seen, Snapshot, max_channels, valid_id, valid_ts}
use sjmb_slack.State.Prune.{prune}

pub record Store : Type 0 where
  pub snapshot : Snapshot
  pub open snapshot use *
  pub window : ℤ

pub data StoreError : Type 0 where
  invalid_channel_id too_many_channels : StoreError

abbrev pub new_channel : ℤ → Channel
new_channel at = record { covered_until = at; threads = []; recovering = false; failed = false }

abbrev pub contains : List Text → Text → Bool
contains ids id = any (λ x. text_eq x id) ids

-- `entry(id).or_insert_with(...)`.
abbrev pub or_insert : Text → Channel → Map Channel → Map Channel
or_insert id c m = if contains_key id m then m else insert id c m

-- The mutations of one entry in the loop of `begin_connection`.
unfoldable pub connect_channel : ℤ → ℤ → Bool → Channel → Channel
connect_channel at window existed c = record c {
  recovering = existed;
  failed = false;
  covered_until = if ltb_ℤ c.covered_until (at -ℤ window) then at -ℤ window else c.covered_until;
}

-- The loop of `begin_connection`. What it wrote before an error stays written.
unfoldable pub connect_channels :
    ℤ → ℤ → List Text → Map Channel → Result StoreError (Unit {0}) × Map Channel
connect_channels at window [] m = (ok tt, m)
connect_channels at window (id ∷ ids) m =
    let existed = contains_key id m in
    let rest =
      connect_channels at window ids
        (modify id (connect_channel at window existed) (or_insert id (new_channel at) m)) in
    if not (valid_id id)
    then (err invalid_channel_id, m)
    else if existed || ltb (length m) max_channels
    then rest
    else (err too_many_channels, m)

abbrev with_channels : Store → Map Channel → Store
with_channels s m = record s { snapshot = record s.snapshot { channels = m } }

-- What follows the loop: the prune runs only if the loop succeeded.
unfoldable pub conclude :
    ℤ → Store → Result StoreError (Unit {0}) × Map Channel → Result StoreError (Unit {0}) × Store
conclude at s (ok _, m) =
    (ok tt, record s { snapshot = prune (record s.snapshot { channels = m }) at s.window })
conclude at s (err e, m) = (err e, with_channels s m)

unfoldable pub begin_connection : List Text → ℤ → Store → Result StoreError (Unit {0}) × Store
unfolding connect_channels connect_channel conclude
begin_connection ids at s =
    conclude at s
      (connect_channels at s.window ids (retain_entries (λ id _. contains ids id) s.channels))

unfoldable pub add_channel : Text → ℤ → Store → Result StoreError (Unit {0}) × Store
add_channel id at s =
    if valid_id id && (contains_key id s.channels || ltb (length s.channels) max_channels)
    then (ok tt, with_channels s (or_insert id (new_channel at) s.channels))
    else (err too_many_channels, s)

unfoldable pub recovery_channels : Store → Map Channel
recovery_channels s = retain_entries (λ _ c. c.recovering) s.channels

unfoldable pub threads : Text → Store → List Text
threads id s = elim (lookup id s.channels) [ none ↦ [] | some c ↦ keys c.threads ]

unfoldable pub retry_channel : Text → Store → Store
retry_channel id s = with_channels s (modify id (λ c. record c { failed = false }) s.channels)

unfoldable pub forget_thread : Text → Text → Store → Store
forget_thread id ts s =
    with_channels s (modify id (λ c. record c { threads = remove ts c.threads }) s.channels)

abbrev pub track : Text → ℤ → Channel → Channel
track parent at c = record c { threads = insert parent at c.threads }

module _ (in_range : ℕ → Bool) where
  -- The threads after the guarded insertion in `processed` and `remember_thread`.
  abbrev pub track_valid : Text → Option Text → ℤ → Map Channel → Map Channel
  track_valid id none at m = m
  track_valid id (some parent) at m =
      if valid_ts in_range parent then modify id (track parent at) m else m

  unfoldable pub processed : Text → Text → Option Text → ℤ → Store → Store
  processed channel ts thread at s = record s {
    snapshot =
        prune
          (record s.snapshot {
            seen = s.seen ++ record { channel = channel; ts = ts; processed_at = at } ∷ [];
            channels = track_valid channel thread at s.channels;
          })
          at s.window;
  }

  -- The clock is read twice: for the thread and for the prune.
  unfoldable pub remember_thread : Text → Text → ℤ → ℤ → Store → Store
  remember_thread id parent at pruned_at s = record s {
    snapshot =
        prune (record s.snapshot { channels = track_valid id (some parent) at s.channels })
          pruned_at s.window;
  }

abbrev pub same_message : Text → Text → Seen → Bool
same_message channel ts x = text_eq x.channel channel && text_eq x.ts ts

unfoldable pub seen : Text → Text → Store → Bool
seen channel ts s = any (same_message channel ts) s.seen

unfoldable pub failed : Text → Store → Store
failed id s = with_channels s (modify id (λ c. record c { failed = true }) s.channels)

unfoldable pub recovered : ℤ → Channel → Channel
recovered through c =
    if c.failed
    then c
    else record c { covered_until = max_ℤ c.covered_until through; recovering = false }

unfoldable pub finish_recovery : Text → ℤ → Store → Store
unfolding recovered
finish_recovery id through s = with_channels s (modify id (recovered through) s.channels)

unfoldable pub advance : ℤ → Channel → Channel
advance through c =
    if not c.recovering && not c.failed
    then record c { covered_until = max_ℤ c.covered_until through }
    else c

-- `at` is the clock reading that the prune takes.
unfoldable pub checkpoint : ℤ → ℤ → Store → Store
unfolding advance
checkpoint through at s = record s {
  snapshot =
      prune (record s.snapshot { channels = map_values (advance through) s.channels }) at s.window;
}
