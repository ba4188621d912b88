-- ===== src/State/Prune.antt =====
-- `Store::prune` of src/slackbot/user_session/state.rs: what is forgotten after each change.
pub mod Order
pub mod Channels
pub mod Total
pub mod Kept
use sjmb_slack.Prelude.{
  ℕ, zero, suc, ◌+◌, ◌-◌, ◌≤◌, ◌<◌, ◌≡◌, refl, Bool, true, false, not, ◌&&◌, ◌||◌, List, [], ◌∷◌,
  ◌++◌, map, arith, ltb, length, take, retain, if◌then◌else◌,
}
use sjmb_slack.Prelude.Int.{ℤ, leb_ℤ, ltb_ℤ, ◌-ℤ◌}
use sjmb_slack.Prelude.Text.{Text, text_eq, text_ltb}
use sjmb_slack.Prelude.Map.{Map, map_values, modify, remove, retain_entries}
use sjmb_slack.State.{Channel, Seen, Snapshot, max_seen, max_threads, overlap}

-- `while data.seen.len() > MAX_SEEN { pop_front }`.
unfoldable pub trim : List Seen → List Seen
trim [] = []
trim (x ∷ xs) = let rest = trim xs in if ltb max_seen (length (x ∷ xs)) then rest else x ∷ xs

-- The triples `(*at, id.clone(), ts.clone())`.
pub record Tracked : Type 0 where
  pub at : ℤ
  pub id : Text
  pub ts : Text

abbrev pub tracked_in : Text → Map ℤ → List Tracked
tracked_in id [] = []
tracked_in id ((ts, at) ∷ m) = record { at = at; id = id; ts = ts } ∷ tracked_in id m

abbrev pub tracked : Map Channel → List Tracked
tracked [] = []
tracked ((id, c) ∷ m) = tracked_in id c.threads ++ tracked m

abbrev pub thread_count : Map Channel → ℕ
thread_count [] = 0
thread_count ((id, c) ∷ m) = length c.threads + thread_count m

-- The order of the triples: by time, then by channel, then by thread.
unfoldable pub tracked_ltb : Tracked → Tracked → Bool
tracked_ltb a b =
    ltb_ℤ a.at b.at
    || leb_ℤ a.at b.at
      && leb_ℤ b.at a.at
      && (text_ltb a.id b.id || text_eq a.id b.id && text_ltb a.ts b.ts)

-- `sort_unstable`, by insertion: the sorted order is the same by any method.
unfoldable pub sort_insert : Tracked → List Tracked → List Tracked
sort_insert x [] = x ∷ []
sort_insert x (y ∷ ys) = if tracked_ltb y x then y ∷ sort_insert x ys else x ∷ y ∷ ys

unfoldable pub sort : List Tracked → List Tracked
sort [] = []
sort (x ∷ xs) = sort_insert x (sort xs)

unfoldable pub forget : Text → Text → Map Channel → Map Channel
forget id ts channels = modify id (λ c. record c { threads = remove ts c.threads }) channels

unfoldable pub forget_all : List Tracked → Map Channel → Map Channel
forget_all [] channels = channels
forget_all (t ∷ ts) channels = forget_all ts (forget t.id t.ts channels)

-- The part of `prune` under `count > MAX_THREADS`.
unfoldable pub cap_threads : Map Channel → Map Channel
cap_threads channels =
    let count = thread_count channels in
    if ltb max_threads count
    then forget_all (take (count - max_threads) (sort (tracked channels))) channels
    else channels

unfoldable pub drop_old_threads : ℤ → Channel → Channel
drop_old_threads oldest c = record c {
  threads = retain_entries (λ ts at. leb_ℤ oldest at) c.threads;
}

unfoldable pub prune : Snapshot → ℤ → ℤ → Snapshot
prune data' at window = record data' {
  seen = trim (retain (λ s. leb_ℤ (at -ℤ window -ℤ overlap) s.processed_at) data'.seen);
  channels = cap_threads (map_values (drop_old_threads (at -ℤ window)) data'.channels);
}
