-- ===== src/State/Prune/Total.antt =====
-- The bounds that `prune` enforces, whatever the state before.
use sjmb_slack.Prelude.{
  ℕ, suc, ◌-◌, ◌≤◌, ◌≡◌, refl, sym, ap, ◌∙◌, Bool, true, false, not, ◌&&◌, List, [], ◌∷◌, ◌++◌,
  arith, ltb, length, take, drop, retain, length-append, retain-append, length-drop, All,
  take-append-drop, length-retain-le, Bool-cases, inl, inr, ltb→lt, ltb_false→le,
}
use sjmb_slack.Prelude.Int.{ℤ, ◌-ℤ◌}
use sjmb_slack.Prelude.Text.{Text, text_eq, text_eq_refl}
use sjmb_slack.Prelude.Map.{
  Map, keys, keys-map_values, length-modify, length-map_values, map_values, modify, remove,
}
use sjmb_slack.State.{Channel, Seen, Snapshot, max_seen, max_threads, max_channels}
use sjmb_slack.State.Prune.Channels.{keys-cap}
use sjmb_slack.State.Prune.{
  trim, Tracked, tracked_in, tracked, thread_count, sort_insert, sort, forget, forget_all,
  cap_threads, prune, drop_old_threads,
}

pub length-trim-le : (xs : List Seen) → length (trim xs) ≤ max_seen
unfolding trim
length-trim-le [] = omega arith
length-trim-le (x ∷ xs) = ground (arith, length-trim-le xs)

-- `trim` keeps the newest entries, which stand at the end.
pub trim-eq-drop : (xs : List Seen) → trim xs ≡ drop (length xs - max_seen) xs
unfolding trim
trim-eq-drop [] = refl
trim-eq-drop (x ∷ xs) = elim (Bool-cases (ltb max_seen (length (x ∷ xs)))) [
  | inl over ↦
      let e : length (x ∷ xs) - max_seen ≡ suc (length xs - max_seen) =
        omega (arith, ltb→lt _ _ over) in
      rw (over, e) (trim-eq-drop xs)
  | inr fits ↦
      let e : length (x ∷ xs) - max_seen ≡ 0 = omega (arith, ltb_false→le _ _ fits) in rw (fits, e)
]

length-tracked_in : (id : Text) (m : Map ℤ) → length (tracked_in id m) ≡ length m
length-tracked_in id [] = refl
length-tracked_in id ((ts, at) ∷ m) = ap suc (length-tracked_in id m)

pub length-tracked : (m : Map Channel) → length (tracked m) ≡ thread_count m
length-tracked [] = refl
length-tracked ((id, c) ∷ m) = omega (
  arith,
  length-append (tracked_in id c.threads) (tracked m),
  length-tracked_in id c.threads,
  length-tracked m,
)

-- The threads that a removal of `id`/`ts` leaves.
abbrev pub other : Text → Text → Tracked → Bool
other id ts t = not (text_eq t.id id && text_eq t.ts ts)

retain-other_channel :
    (id ts j : Text) (m : Map ℤ)
    → text_eq j id ≡ false
    → retain (other id ts) (tracked_in j m) ≡ tracked_in j m
retain-other_channel id ts j [] h = refl
retain-other_channel id ts j ((x, at) ∷ m) h = ground (arith, retain-other_channel id ts j m h)

tracked_in-remove :
    (id ts j : Text) (m : Map ℤ)
    → text_eq j id ≡ true
    → tracked_in j (remove ts m) ≡ retain (other id ts) (tracked_in j m)
unfolding remove
tracked_in-remove id ts j [] h = refl
tracked_in-remove id ts j ((x, at) ∷ m) h = ground (arith, tracked_in-remove id ts j m h)

pub tracked-forget :
    (id ts : Text) (m : Map Channel) → tracked (forget id ts m) ≡ retain (other id ts) (tracked m)
unfolding forget modify
tracked-forget id ts [] = refl
tracked-forget id ts ((j, c) ∷ m) = rw retain-append (
    ground (
      arith,
      tracked-forget id ts m,
      retain-other_channel id ts j c.threads,
      tracked_in-remove id ts j c.threads,
    ))

-- The threads that the removal of a list leaves.
abbrev pub outside : List Tracked → Tracked → Bool
outside [] t = true
outside (r ∷ rs) t = other r.id r.ts t && outside rs t

retain-retain :
    (p q r : Tracked → Bool)
    → ((t : Tracked) → r t ≡ (p t && q t))
    → (xs : List Tracked) → retain q (retain p xs) ≡ retain r xs
retain-retain p q r h [] = refl
retain-retain p q r h (x ∷ xs) = ground (arith, h x, retain-retain p q r h xs)

pub tracked-forget_all :
    (rs : List Tracked) (m : Map Channel)
    → tracked (forget_all rs m) ≡ retain (outside rs) (tracked m)
unfolding forget_all
tracked-forget_all [] m = sym (retain_all (tracked m))
  where
    retain_all : (xs : List Tracked) → retain (outside []) xs ≡ xs
    retain_all [] = refl
    retain_all (x ∷ xs) = ap (◌∷◌ x) (retain_all xs)
tracked-forget_all (r ∷ rs) m =
    rw (tracked-forget_all rs (forget r.id r.ts m), tracked-forget r.id r.ts m)
      (retain-retain (other r.id r.ts) (outside rs) (outside (r ∷ rs)) (λ t. refl) (tracked m))

length-retain-insert :
    (p : Tracked → Bool) (x : Tracked) (ys : List Tracked)
    → length (retain p (sort_insert x ys)) ≡ length (retain p (x ∷ ys))
unfolding sort_insert
length-retain-insert p x [] = refl
length-retain-insert p x (y ∷ ys) = ground (arith, length-retain-insert p x ys)

length-retain-sort :
    (p : Tracked → Bool) (xs : List Tracked) → length (retain p (sort xs)) ≡ length (retain p xs)
unfolding sort
length-retain-sort p [] = refl
length-retain-sort p (x ∷ xs) =
    ground (arith, length-retain-insert p x (sort xs), length-retain-sort p xs)

length-insert : (x : Tracked) (ys : List Tracked) → length (sort_insert x ys) ≡ suc (length ys)
unfolding sort_insert
length-insert x [] = refl
length-insert x (y ∷ ys) = ground (arith, length-insert x ys)

pub length-sort : (xs : List Tracked) → length (sort xs) ≡ length xs
unfolding sort
length-sort [] = refl
length-sort (x ∷ xs) = ground (arith, length-insert x (sort xs), length-sort xs)

weaken :
    (r : Tracked) (rs xs : List Tracked)
    → All (λ t. outside rs t ≡ false) xs
    → All (λ t. outside (r ∷ rs) t ≡ false) xs
weaken r rs [] h = tt
weaken r rs (x ∷ xs) h = (ground arith, weaken r rs xs h.1)

pub outside_self : (rs : List Tracked) → All (λ t. outside rs t ≡ false) rs
outside_self [] = tt
outside_self (r ∷ rs) =
    (ground (arith, text_eq_refl r.id, text_eq_refl r.ts), weaken r rs rs (outside_self rs))

retain_none :
    (p : Tracked → Bool) (xs : List Tracked) → All (λ t. p t ≡ false) xs → retain p xs ≡ []
retain_none p [] h = refl
retain_none p (x ∷ xs) h = ground (arith, retain_none p xs h.1)

-- Forgetting the first `k` threads of the sorted order leaves at most the others.
thread_count-forget_first :
    (k : ℕ) (m : Map Channel)
    → thread_count (forget_all (take k (sort (tracked m))) m) ≤ thread_count m - k
thread_count-forget_first k m = omega (
  arith,
  sym (length-tracked (forget_all first m)),
  ap length (tracked-forget_all first m),
  sym (length-retain-sort (outside first) (tracked m)),
  ap (λ xs. length (retain (outside first) xs)) (sym (take-append-drop k sorted)),
  ap length (retain-append (outside first) first (drop k sorted)),
  ap (λ xs. length (xs ++ retain (outside first) (drop k sorted)))
      (retain_none (outside first) first (outside_self first)),
  length-retain-le (outside first) (drop k sorted),
  length-drop k sorted,
  length-sort (tracked m),
  length-tracked m,
)
  where
    sorted : List Tracked
    sorted = sort (tracked m)

    first : List Tracked
    first = take k sorted

pub thread_count-cap-le : (m : Map Channel) → thread_count (cap_threads m) ≤ max_threads
unfolding cap_threads
thread_count-cap-le m = elim (Bool-cases (ltb max_threads (thread_count m))) [
  | inl over ↦
      rw over
        (omega (arith, thread_count-forget_first (thread_count m - max_threads) m, ltb→lt _ _ over))
  | inr fits ↦ rw fits (ltb_false→le _ _ fits)
]

length-forget_all : (rs : List Tracked) (m : Map Channel) → length (forget_all rs m) ≡ length m
unfolding forget_all forget
length-forget_all [] m = refl
length-forget_all (r ∷ rs) m = length-forget_all rs (forget r.id r.ts m) ∙ length-modify r.id _ m

pub length-cap : (m : Map Channel) → length (cap_threads m) ≡ length m
unfolding cap_threads
length-cap m =
    ground (arith, length-forget_all (take (thread_count m - max_threads) (sort (tracked m))) m)

-- The limits on what a snapshot holds.
pub record IsBounded (s : Snapshot) : Type 0 where
  pub channels : length s.channels ≤ max_channels
  pub threads : thread_count s.channels ≤ max_threads
  pub seen : length s.seen ≤ max_seen

-- Whatever was tracked or remembered before, `prune` brings the threads and the remembered messages
-- within their limits, and it keeps the channels: the same ones in the same order, which are within
-- their limit if they were before.
pub prune-IsBounded :
    (s : Snapshot) (at window : ℤ)
    → length s.channels ≤ max_channels
    → IsBounded (prune s at window)
      × (length (prune s at window).channels ≡ length s.channels)
      × (keys (prune s at window).channels ≡ keys s.channels)
unfolding prune
prune-IsBounded s at window h =
    let same =
      length-cap (map_values (drop_old_threads (at -ℤ window)) s.channels)
      ∙ length-map_values _ s.channels in
    (
      record {
        channels = omega (arith, same, h);
        threads = thread_count-cap-le _;
        seen = length-trim-le _;
      },
      same,
      keys-cap (map_values (drop_old_threads (at -ℤ window)) s.channels)
          ∙ keys-map_values _ s.channels,
    )
