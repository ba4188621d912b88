-- ===== src/State/Prune/Kept.antt =====
-- Which threads `prune` forgets when there are too many.
use sjmb_slack.Prelude.{
  ℕ, zero, suc, ◌-◌, ◌<◌, ◌≡◌, sym, subst, List, [], ◌∷◌, ◌++◌, arith, length, take, drop, retain,
  All, take-append-drop, length-take, Perm, lt→ltb,
}
use sjmb_slack.Prelude.Map.{Map}
use sjmb_slack.State.{Channel, max_threads}
use sjmb_slack.State.Prune.{Tracked, tracked, thread_count, sort, cap_threads}
use sjmb_slack.State.Prune.Total.{length-tracked, length-sort, outside, tracked-forget_all}
use sjmb_slack.State.Prune.Order.{NoneBefore, IsSorted, sort-IsSorted, sort-perm}

-- In a sorted list nothing after the first `k` precedes one of them.
split_sorted :
    (k : ℕ) (xs : List Tracked) → IsSorted xs → All (λ r. NoneBefore r (drop k xs)) (take k xs)
split_sorted zero xs s = tt
split_sorted (suc k) [] s = tt
split_sorted (suc k) (x ∷ xs) s = (later k xs s.0, split_sorted k xs s.1)
  where
    later : (k : ℕ) (ys : List Tracked) → NoneBefore x ys → NoneBefore x (drop k ys)
    later zero ys n = n
    later (suc k) [] n = tt
    later (suc k) (y ∷ ys) n = later k ys n.1

-- Above the limit `cap_threads` forgets exactly as many threads as are too many, and they are the
-- oldest: the threads before split into those and the rest, no thread of the rest is older than a
-- forgotten one, and the threads after are those before less the forgotten.
pub cap_threads-forgets_oldest :
    (m : Map Channel)
    → max_threads < thread_count m
    → (gone : List Tracked) × (rest : List Tracked) × Perm (gone ++ rest) (tracked m)
      × (length gone ≡ thread_count m - max_threads)
      × All (λ r. NoneBefore r rest) gone
      × (tracked (cap_threads m) ≡ retain (outside gone) (tracked m))
unfolding cap_threads
cap_threads-forgets_oldest m h = (
  take k sorted,
  drop k sorted,
  subst (λ xs. Perm xs (tracked m)) (sym (take-append-drop k sorted)) (sort-perm (tracked m)),
  omega (arith, length-take k sorted, length-sort (tracked m), length-tracked m),
  split_sorted k sorted (sort-IsSorted (tracked m)),
  rw (lt→ltb _ _ h) (tracked-forget_all (take k sorted) m),
)
  where
    sorted : List Tracked
    sorted = sort (tracked m)

    k : ℕ
    k = thread_count m - max_threads
