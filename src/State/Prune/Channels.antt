-- ===== src/State/Prune/Channels.antt =====
-- Forgetting threads keeps the channels.
use sjmb_slack.Prelude.{◌-◌, ◌≡◌, refl, ◌∙◌, List, [], ◌∷◌, take, arith}
use sjmb_slack.Prelude.Map.{Map, keys, keys-modify}
use sjmb_slack.State.{Channel, max_threads}
use sjmb_slack.State.Prune.{Tracked, tracked, thread_count, sort, forget, forget_all, cap_threads}

keys-forget_all : (rs : List Tracked) (m : Map Channel) → keys (forget_all rs m) ≡ keys m
unfolding forget_all forget
keys-forget_all [] m = refl
keys-forget_all (r ∷ rs) m = keys-forget_all rs (forget r.id r.ts m) ∙ keys-modify r.id _ m

pub keys-cap : (m : Map Channel) → keys (cap_threads m) ≡ keys m
unfolding cap_threads
keys-cap m =
    ground (arith, keys-forget_all (take (thread_count m - max_threads) (sort (tracked m))) m)
