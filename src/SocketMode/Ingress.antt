-- ===== src/SocketMode/Ingress.antt =====
-- `Ingress` of src/slackbot/socket_mode.rs: duplicate detection and admission to the queue, under one
-- lock. What the queue answers to `try_send` is an argument.
pub mod Outcomes
pub mod Once
use sjmb_slack.Prelude.{
  ℕ, ◌≡◌, refl, ◌↔◌, Bool, true, false, not, ◌&&◌, List, [], ◌∷◌, Option, none, some, if◌then◌else◌,
  arith, Eq,
}
use sjmb_slack.Prelude.Text.{Text, text_eq, text_eq_iff}
use sjmb_slack.Prelude.Result.{Result, ok, err}
use sjmb_slack.Limits.Cache.{ExpiringCache, get, insert}
use sjmb_slack.Limits.Counters.{Counters, Counter, full, duplicates, bump}
use sjmb_slack.Bot.Workspace.{seconds}

-- The team, the app and the id of an event.
pub record EventKey : Type 0 where
  pub team : Text
  pub app : Text
  pub event_id : Text

abbrev pub key_eq : EventKey → EventKey → Bool
key_eq a b = text_eq a.team b.team && text_eq a.app b.app && text_eq a.event_id b.event_id

pub key_eq_iff : (a b : EventKey) → (key_eq a b ≡ true) ↔ (a ≡ b)
key_eq_iff a b =
    ground
      (arith, text_eq_iff a.team b.team, text_eq_iff a.app b.app, text_eq_iff a.event_id b.event_id)

instance abbrev pub key_Eq : Eq EventKey
key_Eq = record { beq = key_eq; beq_iff = key_eq_iff }

abbrev pub dedup_ttl : ℕ
dedup_ttl = seconds 900

pub record Ingress : Type 0 where
  pub accepting : Bool
  pub seen : ExpiringCache EventKey (Unit {0})
  pub counters : Counters

-- `try_send`: the message is in the queue, or the queue is full, or its receiver is gone.
pub data Sent : Type 0 where
  queued queue_full queue_closed : Sent

-- `RetryEventError`.
pub data RetryEventError : Type 0 where
  worker_unavailable : RetryEventError

-- What `enqueue` made of an event: its result, whether the message went into the queue, the state.
pub record Enqueued : Type 0 where
  pub result : Result RetryEventError (Unit {0})
  pub in_queue : Bool
  pub state : Ingress

-- The match on the answer of the queue. A full queue loses the message, which is no error.
unfoldable pub admit : EventKey → ℕ → Sent → Ingress → Enqueued
admit key now queued i = record {
  result = ok tt;
  in_queue = true;
  state = record i { seen = insert i.seen key tt now dedup_ttl };
}
admit key now queue_full i = record {
  result = ok tt;
  in_queue = false;
  state = record i { counters = bump full i.counters };
}
admit key now queue_closed i = record {
  result = err worker_unavailable;
  in_queue = false;
  state = i;
}

-- The branch on what the cache of seen events has, which the lookup may have tidied.
abbrev pub decide : EventKey → ℕ → Sent → Ingress → Option (Unit {0}) → Enqueued
decide key now sent i (some _) = record {
  result = ok tt;
  in_queue = false;
  state = record i { counters = bump duplicates i.counters };
}
decide key now sent i none = admit key now sent i

abbrev pub refused : Ingress → Enqueued
refused i = record { result = err worker_unavailable; in_queue = false; state = i }

unfoldable pub enqueue : EventKey → ℕ → Sent → Ingress → Enqueued
unfolding admit
enqueue key now sent i =
    if not i.accepting
    then refused i
    else let read = get i.seen key now in decide key now sent (record i { seen = read.1 }) read.0
