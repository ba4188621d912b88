-- ===== src/UserSession/Reader/Outcomes.antt =====
-- What a round of the reader's loop can do to the heartbeat and to the queue.
use sjmb_slack.Prelude.{ℕ, suc, ◌%◌, ◌^◌, ◌≡◌, true, false, ◌∷◌, Option, none, some, ◌-◌, ◌<◌, ◌⊎◌}
use sjmb_slack.Prelude.Text.{Text, codes, text_eq}
use sjmb_slack.Prelude.Result.{Result, ok, err}
use sjmb_slack.UserSession.Json.{Value, at_key, as_str, as_u64}
use sjmb_slack.UserSession.Reader.{
  live_message, live_checkpoint, Pending, Reader, Input, ticks, text_frame, ping_frame, other_frame,
  answers, is_live, ReadError, pong_timeout,
}

-- A reply that does not answer the ping on its way, if there is one.
abbrev pub Unanswered : Option ℕ → Option Pending → Type 0
Unanswered reply none = Unit
Unanswered reply (some p) = answers p reply ≡ false

-- An event of such a type has no effect: it is neither a live one nor an answer to the ping on its way.
abbrev pub NoEffect : Option Text → Value → Reader → Type 0
NoEffect none v r = Unit
NoEffect (some kind) v r =
    (is_live kind ≡ false)
    × ((text_eq kind (codes "pong") ≡ false)
        ⊎ Unanswered (as_u64 (at_key (codes "reply_to") v)) r.pending)

module _ (parse_json : Text → Option Value) where
  -- An input without an effect: a tick while a ping waits in time, a frame that is not JSON or has an
  -- event without effect, a ping that is answered, or a frame of another kind.
  abbrev pub IsIdle : Input → Reader → Type 0
  IsIdle (ticks instant sent wall written) r =
      (p : Pending) × (r.pending ≡ some p) × (instant - p.sent < pong_timeout)
  IsIdle (text_frame t) r =
      (parse_json t ≡ none)
      ⊎ ((v : Value) × (parse_json t ≡ some v) × NoEffect (as_str (at_key (codes "type") v)) v r)
  IsIdle (ping_frame written) r = written ≡ true
  IsIdle other_frame r = Unit
  IsIdle _ r = ⊥

  -- An input is a frame with this event, of this type.
  abbrev pub IsEvent : Input → Text → Value → Type 0
  IsEvent c kind v =
      (t : Text) × (c ≡ text_frame t)
      × (parse_json t ≡ some v)
      × (as_str (at_key (codes "type") v) ≡ some kind)

  -- The four things that a round without an error can be.
  pub data Effect (c : Input) (r s : Reader) : Type 0 where
    -- Neither the heartbeat nor the queue changes.
    idles : IsIdle c r → s.pending ≡ r.pending → s.queue.events ≡ r.queue.events → Effect c r s
    -- A ping is sent, with no other one on its way.
    pings :
        (instant : ℕ) (p : Pending)
        → c ≡ ticks instant p.sent p.at true
        → r.pending ≡ none
        → s.pending ≡ some p
        → p.id ≡ suc r.sequence % 2 ^ 64
        → s.queue.events ≡ r.queue.events
        → Effect c r s
    -- A live event is passed on.
    forwards :
        (kind : Text) (v : Value)
        → IsEvent c kind v
        → is_live kind ≡ true
        → s.pending ≡ r.pending
        → s.queue.events ≡ live_message v ∷ r.queue.events
        → Effect c r s
    -- The ping on its way is answered by a pong of its number or of none.
    confirms :
        (p : Pending) (v : Value)
        → IsEvent c (codes "pong") v
        → answers p (as_u64 (at_key (codes "reply_to") v)) ≡ true
        → r.pending ≡ some p
        → s.pending ≡ none
        → s.queue.events ≡ live_checkpoint p.at ∷ r.queue.events
        → Effect c r s

  -- The effect of a round; one that ends the loop passes nothing on.
  abbrev pub After : Input → Reader → Result ReadError (Unit {0}) × Reader → Type 0
  After c r (ok u, s) = Effect c r s
  After c r (err e, s) = s.queue.events ≡ r.queue.events
