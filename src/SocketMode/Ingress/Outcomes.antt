-- ===== src/SocketMode/Ingress/Outcomes.antt =====
-- How `enqueue` ends.
use sjmb_slack.Prelude.{
  ℕ, ◌+◌, ◌<◌, ◌≡◌, refl, sym, ap, ◌∙◌, ◌⊎◌, inl, inr, true, false, not, Option, none, some,
  if◌then◌else◌, arith, subst, Bool-cases, Option-cases, lt→ltb,
}
use sjmb_slack.Prelude.Result.{ok, err}
use sjmb_slack.Limits.Cache.{get, insert}
use sjmb_slack.Limits.Cache.Reads.{get-insert_self}
use sjmb_slack.Limits.Counters.{full, duplicates, bump}
use sjmb_slack.SocketMode.Ingress.{
  EventKey, key_Eq, dedup_ttl, Ingress, Sent, queued, queue_full, queue_closed, worker_unavailable,
  Enqueued, admit, decide, refused, enqueue,
}

-- The state after the lookup, and the decision there.
abbrev pub looked : EventKey → ℕ → Ingress → Ingress
looked key now i = record i { seen = (get i.seen key now).1 }

module _ (key : EventKey) (now : ℕ) (sent : Sent) (i : Ingress) where
  pub enqueue-decide :
      (o : Option (Unit {0}))
      → i.accepting ≡ true
      → (get i.seen key now).0 ≡ o
      → enqueue key now sent i ≡ decide key now sent (looked key now i) o
  unfolding enqueue
  enqueue-decide o up read =
      ap
        (λ b.
          if not b
          then refused i
          else decide key now sent (looked key now i) (get i.seen key now).0)
        up
      ∙ ap (decide key now sent (looked key now i)) read

  enqueue-down : i.accepting ≡ false → enqueue key now sent i ≡ refused i
  unfolding enqueue
  enqueue-down down =
      ap
        (λ b.
          if not b
          then refused i
          else decide key now sent (looked key now i) (get i.seen key now).0)
        down

-- What one delivery of an event may come to: it is queued, or it is counted as a duplicate or as
-- lost to a full queue, or Slack is asked to deliver it again.
pub data Outcome (key : EventKey) (now : ℕ) (i : Ingress) (r : Enqueued) : Type 0 where
  entered :
      r.result ≡ ok tt
      → r.in_queue ≡ true
      → r.state.counters ≡ i.counters
      → (get i.seen key now).0 ≡ none
      → r.state.seen ≡ insert (get i.seen key now).1 key tt now dedup_ttl
      → Outcome key now i r
  duplicate :
      r.result ≡ ok tt
      → r.in_queue ≡ false
      → r.state.counters ≡ bump duplicates i.counters
      → (get i.seen key now).0 ≡ some tt
      → r.state.seen ≡ (get i.seen key now).1
      → Outcome key now i r
  lost :
      r.result ≡ ok tt
      → r.in_queue ≡ false
      → r.state.counters ≡ bump full i.counters
      → (get i.seen key now).0 ≡ none
      → r.state.seen ≡ (get i.seen key now).1
      → Outcome key now i r
  redelivered :
      r.result ≡ err worker_unavailable
      → r.in_queue ≡ false
      → r.state.counters ≡ i.counters
      → (r.state.seen ≡ i.seen) ⊎ (r.state.seen ≡ (get i.seen key now).1)
      → Outcome key now i r

admit-Outcome :
    (key : EventKey) (now : ℕ) (sent : Sent) (i : Ingress)
    → (get i.seen key now).0 ≡ none
    → Outcome key now i (admit key now sent (record i { seen = (get i.seen key now).1 }))
unfolding admit
admit-Outcome key now queued i fresh = entered refl refl refl fresh refl
admit-Outcome key now queue_full i fresh = lost refl refl refl fresh refl
admit-Outcome key now queue_closed i fresh = redelivered refl refl refl (inr refl)

-- Each delivery comes to exactly one of the four: no event is both queued and counted, and none goes
-- without a trace.
pub enqueue-Outcome :
    (key : EventKey) (now : ℕ) (sent : Sent) (i : Ingress)
    → Outcome key now i (enqueue key now sent i)
enqueue-Outcome key now sent i = elim (Bool-cases i.accepting) [
  | inr down ↦
      subst (Outcome key now i) (sym (enqueue-down key now sent i down))
        (redelivered refl refl refl (inl refl))
  | inl up ↦ elim (Option-cases (get i.seen key now).0) [
    | inl fresh ↦
        subst (Outcome key now i) (sym (enqueue-decide key now sent i none up fresh))
          (admit-Outcome key now sent i fresh)
    | inr (tt, known) ↦
        subst (Outcome key now i) (sym (enqueue-decide key now sent i (some tt) up known))
          (duplicate refl refl refl known refl)
  ]
]

admit-accepting :
    (key : EventKey) (now : ℕ) (sent : Sent) (i : Ingress)
    → (admit key now sent i).state.accepting ≡ i.accepting
unfolding admit
admit-accepting key now queued i = refl
admit-accepting key now queue_full i = refl
admit-accepting key now queue_closed i = refl

pub enqueue-accepting :
    (key : EventKey) (now : ℕ) (sent : Sent) (i : Ingress)
    → (enqueue key now sent i).state.accepting ≡ i.accepting
enqueue-accepting key now sent i = elim (Bool-cases i.accepting) [
  | inr down ↦ ap (λ r. r.state.accepting) (enqueue-down key now sent i down)
  | inl up ↦ elim (Option-cases (get i.seen key now).0) [
    | inl fresh ↦
        ap (λ r. r.state.accepting) (enqueue-decide key now sent i none up fresh)
        ∙ admit-accepting key now sent (record i { seen = (get i.seen key now).1 })
    | inr (tt, known) ↦
        ap (λ r. r.state.accepting) (enqueue-decide key now sent i (some tt) up known)
  ]
]

-- The only outcome of a queued event.
entered-seen :
    (key : EventKey) (now : ℕ) (i : Ingress) (r : Enqueued)
    → Outcome key now i r
    → r.in_queue ≡ true
    → (r.state.counters ≡ i.counters)
      × (r.state.seen ≡ insert (get i.seen key now).1 key tt now dedup_ttl)
entered-seen key now i r (entered done took same fresh seen) h = (same, seen)
entered-seen key now i r (duplicate done left more known kept) h = absurd (ground arith)
entered-seen key now i r (lost done left more fresh seen) h = absurd (ground arith)
entered-seen key now i r (redelivered denied left same kept) h = absurd (ground arith)

-- An event that was queued is not queued again when it is delivered again within 900 seconds: the
-- repetition is counted as a duplicate, and Slack is told that all is well.
pub enqueue-once :
    (key : EventKey) (now later : ℕ) (sent again : Sent) (i : Ingress)
    → i.accepting ≡ true
    → (enqueue key now sent i).in_queue ≡ true
    → later < now + dedup_ttl
    → ((enqueue key later again (enqueue key now sent i).state).in_queue ≡ false)
      × ((enqueue key later again (enqueue key now sent i).state).result ≡ ok tt)
      × ((enqueue key later again (enqueue key now sent i).state).state.counters
          ≡ bump duplicates i.counters)
enqueue-once key now later sent again i up took soon =
    let first = enqueue key now sent i in
    let (same, seen) = entered-seen key now i first (enqueue-Outcome key now sent i) took in
    let known : (get first.state.seen key later).0 ≡ some tt =
      ap (λ c. (get c key later).0) seen
      ∙ get-insert_self (get i.seen key now).1 key tt now dedup_ttl later
      ∙ ap (λ b. if b then some tt else none) (lt→ltb later (now + dedup_ttl) soon) in
    let again_seen =
      enqueue-decide key later again first.state (some tt) (enqueue-accepting key now sent i ∙ up)
        known in
    (
      ap (λ r. r.in_queue) again_seen,
      ap (λ r. r.result) again_seen,
      ap (λ r. r.state.counters) again_seen ∙ ap (bump duplicates) same,
    )
