-- ===== src/SocketMode/Ingress/Once.antt =====
-- Duplicates across other deliveries.
use sjmb_slack.Prelude.{
  ℕ, suc, ◌+◌, ◌<◌, ◌≡◌, refl, sym, ap, ◌∙◌, inl, inr, true, false, List, [], ◌∷◌, none, some,
  arith, subst, Bool-cases, length, All,
}
use sjmb_slack.Prelude.Result.{ok}
use sjmb_slack.Limits.Cache.{ExpiringCache, get}
use sjmb_slack.Limits.Cache.Remembered.{Remembers, get-Remembers, get-remembered, insert-Remembers}
use sjmb_slack.SocketMode.Ingress.{
  EventKey, key_eq, key_eq_iff, key_Eq, dedup_ttl, Ingress, Sent, Enqueued, enqueue,
}
use sjmb_slack.SocketMode.Ingress.Outcomes.{
  Outcome, entered, duplicate, lost, redelivered, enqueue-decide, enqueue-Outcome,
  enqueue-accepting,
}

pub record Delivery : Type 0 where
  pub key : EventKey
  pub now : ℕ
  pub sent : Sent

-- The deliveries one after another.
abbrev pub deliver_all : List Delivery → Ingress → Ingress
deliver_all [] i = i
deliver_all (d ∷ ds) i = deliver_all ds (enqueue d.key d.now d.sent i).state

less-Remembers :
    (k : EventKey) (until room : ℕ) (c : ExpiringCache EventKey (Unit {0}))
    → Remembers k tt until (suc room) c
    → Remembers k tt until room c
less-Remembers k until room c r = record { found = r.found; free = omega (arith, r.free) }

-- A key that is not there is another one.
other_key :
    (k j : EventKey) (now until room : ℕ) (c : ExpiringCache EventKey (Unit {0}))
    → now < until
    → Remembers k tt until room c
    → (get c j now).0 ≡ none
    → key_eq j k ≡ false
other_key k j now until room c soon r fresh = elim (Bool-cases (key_eq j k)) [
  | inr other ↦ other
  | inl same ↦
      let e = (key_eq_iff j k).0 same in
      let there = ap (λ x. (get c x now).0) e ∙ get-remembered k tt until room c now soon r in
      absurd (ground (arith, sym fresh ∙ there))
]

pub known_again :
    (k : EventKey) (now : ℕ) (sent : Sent) (i : Ingress)
    → i.accepting ≡ true
    → (get i.seen k now).0 ≡ some tt
    → ((enqueue k now sent i).in_queue ≡ false) × ((enqueue k now sent i).result ≡ ok tt)
known_again k now sent i up known =
    let e = enqueue-decide k now sent i (some tt) up known in
    (ap (λ r. r.in_queue) e, ap (λ r. r.result) e)

step-Remembers :
    (k : EventKey) (until room : ℕ) (d : Delivery) (i : Ingress) (r : Enqueued)
    → d.now < until
    → Remembers k tt until (suc room) i.seen
    → Outcome d.key d.now i r
    → Remembers k tt until room r.state.seen
step-Remembers k until room d i r soon known (entered done took same fresh seen) =
    let kept = get-Remembers k tt until (suc room) i.seen d.key d.now soon known in
    subst (Remembers k tt until room) (sym seen) (
      insert-Remembers k d.key tt tt until room d.now dedup_ttl (get i.seen d.key d.now).1
        (other_key k d.key d.now until (suc room) i.seen soon known fresh) kept)
step-Remembers k until room d i r soon known (duplicate done left more again seen) =
    subst (Remembers k tt until room) (sym seen) (
      get-Remembers k tt until room i.seen d.key d.now soon
        (less-Remembers k until room i.seen known))
step-Remembers k until room d i r soon known (lost done left more fresh seen) =
    subst (Remembers k tt until room) (sym seen) (
      get-Remembers k tt until room i.seen d.key d.now soon
        (less-Remembers k until room i.seen known))
step-Remembers k until room d i r soon known (redelivered denied left same (inl seen)) =
    subst (Remembers k tt until room) (sym seen) (less-Remembers k until room i.seen known)
step-Remembers k until room d i r soon known (redelivered denied left same (inr seen)) =
    subst (Remembers k tt until room) (sym seen) (
      get-Remembers k tt until room i.seen d.key d.now soon
        (less-Remembers k until room i.seen known))

pub deliver_all-Remembers :
    (k : EventKey) (until : ℕ) (ds : List Delivery) (room : ℕ) (i : Ingress)
    → All (λ d. d.now < until) ds
    → Remembers k tt until (length ds + room) i.seen
    → Remembers k tt until room (deliver_all ds i).seen
deliver_all-Remembers k until [] room i soon known =
    subst (λ n. Remembers k tt until n i.seen) (omega arith) known
deliver_all-Remembers k until (d ∷ ds) room i (now, later) known =
    deliver_all-Remembers k until ds room (enqueue d.key d.now d.sent i).state later (
      step-Remembers k until (length ds + room) d i (enqueue d.key d.now d.sent i) now
        (subst (λ n. Remembers k tt until n i.seen) (omega arith) known)
        (enqueue-Outcome d.key d.now d.sent i))

pub deliver_all-accepting :
    (ds : List Delivery) (i : Ingress) → (deliver_all ds i).accepting ≡ i.accepting
deliver_all-accepting [] i = refl
deliver_all-accepting (d ∷ ds) i =
    deliver_all-accepting ds (enqueue d.key d.now d.sent i).state
    ∙ enqueue-accepting d.key d.now d.sent i

-- An event in the cache of seen events stays a duplicate until its entry expires, whatever other
-- deliveries come between, as long as the cache has room for them: it is not queued again.
pub enqueue-remembered :
    (k : EventKey) (until : ℕ) (ds : List Delivery) (i : Ingress) (later : ℕ) (again : Sent)
    → i.accepting ≡ true
    → Remembers k tt until (length ds) i.seen
    → All (λ d. d.now < until) ds
    → later < until
    → ((enqueue k later again (deliver_all ds i)).in_queue ≡ false)
      × ((enqueue k later again (deliver_all ds i)).result ≡ ok tt)
enqueue-remembered k until ds i later again up known soon last =
    known_again k later again (deliver_all ds i) (deliver_all-accepting ds i ∙ up) (
      get-remembered k tt until 0 (deliver_all ds i).seen later last (
        deliver_all-Remembers k until ds 0 i soon
          (subst (λ n. Remembers k tt until n i.seen) (omega arith) known)))
