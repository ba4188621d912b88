-- ===== src/UserSession/Recovery/Own.antt =====
-- The messages of a history are messages of the channel that recovers.
use sjmb_slack.Prelude.{
  ℕ, ◌≡◌, refl, sym, ap, subst, if◌then◌else◌, ◌∙◌, Bool, false, Option, none, some, arith,
  Bool-cases, Option-cases, inl, inr,
}
use sjmb_slack.Prelude.Text.{Text, codes, text_eq, text_eq_refl, text_eq→eq}
use sjmb_slack.Limits.Counters.{Counters}
use sjmb_slack.Bot.Intake.{MessageEvent}
use sjmb_slack.UserSession.Json.{Value, text, Fields, no_fields, field, find_field, at_key, as_str}
use sjmb_slack.UserSession.Events.{Normal, normalise_at, normalise}
use sjmb_slack.UserSession.Process.Settled.{IsMessage}
use sjmb_slack.UserSession.Recovery.{set_field, has_field, default_field, completed}

-- What the codec of messages does with the channel: it is the string of that field.
abbrev pub KeepsChannel : (Value → Option MessageEvent) → Type 0
KeepsChannel decode =
    (v : Value) (m : MessageEvent)
    → decode v ≡ some m
    → m.channel ≡ as_str (at_key (codes "channel") v)

find-set : (k : Text) (v : Value) (fs : Fields) → find_field k (set_field k v fs) ≡ v
find-set k v no_fields = ground (arith, text_eq_refl k)
find-set k v (field j w rest) = elim (Bool-cases (text_eq j k)) [
  | inl same ↦ rw (same, text_eq_refl k) refl
  | inr other ↦ rw (other, other) (find-set k v rest)
]

find-set_other :
    (k j : Text) (v : Value) (fs : Fields)
    → text_eq j k ≡ false
    → find_field k (set_field j v fs) ≡ find_field k fs
find-set_other k j v no_fields h = rw h refl
find-set_other k j v (field i w rest) h = elim (Bool-cases (text_eq i j)) [
  | inl same ↦
      let passed : text_eq i k ≡ false =
        subst (λ x. text_eq x k ≡ false) (sym (text_eq→eq i j same)) h in
      rw (same, passed, h) refl
  | inr other ↦ rw other (ap (λ r. if text_eq i k then w else r) (find-set_other k j v rest h))
]

find-default :
    (k j : Text) (v : Value) (fs : Fields)
    → text_eq j k ≡ false
    → find_field k (default_field j v fs) ≡ find_field k fs
find-default k j v fs h = elim (Bool-cases (has_field j fs)) [
  | inl there ↦ rw there refl
  | inr new ↦ rw new (find-set_other k j v fs h)
]

completed_bare :
    (id : Text) (fs : Fields) → as_str (at_key (codes "channel") (completed id none fs)) ≡ some id
completed_bare id fs = ap as_str (
    find-default (codes "channel") (codes "type") (text (codes "message"))
      (set_field (codes "channel") (text id) fs) refl
    ∙ find-set (codes "channel") (text id) fs)

pub completed-channel :
    (id : Text) (thread : Option Text) (fs : Fields)
    → as_str (at_key (codes "channel") (completed id thread fs)) ≡ some id
completed-channel id none fs = completed_bare id fs
completed-channel id (some thread) fs =
    ap as_str (
      find-default (codes "channel") (codes "thread_ts") (text thread)
        (default_field (codes "type") (text (codes "message"))
          (set_field (codes "channel") (text id) fs))
        refl)
    ∙ completed_bare id fs

module _ (in_range : ℕ → Bool) (decode : Value → Option MessageEvent) where
  normalise_at-decoded :
      (ts : Text) (v : Value) (c : Counters) (n : Normal)
      → (normalise_at in_range decode ts v c).0 ≡ some n
      → decode v ≡ some n.message
  unfolding normalise_at
  normalise_at-decoded ts v c n h = elim (Option-cases (decode v)) [
    | inl e ↦ absurd (ground arith)
    | inr (m, e) ↦ ground arith
  ]

  normalise-decoded :
      (v : Value) (c : Counters) (n : Normal)
      → (normalise in_range decode v c).0 ≡ some n
      → decode v ≡ some n.message
  unfolding normalise
  normalise-decoded v c n h = elim (Option-cases (as_str (at_key (codes "ts") v))) [
    | inl e ↦ absurd (ground arith)
    | inr (ts, e) ↦ normalise_at-decoded ts v c n (ground arith)
  ]

  -- A message of a history is of the channel that recovers.
  pub IsMessage-own :
      (v : Value) (id k : Text) (n : Normal)
      → KeepsChannel decode
      → as_str (at_key (codes "channel") v) ≡ some id
      → IsMessage in_range decode v k n
      → k ≡ id
  IsMessage-own v id k n keeps own ((c, e), channel) =
      let kept = keeps v n.message (normalise-decoded v c n e) in
      let same : some k ≡ some id = sym channel ∙ kept ∙ own in ground (arith, same)
