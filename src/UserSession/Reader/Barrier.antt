-- ===== src/UserSession/Reader/Barrier.antt =====
-- A checkpoint is an ordered barrier: what came before its ping is before it in the queue.
use sjmb_slack.Prelude.{
  ℕ, suc, ◌≡◌, refl, sym, ap, ◌∙◌, true, List, [], ◌∷◌, ◌++◌, Option, none, some, append_assoc,
  subst,
}
use sjmb_slack.Prelude.Int.{ℤ}
use sjmb_slack.Prelude.Text.{Text}
use sjmb_slack.Prelude.Result.{ok}
use sjmb_slack.Limits.Counters.{Counters}
use sjmb_slack.Url.{Url}
use sjmb_slack.UserSession.Json.{Value}
use sjmb_slack.UserSession.Reader.{
  LiveEvent, live_message, live_checkpoint, Pending, Reader, Input, ticks, read, open_reader,
}
use sjmb_slack.UserSession.Reader.Outcomes.{Effect, idles, pings, forwards, confirms, After}
use sjmb_slack.UserSession.Reader.Effects.{read-After}

-- The consumer takes an event out of the queue, or is gone.
abbrev pub receive : Reader → Reader
receive r = record r { queue = record r.queue { received = suc r.queue.received } }

abbrev pub drop_receiver : Reader → Reader
drop_receiver r = record r { queue = record r.queue { receiver_gone = true } }

module _ (parse_url : Text → Option Url) (parse_json : Text → Option Value) (ticket : Option Text)
    (counters : Counters) where
  -- The loop at work: the inputs so far, and its state, with the consumer at any moment in between.
  pub data Reads : List Input → Reader → Type 0 where
    opened : Reads [] (open_reader ticket counters)
    reads :
        {h : List Input} {r s : Reader}
        → Reads h r
        → (c : Input) → read parse_url parse_json c r ≡ (ok tt, s)
        → Reads (h ++ c ∷ []) s
    receives : {h : List Input} {r : Reader} → Reads h r → Reads h (receive r)
    drops : {h : List Input} {r : Reader} → Reads h r → Reads h (drop_receiver r)

  -- A ping was sent at the time `at`, when the queue had taken in the events `early`, and no ping was
  -- on its way.
  pub record Pinged (h : List Input) (at : ℤ) (early : List LiveEvent) : Type 0 where
    pub before : List Input
    pub after : List Input
    pub instant : ℕ
    pub sent : ℕ
    pub split : h ≡ before ++ ticks instant sent at true ∷ after
    pub reader : Reader
    pub reached : Reads before reader
    pub free : reader.pending ≡ none
    pub queued : reader.queue.events ≡ early

  -- Events that came to the queue after some others; the newest first.
  abbrev pub Since : List LiveEvent → List LiveEvent → Type 0
  Since early events = (later : List LiveEvent) × (events ≡ later ++ early)

  -- For each checkpoint, its ping, with what the queue had taken in by then before the checkpoint.
  abbrev pub Barriers : List Input → List LiveEvent → Type 0
  Barriers h [] = Unit
  Barriers h (live_message v ∷ older) = Barriers h older
  Barriers h (live_checkpoint at ∷ older) =
      ((early : List LiveEvent) × Pinged h at early × Since early older) × Barriers h older

  abbrev Waits : List Input → Reader → Option Pending → Type 0
  Waits h r none = Unit
  Waits h r (some p) = (early : List LiveEvent) × Pinged h p.at early × Since early r.queue.events

  Pinged-snoc :
      (h : List Input) (at : ℤ) (early : List LiveEvent) (c : Input)
      → Pinged h at early
      → Pinged (h ++ c ∷ []) at early
  Pinged-snoc h at early c p = record {
    before = p.before;
    after = p.after ++ c ∷ [];
    instant = p.instant;
    sent = p.sent;
    split =
        ap (λ x. x ++ c ∷ []) p.split
        ∙ append_assoc p.before (ticks p.instant p.sent at true ∷ p.after) (c ∷ []);
    reader = p.reader;
    reached = p.reached;
    free = p.free;
    queued = p.queued;
  }

  Barriers-snoc :
      (h : List Input) (c : Input) (es : List LiveEvent) → Barriers h es → Barriers (h ++ c ∷ []) es
  Barriers-snoc h c [] b = tt
  Barriers-snoc h c (live_message v ∷ older) b = Barriers-snoc h c older b
  Barriers-snoc h c (live_checkpoint at ∷ older) ((early, pinged, since), b) =
      ((early, Pinged-snoc h at early c pinged, since), Barriers-snoc h c older b)

  Waits-snoc :
      (h : List Input) (c : Input) (r s : Reader) (o : Option Pending)
      → Since r.queue.events s.queue.events
      → Waits h r o
      → Waits (h ++ c ∷ []) s o
  Waits-snoc h c r s none more w = tt
  Waits-snoc h c r s (some p) (newer, e) (early, pinged, (later, f)) = (
    early,
    Pinged-snoc h p.at early c pinged,
    (newer ++ later, e ∙ ap (λ x. newer ++ x) f ∙ sym (append_assoc newer later early)),
  )

  -- The invariant of the loop.
  abbrev Holds : List Input → Reader → Type 0
  Holds h r = Barriers h r.queue.events × Waits h r r.pending

  Effect-Holds :
      (h : List Input) (c : Input) (r s : Reader)
      → Reads h r
      → Effect parse_json c r s
      → Holds h r
      → Holds (h ++ c ∷ []) s
  Effect-Holds h c r s reached (idles quiet same events) (b, w) = (
    subst (Barriers (h ++ c ∷ [])) (sym events) (Barriers-snoc h c r.queue.events b),
    subst (Waits (h ++ c ∷ []) s) (sym same) (Waits-snoc h c r s r.pending ([], events) w),
  )
  Effect-Holds h c r s reached (pings instant p e free now numbered events) (b, w) =
      let pinged : Pinged (h ++ c ∷ []) p.at r.queue.events = record {
        before = h;
        after = [];
        instant = instant;
        sent = p.sent;
        split = ap (λ x. h ++ x ∷ []) e;
        reader = r;
        reached = reached;
        free = free;
        queued = refl;
      } in
      (
        subst (Barriers (h ++ c ∷ [])) (sym events) (Barriers-snoc h c r.queue.events b),
        subst (Waits (h ++ c ∷ []) s) (sym now) (r.queue.events, pinged, ([], events)),
      )
  Effect-Holds h c r s reached (forwards kind v event live same events) (b, w) = (
    subst (Barriers (h ++ c ∷ [])) (sym events) (Barriers-snoc h c r.queue.events b),
    subst (Waits (h ++ c ∷ []) s) (sym same)
        (Waits-snoc h c r s r.pending (live_message v ∷ [], events) w),
  )
  Effect-Holds h c r s reached (confirms p v event answered waited now events) (b, w) =
      let (early, pinged, since) = subst (Waits h r) waited w in
      (
        subst (Barriers (h ++ c ∷ [])) (sym events)
            ((early, Pinged-snoc h p.at early c pinged, since), Barriers-snoc h c r.queue.events b),
        subst (Waits (h ++ c ∷ []) s) (sym now) tt,
      )

  Reads-Holds : {h : List Input} {r : Reader} → Reads h r → Holds h r
  unfolding open_reader
  Reads-Holds opened = (tt, tt)
  Reads-Holds (reads {h} {r} {s} x c e) =
      Effect-Holds h c r s x (subst (After parse_json c r) e (read-After parse_url parse_json c r))
        (Reads-Holds x)
  Reads-Holds (receives x) = Reads-Holds x
  Reads-Holds (drops x) = Reads-Holds x

  -- Whatever the frames, the ticks and the consumer do: for every checkpoint that was passed on, a ping
  -- was sent at its time, with no other ping on its way, and every event that the queue had taken in
  -- when that ping was sent stands before the checkpoint in the queue.
  pub Reads-Barriers : {h : List Input} {r : Reader} → Reads h r → Barriers h r.queue.events
  Reads-Barriers reached = (Reads-Holds reached).0
