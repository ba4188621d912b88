-- ===== src/UserSession/Consumer/Events.antt =====
-- What one live event does to the recovery state and to the members.
use sjmb_slack.Prelude.{
  ℕ, ◌≡◌, refl, sym, ap, ◌∙◌, Bool, true, not, ◌||◌, List, [], ◌∷◌, ◌++◌, Option, none, some, ltb,
  length, All, All-append, arith, Bool-cases, Option-cases, inl, inr,
}
use sjmb_slack.Prelude.Text.{Text, codes}
use sjmb_slack.Prelude.Result.{Result, ok, err}
use sjmb_slack.Prelude.Result.{Result-cases}
use sjmb_slack.State.{max_channels}
use sjmb_slack.State.Store.{contains, add_channel}
use sjmb_slack.State.Store.Bounds.{
  Call, begins, adds, retries, forgets, processes, remembers, fails, finishes, checkpoints, run,
}
use sjmb_slack.Bot.Intake.{MessageEvent}
use sjmb_slack.UserSession.Json.{Value, at_key, as_str, is_true, is_text}
use sjmb_slack.UserSession.Events.{ApiError, eligible_channel}
use sjmb_slack.UserSession.Process.{Handled, ProcessError, Session, process}
use sjmb_slack.UserSession.Process.Settled.{Settles, process-Settled}
use sjmb_slack.UserSession.Recovery.Reached.{run-append}
use sjmb_slack.UserSession.Reader.{LiveEvent, live_message, live_checkpoint}
use sjmb_slack.UserSession.Members.{has_space, cache_channel, discover_channels}
use sjmb_slack.UserSession.Members.Discovered.{discover_channels-Discovered}
use sjmb_slack.UserSession.Members.Roster.{IsJoinable, add_id-IsRoster, cache_channel-Names}
use sjmb_slack.UserSession.Consumer.{
  Live, LiveWorld, with_store, live_channel, processed_live, process_live, join_member,
  admit_channel, meet_channel, consume_message, consume_event,
}
use sjmb_slack.UserSession.Consumer.Calls.{
  Caused, Done, Roster, change-Done, checkpoint-Done, unchanged,
}

module _ (in_range : ℕ → Bool) where
  live_channel-IsJoinable : (v : Value) (id : Text) → live_channel v ≡ some id → IsJoinable id
  unfolding live_channel
  live_channel-IsJoinable v id h = elim (Option-cases (as_str (at_key (codes "channel") v))) [
    | inl e ↦ absurd (ground arith)
    | inr (x, e) ↦ ground arith
  ]

  module _ (decode : Value → Option MessageEvent) where
    Settles-Caused :
        (h : Handled) (v : Value) (c : Call)
        → Settles in_range decode v h c
        → Caused in_range decode (live_message v) h c
    Settles-Caused h v (remembers id parent at pruned_at) a = a
    Settles-Caused h v (processes channel ts thread at) a = a
    Settles-Caused h v (fails id) a = a
    Settles-Caused h v (begins ids at) a = a
    Settles-Caused h v (adds id at) a = tt
    Settles-Caused h v (retries id) a = a
    Settles-Caused h v (forgets id ts) a = a
    Settles-Caused h v (finishes id through) a = a
    Settles-Caused h v (checkpoints through at) a = a

    all-Caused :
        (h : Handled) (v : Value) (cs : List Call)
        → All (Settles in_range decode v h) cs
        → All (Caused in_range decode (live_message v) h) cs
    all-Caused h v [] a = tt
    all-Caused h v (c ∷ cs) (now, later) = (Settles-Caused h v c now, all-Caused h v cs later)

  module _ (decode : Value → Option MessageEvent) (workspace : ℕ) (dry_run : Bool) where
    processed-Done :
        (v : Value) (w : LiveWorld) (before l : Live)
        (out : Result ProcessError (Unit {0}) × Session) (calls : List Call)
        → Roster l
        → out.1.store ≡ run in_range calls before.session.store
        → All (Caused in_range decode (live_message v) w.handled) calls
        → Done in_range decode
            (live_message v)
            w.handled
            before
            (processed_live in_range decode workspace dry_run l out).1
    processed-Done v w before l (ok u, s) calls r reached caused = record {
      roster = r;
      calls = calls;
      reached = reached;
      caused = caused;
    }
    processed-Done v w before l (err e, s) calls r reached caused = record {
      roster = r;
      calls = calls;
      reached = reached;
      caused = caused;
    }

    process-Done :
        (v : Value) (w : LiveWorld) (before l : Live) (calls : List Call)
        → Roster l
        → l.session.store ≡ run in_range calls before.session.store
        → All (Caused in_range decode (live_message v) w.handled) calls
        → Done in_range decode
            (live_message v)
            w.handled
            before
            (process_live in_range decode workspace dry_run v w l).1
    unfolding process_live
    process-Done v w before l calls r reached caused =
        let a =
          process-Settled in_range decode workspace dry_run v w.clock w.waiter w.handled
            l.session in
        processed-Done v w before l
          (process in_range decode workspace dry_run v w.clock w.waiter w.handled l.session)
          (calls ++ a.made) r
          (a.reached
            ∙ ap (run in_range a.made) reached
            ∙ sym (run-append in_range calls a.made before.session.store))
          (All-append (Caused in_range decode (live_message v) w.handled) calls a.made caused
            (all-Caused decode w.handled v a.made a.settled))

    admit-Done :
        (id : Text) (channel v : Value) (w : LiveWorld) (l : Live)
        → IsJoinable id
        → has_space id l.members.members ≡ true
        → Roster l
        → Done in_range decode
            (live_message v)
            w.handled
            l
            (admit_channel in_range decode workspace dry_run id channel v w l).1
    unfolding admit_channel
    admit-Done id channel v w l good room r =
        let joined = join_member in_range decode workspace dry_run id l in
        let added = add_channel id w.joined_at l.session.store in
        let names = cache_channel channel w.cached_at l.members.names in
        let met =
          add_id-IsRoster id l.members.members l.members.names l.members.names good room
            (r.cache, r.short) r in
        let named =
          add_id-IsRoster id l.members.members l.members.names names good room
            (cache_channel-Names channel w.cached_at l.members.names (r.cache, r.short)) r in
        elim (Result-cases added.0) [
          | inr (x, e) ↦
              rw (e, admit_channel)
                (record {
                  roster = met;
                  calls = adds id w.joined_at ∷ [];
                  reached = refl;
                  caused = (tt, tt);
                })
          | inl (u, e) ↦
              let next : Live = record (with_store joined added.1) {
                members = record joined.members { names = names };
              } in
              rw (e, admit_channel)
                (process-Done v w l next (adds id w.joined_at ∷ []) named refl (tt, tt))
        ]

    meet-Done :
        (id : Text) (info : Result ApiError Value) (v : Value) (w : LiveWorld) (l : Live)
        → IsJoinable id
        → Roster l
        → Done in_range decode
            (live_message v)
            w.handled
            l
            (meet_channel in_range decode workspace dry_run id info v w l).1
    unfolding meet_channel
    meet-Done id (err e) v w l good r = unchanged in_range decode (live_message v) w.handled l r
    meet-Done id (ok response) v w l good r =
        let channel = at_key (codes "channel") response in
        elim (Bool-cases
          (not (eligible_channel channel) || not (is_true (at_key (codes "is_member") channel)))) [
            | inl alien ↦
                rw (alien, meet_channel) (unchanged in_range decode (live_message v) w.handled l r)
            | inr fine ↦ elim (Bool-cases (ltb (length l.members.members) max_channels)) [
              | inl room ↦
                  rw (fine, room, meet_channel)
                    (admit-Done id channel v w l good (ground (arith, room)) r)
              | inr full ↦
                  rw (fine, full, meet_channel)
                    (unchanged in_range decode (live_message v) w.handled l r)
            ]
          ]

    message-Done :
        (o : Option Text) (v : Value) (w : LiveWorld) (l : Live)
        → live_channel v ≡ o
        → Roster l
        → Done in_range decode
            (live_message v)
            w.handled
            l
            (consume_message in_range decode workspace dry_run o v w l).1
    unfolding consume_message
    message-Done none v w l e r = unchanged in_range decode (live_message v) w.handled l r
    message-Done (some id) v w l e r = elim (Bool-cases (contains l.members.members id)) [
      | inl known ↦ rw (known, consume_message) (process-Done v w l l [] r refl tt)
      | inr new ↦
          rw (new, consume_message) (meet-Done id w.info v w l (live_channel-IsJoinable v id e) r)
    ]

    pub event-Done :
        (e : LiveEvent) (w : LiveWorld) (l : Live)
        → Roster l
        → Done in_range decode e w.handled l
            (consume_event in_range decode workspace dry_run e w l).1
    unfolding consume_event
    event-Done (live_checkpoint at) w l r = checkpoint-Done in_range decode at w l r
    event-Done (live_message v) w l r =
        elim (Bool-cases (not (is_text (codes "message") (at_key (codes "type") v)))) [
          | inl change ↦
              rw (change, consume_event)
                (change-Done in_range decode v (discover_channels w.directory l.members) w l r
                  (discover_channels-Discovered w.directory l.members r))
          | inr message ↦ rw (message, consume_event) (message-Done (live_channel v) v w l refl r)
        ]
