-- ===== src/UserSession/Consumer/Calls.antt =====
-- The calls that a live event may result in, and those of a checkpoint and of a change of the members.
use sjmb_slack.Prelude.{
  ℕ, suc, ◌≡◌, refl, Bool, List, [], ◌∷◌, Option, none, some, All, Bool-cases, inl, inr,
}
use sjmb_slack.Prelude.Int.{ℤ}
use sjmb_slack.Prelude.Text.{Text}
use sjmb_slack.Prelude.Result.{Result, ok, err}
use sjmb_slack.Prelude.Result.{Result-cases}
use sjmb_slack.State.Store.{Store, add_channel, checkpoint}
use sjmb_slack.State.Store.Bounds.{Call, adds, checkpoints, run}
use sjmb_slack.Bot.Intake.{MessageEvent}
use sjmb_slack.UserSession.Process.{Handled}
use sjmb_slack.UserSession.Process.Settled.{Settles}
use sjmb_slack.UserSession.Json.{Value}
use sjmb_slack.UserSession.Reader.{LiveEvent, live_message, live_checkpoint}
use sjmb_slack.UserSession.Members.{DiscoveryError, Members}
use sjmb_slack.UserSession.Members.Discovered.{Discovered}
use sjmb_slack.UserSession.Members.Roster.{IsRoster}
use sjmb_slack.UserSession.Consumer.{
  Live, LiveWorld, with_store, consume_checkpoint, add_members, consume_change,
}

-- The calls that an event may result in: a checkpoint moves the watermarks to its own time; a message
-- adds channels, and settles in its own channel as the worker's receipt says. None retries a channel,
-- begins a connection, forgets a thread or ends a recovery.
module _ (in_range : ℕ → Bool) (decode : Value → Option MessageEvent) where
  abbrev pub Caused : LiveEvent → Handled → Call → Type 0
  Caused (live_checkpoint at) h (checkpoints through now) = through ≡ at
  Caused (live_checkpoint at) h _ = ⊥
  Caused (live_message v) h (adds id at) = Unit
  Caused (live_message v) h c = Settles in_range decode v h c

abbrev pub Roster : Live → Type 0
Roster l = IsRoster l.members.members l.members.names

module _ (in_range : ℕ → Bool) (decode : Value → Option MessageEvent) where
  -- One event.
  pub record Done (e : LiveEvent) (h : Handled) (before after : Live) : Type 0 where
    pub roster : Roster after
    pub calls : List Call
    pub reached : after.session.store ≡ run in_range calls before.session.store
    pub caused : All (Caused in_range decode e h) calls

  pub unchanged : (e : LiveEvent) (h : Handled) (l : Live) → Roster l → Done e h l l
  unchanged e h l r = record { roster = r; calls = []; reached = refl; caused = tt }

  pub checkpoint-Done :
      (at : ℤ) (w : LiveWorld) (l : Live)
      → Roster l
      → Done (live_checkpoint at) w.handled l (consume_checkpoint at w l).1
  unfolding consume_checkpoint
  checkpoint-Done at w l r =
      let after = with_store l (checkpoint at w.pruned_at l.session.store) in
      let d : Done (live_checkpoint at) w.handled l after = record {
        roster = r;
        calls = checkpoints at w.pruned_at ∷ [];
        reached = refl;
        caused = (refl, tt);
      } in
      elim (Bool-cases w.saved) [
        | inl saved ↦ rw (saved, consume_checkpoint) d
        | inr lost ↦ rw (lost, consume_checkpoint) d
      ]

  -- The calls of the loop over the members.
  add_members-reached :
      (v : Value) (h : Handled) (at : ℕ → ℤ) (n : ℕ) (ids : List Text) (s : Store)
      → (calls : List Call) × ((add_members at n ids s).1 ≡ run in_range calls s)
        × All (Caused in_range decode (live_message v) h) calls
  unfolding add_members
  add_members-reached v h at n [] s = ([], refl, tt)
  add_members-reached v h at n (id ∷ ids) s =
      let one = add_channel id (at n) s in
      elim (Result-cases one.0) [
        | inr (x, e) ↦ rw (e, add_members) (adds id (at n) ∷ [], refl, (tt, tt))
        | inl (u, e) ↦
            let (calls, reached, caused) = add_members-reached v h at (suc n) ids one.1 in
            rw (e, add_members) (adds id (at n) ∷ calls, reached, (tt, caused))
      ]

  pub change-Done :
      (v : Value) (o : Option (Result DiscoveryError (Unit {0}) × Members)) (w : LiveWorld)
      (l : Live)
      → Roster l
      → Discovered l.members o
      → Done (live_message v) w.handled l (consume_change o w l).1
  unfolding consume_change
  change-Done v none w l r d = absurd d
  change-Done v (some (err e, m)) w l r d = record {
    roster = d.1;
    calls = [];
    reached = refl;
    caused = tt;
  }
  change-Done v (some (ok u, m)) w l r d =
      let (calls, reached, caused) =
        add_members-reached v w.handled w.added_at 0 m.members l.session.store in
      record { roster = d; calls = calls; reached = reached; caused = caused }
