-- ===== src/UserSession/Members/Discovered.antt =====
-- The end of the discovery of channels, and what it finds.
use sjmb_slack.Prelude.{
  ℕ, zero, suc, ◌+◌, ◌≤◌, ◌≡◌, refl, true, not, ◌&&◌, List, [], ◌∷◌, Option, none, some, ltb,
  length, arith, Bool-cases, if◌then◌else◌, inl, inr,
}
use sjmb_slack.Prelude.Text.{Text, codes, is_empty, text_Eq}
use sjmb_slack.Prelude.Result.{Result, ok, err}
use sjmb_slack.Prelude.Result.{Result-cases}
use sjmb_slack.State.Store.{contains}
use sjmb_slack.UserSession.Json.{
  Value, null, other_number, boolean, unsigned, text, array, object, Items, no_items, item, at_key,
  as_str,
}
use sjmb_slack.UserSession.Events.{eligible_channel, next_cursor}
use sjmb_slack.UserSession.Members.{
  Directory, DiscoveryError, Found, Members, cache_channel, has_space, join, join_all,
  join_response, discover_from, discover_end, discover_channels,
}
use sjmb_slack.UserSession.Members.Roster.{joinable, IsRoster, add_id-IsRoster, cache_channel-Names}

abbrev Roster : Found → Type 0
Roster f = IsRoster f.ids f.names

module _ (d : Directory) where
  join-Roster :
      (id : Option Text) (channel : Value) (f : Found)
      → eligible_channel channel ≡ true
      → as_str (at_key (codes "id") channel) ≡ id
      → Roster f
      → Roster (join d id channel f).1
  unfolding join
  join-Roster none channel f h e r = r
  join-Roster (some id) channel f h e r = elim (Bool-cases (has_space id f.ids)) [
    | inr full ↦ rw (full, join) r
    | inl room ↦
        let names = cache_channel channel (d.clock f.looked) f.names in
        rw (room, join)
          (add_id-IsRoster id f.ids f.names names (joinable channel id h e) room
            (cache_channel-Names channel (d.clock f.looked) f.names (r.cache, r.short)) r)
  ]

  -- One channel of a page.
  abbrev look : Value → Found → Result DiscoveryError (Unit {0}) × Found
  look channel f =
      if eligible_channel channel
      then join d (as_str (at_key (codes "id") channel)) channel f
      else (ok tt, f)

  look-Roster : (channel : Value) (f : Found) → Roster f → Roster (look channel f).1
  look-Roster channel f r = elim (Bool-cases (eligible_channel channel)) [
    | inl good ↦ rw good (join-Roster (as_str (at_key (codes "id") channel)) channel f good refl r)
    | inr bad ↦ rw bad r
  ]

  join_all-Roster : (channels : Items) (f : Found) → Roster f → Roster (join_all d channels f).1
  unfolding join_all
  join_all-Roster no_items f r = r
  join_all-Roster (item channel rest) f r =
      let one = look channel f in
      elim (Result-cases one.0) [
        | inr (x, e) ↦ rw (e, join_all) (look-Roster channel f r)
        | inl (u, e) ↦ rw (e, join_all) (join_all-Roster rest one.1 (look-Roster channel f r))
      ]

  join_response-Roster : (v : Value) (f : Found) → Roster f → Roster (join_response d v f).1
  unfolding join_response
  join_response-Roster (array channels) f r = join_all-Roster channels f r
  join_response-Roster null f r = r
  join_response-Roster other_number f r = r
  join_response-Roster (boolean b) f r = r
  join_response-Roster (unsigned n) f r = r
  join_response-Roster (text t) f r = r
  join_response-Roster (object fs) f r = r

  -- An end of the loop, with a roster.
  abbrev EndsWell : Option (Result DiscoveryError (Unit {0}) × Found) → Type 0
  EndsWell none = ⊥
  EndsWell (some out) = Roster out.1

  -- With one page more than the cursors that may still come, the loop ends.
  discover_from-EndsWell :
      (fuel page : ℕ) (cursors : List Text) (cursor : Text) (f : Found)
      → length cursors ≤ 100
      → 101 ≤ fuel + length cursors
      → Roster f
      → EndsWell (discover_from d fuel page cursors cursor f)
  unfolding discover_from
  discover_from-EndsWell zero page cursors cursor f few enough r = absurd (omega arith)
  discover_from-EndsWell (suc fuel) page cursors cursor f few enough r =
      elim (Result-cases (d.fetch page cursor)) [
        | inr (x, e) ↦ rw (e, discover_from) r
        | inl (response, e) ↦
            let done = join_response d (at_key (codes "channels") response) f in
            let kept = join_response-Roster (at_key (codes "channels") response) f r in
            elim (Result-cases done.0) [
              | inr (x, g) ↦ rw (e, g, discover_from) kept
              | inl (u, g) ↦ elim (Result-cases (next_cursor response)) [
                | inr (x, n) ↦ rw (e, g, n, discover_from) kept
                | inl (next, n) ↦ elim (Bool-cases (is_empty next)) [
                  | inl last ↦ rw (e, g, n, last, discover_from) kept
                  | inr more ↦
                      elim (Bool-cases (ltb (length cursors) 100 && not (contains cursors next))) [
                        | inr again ↦ rw (e, g, n, more, again, discover_from) kept
                        | inl new ↦
                            rw (e, g, n, more, new, discover_from)
                              (discover_from-EndsWell fuel (suc page) (next ∷ cursors) next done.1
                                (ground (arith, new)) (omega arith) kept)
                      ]
                ]
              ]
            ]
      ]

-- The members after a discovery: what it found, or on an error those before.
abbrev pub Discovered : Members → Option (Result DiscoveryError (Unit {0}) × Members) → Type 0
Discovered m none = ⊥
Discovered m (some (ok u, after)) = IsRoster after.members after.names
Discovered m (some (err e, after)) =
    (after.members ≡ m.members) × IsRoster after.members after.names

discover_end-Discovered :
    (d : Directory) (m : Members) (o : Option (Result DiscoveryError (Unit {0}) × Found))
    → IsRoster m.members m.names
    → EndsWell d o
    → Discovered m (discover_end m o)
discover_end-Discovered d m none r h = h
discover_end-Discovered d m (some (ok u, f)) r h = h
discover_end-Discovered d m (some (err e, f)) r h = (
  refl,
  record {
    few = r.few;
    distinct = r.distinct;
    joinable = r.joinable;
    cache = h.cache;
    short = h.short;
  },
)

-- The discovery of the channels ends, whatever Slack answers, within one hundred and one requests. It
-- leaves at most 4,096 members, none twice, each with an id that may be one, and after an error those
-- that there were; the cache of names stays valid and its names short.
pub discover_channels-Discovered :
    (d : Directory) (m : Members)
    → IsRoster m.members m.names
    → Discovered m (discover_channels d m)
unfolding discover_channels
discover_channels-Discovered d m r =
    discover_end-Discovered d m
      (discover_from d 101 0 [] [] (record { ids = []; names = m.names; looked = 0 })) r
      (discover_from-EndsWell d 101 0 [] [] (record { ids = []; names = m.names; looked = 0 })
        (omega arith) (omega arith)
        (record {
          few = omega arith;
          distinct = tt;
          joinable = tt;
          cache = r.cache;
          short = r.short;
        }))
