-- ===== src/UserSession/Recovery/Fetched.antt =====
-- The pages of a history that a recovery fetches, and the messages of them that it processes.
use sjmb_slack.Prelude.{
  ℕ, suc, ◌≤◌, ◌≡◌, Bool, false, List, [], ◌∷◌, ◌++◌, length, Option, if◌then◌else◌,
}
use sjmb_slack.Prelude.Int.{ℤ}
use sjmb_slack.Prelude.Text.{Text, codes, is_empty}
use sjmb_slack.Prelude.Result.{ok}
use sjmb_slack.Bot.Intake.{MessageEvent}
use sjmb_slack.UserSession.Json.{Value, array, object, Items, no_items, item, at_key, as_str}
use sjmb_slack.UserSession.Events.{next_cursor}
use sjmb_slack.UserSession.Process.{Session, process}
use sjmb_slack.UserSession.Recovery.{World, completed, wanted}

-- The pages of a history from a cursor on, up to the one without a further cursor.
pub data Fetched (w : World) (method id : Text) (thread : Option Text)
    : ℕ → Text → List Value → Type 0 where
  last_page :
      {page : ℕ} {cursor : Text} (response : Value)
      → w.fetch method id thread page cursor ≡ ok response
      → next_cursor response ≡ ok []
      → Fetched w method id thread page cursor (response ∷ [])
  more_pages :
      {page : ℕ} {cursor : Text} {rest : List Value} (response : Value) (next : Text)
      → w.fetch method id thread page cursor ≡ ok response
      → next_cursor response ≡ ok next
      → is_empty next ≡ false
      → Fetched w method id thread (suc page) next rest
      → Fetched w method id thread page cursor (response ∷ rest)

module _ (in_range : ℕ → Bool) (decode : Value → Option MessageEvent) (workspace : ℕ)
    (dry_run : Bool) (w : World) (oldest through : ℤ) where
  abbrev pub is_wanted : Value → Bool
  is_wanted event =
      wanted in_range decode workspace dry_run w oldest through (as_str (at_key (codes "ts") event))

  -- The messages of a page that lie within the bounds.
  abbrev pub wanted_items : Text → Option Text → Items → List Value
  wanted_items id thread no_items = []
  wanted_items id thread (item (object members) rest) =
      let event = completed id thread members in
      if is_wanted event then event ∷ wanted_items id thread rest else wanted_items id thread rest
  wanted_items id thread (item _ rest) = wanted_items id thread rest

  abbrev pub wanted_in : Text → Option Text → Value → List Value
  wanted_in id thread (array items) = wanted_items id thread items
  wanted_in id thread _ = []

  abbrev pub wanted_messages : Text → Option Text → List Value → List Value
  wanted_messages id thread [] = []
  wanted_messages id thread (response ∷ rest) =
      wanted_in id thread (at_key (codes "messages") response) ++ wanted_messages id thread rest

  -- Every message went through `process` in turn, without an error.
  pub data Processed : List Value → Session → Session → Type 0 where
    none_left : (s : Session) → Processed [] s s
    one_more :
        {event : Value} {rest : List Value} {s a b : Session}
        → process in_range decode workspace dry_run event
            (w.clock s)
            (length s.offered)
            (w.handled s)
            s
          ≡ (ok tt, a)
        → Processed rest a b
        → Processed (event ∷ rest) s b

  -- A history was fetched to its last page, in so many pages at most, and every message of it within the
  -- bounds was processed.
  abbrev pub Complete : ℕ → Text → Text → Option Text → Session → Session → Type 0
  Complete max_pages method id thread s b =
      (responses : List Value) × Fetched w method id thread 0 [] responses
      × (length responses ≤ max_pages)
      × Processed (wanted_messages id thread responses) s b
