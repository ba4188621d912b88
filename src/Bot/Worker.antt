-- ===== src/Bot/Worker.antt =====
-- `handle_msg` and `handle_messages` of src/slackbot.rs: the worker that empties the queue of messages.
-- What Slack, the resolver and the database answer while it handles a message is an argument.
pub mod Stored
pub mod Receipts
use sjmb_slack.Prelude.{
  ℕ, zero, suc, ◌+◌, ◌≡◌, Bool, true, false, not, ◌&&◌, ◌||◌, List, [], ◌∷◌, ◌++◌, map, Option,
  none, some, ltb, leb, ◌==◌, if◌then◌else◌,
}
use sjmb_slack.Prelude.Text.{Text}
use sjmb_slack.Prelude.Result.{Result, ok, err, is_ok}
use sjmb_slack.Limits.Counters.{Counters, Counter, expired, bump}
use sjmb_slack.Harvest.Urls.{extract_urls}
use sjmb_slack.Url.{UrlParsers}
use sjmb_slack.UrlFilter.Filter.{UrlFilter, Resolution, check}
use sjmb_slack.Bot.Names.{User}
use sjmb_slack.Bot.Database.{UrlCtx, DbAnswer, db_add_url}
use sjmb_slack.Bot.Workspace.{Workspace, Answer, Times, sender_nick, channel_name}
use sjmb_slack.Bot.Intake.{QueuedMessage}

-- What the worker works on: the workspaces by number, the counters, and the statements sent.
pub record Worker : Type 0 where
  pub workspaces : ℕ → Workspace
  pub counters : Counters
  pub sent : List UrlCtx

-- The answers from outside while a message is handled; the resolver has one answer for a name, and the
-- database one for a record.
pub record Replies : Type 0 where
  pub user : Answer User
  pub user_times : Times
  pub channel : Answer (Option Text)
  pub channel_times : Times
  pub lookup_host : Text → Resolution
  pub db : UrlCtx → DbAnswer

-- The shared workspace behind its `Arc`, after its caches have changed.
abbrev pub set_workspace : ℕ → Workspace → (ℕ → Workspace) → ℕ → Workspace
set_workspace i w workspaces j = if j == i then w else workspaces j

abbrev pub record_of : QueuedMessage → Text → Text → Text → UrlCtx
record_of m nick channel url = record { ts = m.ts; chan = channel; nick = nick; url = url }

module _ (p : UrlParsers) where
  abbrev pub passes : Replies → UrlFilter → Text → Bool
  passes r f url = is_ok (check r.lookup_host p f url)

  -- One round of the loop of `handle_msg`: an excluded URL is skipped, then a dry run ends it.
  abbrev pub store_one :
      (UrlCtx → DbAnswer) → Bool → Bool → UrlCtx → Bool × List UrlCtx → Bool × List UrlCtx
  store_one db false dry_run ur stored = stored
  store_one db true true ur stored = stored
  store_one db true false ur (failed, sent) =
      let inserted = db_add_url db ur sent in (failed || not (is_ok inserted.0), inserted.1)

  -- The loop: whether an insertion failed, and the statements sent.
  unfoldable pub store_urls :
      Replies → UrlFilter → Bool → List UrlCtx → Bool × List UrlCtx → Bool × List UrlCtx
  store_urls r f dry_run [] stored = stored
  store_urls r f dry_run (ur ∷ urs) stored =
      store_urls r f dry_run urs (store_one r.db (passes r f ur.url) dry_run ur stored)

  module _ (captures : Text → List (Option Text)) where
    -- `true` is `Ok`.
    unfoldable pub handle_msg : Replies → QueuedMessage → Worker → Bool × Worker
    unfolding store_urls
    handle_msg r m s =
        let named = sender_nick m.sender r.user r.user_times (s.workspaces m.workspace) in
        let labelled = channel_name m.channel r.channel r.channel_times named.1 in
        let urls = extract_urls p.parse_url captures m.text s.counters in
        let stored =
          store_urls r labelled.1.url_filter m.dry_run (map (record_of m named.0 labelled.0) urls.0)
            (false, s.sent) in
        (
          not stored.0,
          record {
            workspaces = set_workspace m.workspace labelled.1 s.workspaces;
            counters = urls.1;
            sent = stored.1;
          },
        )

    -- What wakes the worker: the wish to drain the queue, or a message out of it, with the time.
    -- After the wish the queue takes no more messages, and gives those it has.
    pub data Event : Type 0 where
      drain : Event
      received : QueuedMessage → ℕ → Replies → Event

    -- The answer to the one who waits for the message, if there is one.
    abbrev pub receipt : Option ℕ → Bool → List (ℕ × Bool)
    receipt none done = []
    receipt (some waiter) done = (waiter, done) ∷ []

    abbrev pub expire : QueuedMessage → Worker → List (ℕ × Bool) × Worker
    expire m s = (receipt m.completion false, record s { counters = bump expired s.counters })

    abbrev pub answer : QueuedMessage → Bool × Worker → List (ℕ × Bool) × Worker
    answer m (done, s) = (receipt m.completion done, s)

    -- One round of the loop for a message.
    unfoldable pub handle_one : QueuedMessage → ℕ → Replies → Worker → List (ℕ × Bool) × Worker
    handle_one m now r s = if leb m.expires_at now then expire m s else answer m (handle_msg r m s)

    -- The loop, until the queue is closed and empty, which is the end of the events.
    unfoldable pub handle_messages : List Event → Worker → List (ℕ × Bool) × Worker
    unfolding handle_one
    handle_messages [] s = ([], s)
    handle_messages (drain ∷ es) s = handle_messages es s
    handle_messages (received m now r ∷ es) s =
        let one = handle_one m now r s in
        let rest = handle_messages es one.1 in (one.0 ++ rest.0, rest.1)
