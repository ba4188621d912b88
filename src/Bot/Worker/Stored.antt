-- ===== src/Bot/Worker/Stored.antt =====
-- What the worker stores of a message.
use sjmb_slack.Prelude.{
  ◌≤◌, ◌≡◌, refl, sym, ap, ◌∙◌, Bool, true, false, not, ◌&&◌, ◌||◌, List, [], ◌∷◌, ◌++◌, append-nil,
  append_assoc, map, Option, any, retain, All, if◌then◌else◌, arith, Bool-cases, Option-cases, inl,
  inr, le→leb,
}
use sjmb_slack.Prelude.Text.{Text, len, text_Eq}
use sjmb_slack.Prelude.Result.{is_ok}
use sjmb_slack.Harvest.Urls.{extract_urls, max_url_bytes}
use sjmb_slack.Harvest.Urls.Harvested.{IsHarvested, extract_urls-IsHarvested}
use sjmb_slack.Limits.Cache.{get}
use sjmb_slack.Url.{Url, UrlParsers}
use sjmb_slack.UrlFilter.Filter.{UrlFilter}
use sjmb_slack.Bot.Database.{UrlCtx, DbAnswer, to_result, db_add_url}
use sjmb_slack.Bot.Names.{User, SenderInfo}
use sjmb_slack.Bot.Workspace.{Workspace, Answer, Times, cached_nick, sender_nick, channel_name}
use sjmb_slack.Bot.Workspace.Bounded.{
  IsShortNamed, ShortSender, sender_nick-IsShort, channel_name-IsShort,
}
use sjmb_slack.Bot.Workspace.Short.{IsShort}
use sjmb_slack.Bot.Intake.{QueuedMessage}
use sjmb_slack.Bot.Worker.{Worker, Replies, record_of, passes, store_urls, handle_msg}

-- A record that the database's limits admit.
abbrev pub Storable : UrlCtx → Type 0
Storable ur = (len ur.url ≤ max_url_bytes) × (len ur.chan ≤ 1024) × (len ur.nick ≤ 256)

db_add_url-Storable :
    (db : UrlCtx → DbAnswer) (ur : UrlCtx) (sent : List UrlCtx)
    → Storable ur
    → db_add_url db ur sent ≡ (to_result (db ur), sent ++ ur ∷ [])
unfolding db_add_url
db_add_url-Storable db ur sent (small, chan, nick) = rw (
  le→leb (len ur.url) max_url_bytes small,
  le→leb (len ur.chan) 1024 chan,
  le→leb (len ur.nick) 256 nick,
)

or_assoc : (a b c : Bool) → ((a || b) || c) ≡ (a || (b || c))
or_assoc true b c = refl
or_assoc false b c = refl

-- The lookups leave the name and the filter of a workspace alone.
abbrev Keeps : Workspace → Workspace → Type 0
Keeps w v = (v.name ≡ w.name) × (v.url_filter ≡ w.url_filter)

cached_nick-Keeps :
    (id : Text) (a : Answer User) (t : Times) (w : Workspace) → Keeps w (cached_nick id a t w).1
unfolding cached_nick
cached_nick-Keeps id a t w = elim (Option-cases (get w.users id t.read_at).0) [
  | inl e ↦ rw (e, cached_nick) (refl, refl)
  | inr (nick, e) ↦ rw (e, cached_nick) (refl, refl)
]

sender_nick-Keeps :
    (s : SenderInfo) (a : Answer User) (t : Times) (w : Workspace) → Keeps w (sender_nick s a t w).1
unfolding sender_nick
sender_nick-Keeps s a t w = elim (Option-cases s.user) [
  | inl e ↦ rw (e, sender_nick) (refl, refl)
  | inr (id, e) ↦ elim (Option-cases s.hint) [
    | inl h ↦ rw (e, h, sender_nick) (cached_nick-Keeps id a t w)
    | inr (hint, h) ↦ rw (e, h, sender_nick) (refl, refl)
  ]
]

channel_name-Keeps :
    (id : Text) (a : Answer (Option Text)) (t : Times) (w : Workspace)
    → Keeps w (channel_name id a t w).1
unfolding channel_name
channel_name-Keeps id a t w = elim (Option-cases (get w.channels id t.read_at).0) [
  | inl e ↦ rw (e, channel_name) (refl, refl)
  | inr (name, e) ↦ rw (e, channel_name) (refl, refl)
]

module _ (p : UrlParsers) (r : Replies) (f : UrlFilter) where
  -- The records that the filter admits, and whether the database refuses one.
  abbrev pub admitted : List UrlCtx → List UrlCtx
  admitted urs = retain (λ ur. passes p r f ur.url) urs

  abbrev pub refuses : List UrlCtx → Bool
  refuses urs = any (λ ur. not (is_ok (to_result (r.db ur)))) urs

  store_urls-dry :
      (urs : List UrlCtx) (failed : Bool) (sent : List UrlCtx)
      → store_urls p r f true urs (failed, sent) ≡ (failed, sent)
  unfolding store_urls
  store_urls-dry [] failed sent = refl
  store_urls-dry (ur ∷ urs) failed sent = elim (Bool-cases (passes p r f ur.url)) [
    | inl pass ↦ rw (pass, store_urls) (store_urls-dry urs failed sent)
    | inr block ↦ rw (block, store_urls) (store_urls-dry urs failed sent)
  ]

  store_urls-admitted :
      (urs : List UrlCtx) (failed : Bool) (sent : List UrlCtx)
      → All Storable urs
      → store_urls p r f false urs (failed, sent)
        ≡ (failed || refuses (admitted urs), sent ++ admitted urs)
  unfolding store_urls
  store_urls-admitted [] failed sent small = rw (append-nil sent) (ground arith)
  store_urls-admitted (ur ∷ urs) failed sent (now, later) =
      elim (Bool-cases (passes p r f ur.url)) [
        | inr block ↦ rw (block, store_urls) (store_urls-admitted urs failed sent later)
        | inl pass ↦
            rw (pass, store_urls, db_add_url-Storable r.db ur sent now)
              (store_urls-admitted urs (failed || not (is_ok (to_result (r.db ur))))
                  (sent ++ ur ∷ []) later
                ∙ ap (λ b. (b, (sent ++ ur ∷ []) ++ admitted urs))
                    (or_assoc failed (not (is_ok (to_result (r.db ur)))) (refuses (admitted urs)))
                ∙ ap
                    (λ l.
                      (failed || (not (is_ok (to_result (r.db ur))) || refuses (admitted urs)), l))
                    (append_assoc sent (ur ∷ []) (admitted urs)))
      ]

Storable-records :
    (parse_url : Text → Option Url) (m : QueuedMessage) (nick chan : Text) (urls : List Text)
    → len nick ≤ 256
    → len chan ≤ 1024
    → All (IsHarvested parse_url) urls
    → All Storable (map (record_of m nick chan) urls)
Storable-records parse_url m nick chan [] h g a = tt
Storable-records parse_url m nick chan (u ∷ us) h g (now, later) =
    ((now.fits, g, h), Storable-records parse_url m nick chan us h g later)

-- What the code relies on: a workspace as the configuration and the caches have it, and a message as
-- `prepare_message` gives it.
pub record Ready (m : QueuedMessage) (w : Workspace) : Type 0 where
  pub named : IsShortNamed w
  pub short_name : len w.name ≤ 256
  pub short_sender : ShortSender m.sender
  pub short_channel : IsShort m.channel

module _ (p : UrlParsers) (captures : Text → List (Option Text)) (r : Replies) (m : QueuedMessage)
    (s : Worker) where
  abbrev pub workspace_of : Workspace
  workspace_of = s.workspaces m.workspace

  -- The records of the message's URLs, with the nick and the label of the channel.
  abbrev pub records : List UrlCtx
  records =
      let named = sender_nick m.sender r.user r.user_times workspace_of in
      let labelled = channel_name m.channel r.channel r.channel_times named.1 in
      map (record_of m named.0 labelled.0) (extract_urls p.parse_url captures m.text s.counters).0

  records-Storable : Ready m workspace_of → All Storable records
  records-Storable ready =
      let named = sender_nick m.sender r.user r.user_times workspace_of in
      let (short, after) =
        sender_nick-IsShort workspace_of ready.named m.sender r.user r.user_times
          ready.short_sender in
      let (label, _) =
        channel_name-IsShort named.1 after m.channel r.channel r.channel_times
          ready.short_channel in
      let same = (sender_nick-Keeps m.sender r.user r.user_times workspace_of).0 in
      Storable-records p.parse_url m _ _ _ short
        (omega (arith, label, ap len same, ready.short_name))
        (extract_urls-IsHarvested p.parse_url captures m.text s.counters).0

  filter_of :
      (channel_name m.channel r.channel r.channel_times
        (sender_nick m.sender r.user r.user_times workspace_of).1).1.url_filter
      ≡ workspace_of.url_filter
  filter_of =
      (channel_name-Keeps m.channel r.channel r.channel_times _).1
      ∙ (sender_nick-Keeps m.sender r.user r.user_times workspace_of).1

  stored-dry :
      (f : UrlFilter) (dry_run : Bool)
      → All Storable records
      → store_urls p r f dry_run records (false, s.sent) ≡ (
        not dry_run && refuses p r f (admitted p r f records),
        s.sent ++ (if dry_run then [] else admitted p r f records),
      )
  stored-dry f true small =
      store_urls-dry p r f records false s.sent ∙ ap (λ l. (false, l)) (sym (append-nil s.sent))
  stored-dry f false small = store_urls-admitted p r f records false s.sent small

-- Of a message, exactly the URLs that the workspace's filter admits are sent to the database, in
-- their order, each with the second, the sender and the channel of the message, and none in a dry
-- run: no record exceeds what the database takes. The message succeeds exactly if no insertion fails.
pub handle_msg-sends :
    (p : UrlParsers) (captures : Text → List (Option Text)) (r : Replies) (m : QueuedMessage)
    (s : Worker)
    → Ready m (s.workspaces m.workspace)
    → ((handle_msg p captures r m s).1.sent
        ≡ s.sent
          ++ (if m.dry_run
              then []
              else admitted p r (s.workspaces m.workspace).url_filter (records p captures r m s)))
      × ((handle_msg p captures r m s).0
          ≡ not (
              not m.dry_run
              && refuses p r
                  (s.workspaces m.workspace).url_filter
                  (admitted p r (s.workspaces m.workspace).url_filter (records p captures r m s))))
unfolding handle_msg
handle_msg-sends p captures r m s ready =
    let stored =
      stored-dry p captures r m s (s.workspaces m.workspace).url_filter m.dry_run
        (records-Storable p captures r m s ready) in
    let same =
      ap (λ f. store_urls p r f m.dry_run (records p captures r m s) (false, s.sent))
        (filter_of p captures r m s)
      ∙ stored in
    (ap (λ x. x.1) same, ap (λ x. not x.0) same)
