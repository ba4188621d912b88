-- ===== src/Bot/Workspace/Bounded.antt =====
-- How long the names of a workspace are.
use sjmb_slack.Prelude.{
  ℕ, ◌+◌, ◌≤◌, ◌++◌, Option, none, some, arith, subst, Bool-cases, Option-cases, inl, inr,
}
use sjmb_slack.Prelude.Text.{Text, codes, len, len-append, text_Eq}
use sjmb_slack.Limits.Cache.{ExpiringCache, get}
use sjmb_slack.Bot.Names.{
  or_else, and_then, unwrap_or, non_empty, User, user_nick, user_fallback, MessageSender,
  SenderInfo, sender_info, bounded_name,
}
use sjmb_slack.Bot.Workspace.{
  Workspace, Answer, response, rate_limited, failed, timed_out, Times, answer_name, look_up,
  lookup_allowed, store_user, cached_nick, sender_nick, store_channel, channel_name,
}
use sjmb_slack.Bot.Workspace.Short.{
  IsShort, IsShortOption, ShortNames, log_text-IsShort, ShortNames-insert, ShortNames-get,
}

bounded-IsShort : (o : Option Text) → IsShortOption (and_then o bounded_name)
bounded-IsShort none = tt
bounded-IsShort (some t) = log_text-IsShort t

unwrap-IsShort :
    (o : Option Text) (t : Text) → IsShortOption o → IsShort t → IsShort (unwrap_or o t)
unwrap-IsShort none t h g = g
unwrap-IsShort (some u) t h g = h

answer_name-IsShort :
    {A : Type 0} (f : A → Option Text) (a : Answer A) → IsShortOption (answer_name f a)
answer_name-IsShort f (response a) = bounded-IsShort (f a)
answer_name-IsShort f (rate_limited d) = tt
answer_name-IsShort f failed = tt
answer_name-IsShort f timed_out = tt

look_up-IsShort :
    {A : Type 0} (f : A → Option Text) (answer : Answer A) (t : Times) (retry_at : Option ℕ)
    → IsShortOption (look_up f answer t retry_at).0
unfolding look_up
look_up-IsShort f answer t retry_at = elim (Bool-cases (lookup_allowed retry_at t.allowed_at)) [
  | inr limited ↦ rw limited tt
  | inl free ↦ rw free (answer_name-IsShort f answer)
]

or_else-IsShort :
    (a b : Option Text) → IsShortOption a → IsShortOption b → IsShortOption (or_else a b)
or_else-IsShort none b h g = g
or_else-IsShort (some x) b h g = h

len-label : (name t : Text) → IsShort t → len (name ++ (codes "-" ++ t)) ≤ len name + 257
len-label name t h = rw (len-append name (codes "-" ++ t)) (omega arith)

-- A workspace whose cached names are short.
pub record IsShortNamed (w : Workspace) : Type 0 where
  pub users : ShortNames w.users.entries
  pub channels : ShortNames w.channels.entries

pub record ShortSender (s : SenderInfo) : Type 0 where
  pub bot : IsShortOption s.bot
  pub hint : IsShortOption s.hint

pub sender_info-ShortSender : (s : MessageSender) → ShortSender (sender_info s)
unfolding sender_info
sender_info-ShortSender s = record { bot = bounded-IsShort s.bot_id; hint = bounded-IsShort _ }

module _ (w : Workspace) (named : IsShortNamed w) where
  store_user-IsShortNamed :
      (id : Text) (found : Option Text × Option ℕ) (t : Times) (users : ExpiringCache Text Text)
      → IsShortOption found.0
      → ShortNames users.entries
      → IsShort (store_user id found t (record w { users = users })).0
        × IsShortNamed (store_user id found t (record w { users = users })).1
  store_user-IsShortNamed id (nick, retry_at) t users h s =
      let short = unwrap-IsShort nick (user_fallback id) h (log_text-IsShort _) in
      (
        short,
        record {
          users = ShortNames-insert users id _ t.write_at _ short s;
          channels = named.channels;
        },
      )

  cached_nick-IsShort :
      (id : Text) (answer : Answer User) (t : Times)
      → IsShort (cached_nick id answer t w).0 × IsShortNamed (cached_nick id answer t w).1
  unfolding cached_nick
  cached_nick-IsShort id answer t =
      let (short, rest) = ShortNames-get w.users id t.read_at named.users in
      elim (Option-cases (get w.users id t.read_at).0) [
        | inl e ↦
            rw (e, cached_nick)
              (store_user-IsShortNamed id (look_up user_nick answer t w.user_retry_at) t
                (get w.users id t.read_at).1 (look_up-IsShort user_nick answer t w.user_retry_at)
                rest)
        | inr (nick, e) ↦
            rw (e, cached_nick)
              (subst IsShortOption e short, record { users = rest; channels = named.channels })
      ]

  -- The nick of a sender has at most 256 bytes, however it is found, and the caches of the workspace
  -- keep to that bound.
  pub sender_nick-IsShort :
      (s : SenderInfo) (answer : Answer User) (t : Times)
      → ShortSender s
      → IsShort (sender_nick s answer t w).0 × IsShortNamed (sender_nick s answer t w).1
  unfolding sender_nick
  sender_nick-IsShort s answer t short = elim (Option-cases s.user) [
    | inl e ↦ rw e (
      unwrap-IsShort (or_else s.hint s.bot) (codes "N/A")
          (or_else-IsShort s.hint s.bot short.hint short.bot) (omega arith),
      named,
    )
    | inr (id, e) ↦ elim (Option-cases s.hint) [
      | inl no_hint ↦ rw (e, no_hint) (cached_nick-IsShort id answer t)
      | inr (hint, h) ↦
          let small : IsShort hint = subst IsShortOption h short.hint in
          rw (e, h)
            (
              small,
              record {
                users = ShortNames-insert w.users id hint t.read_at _ small named.users;
                channels = named.channels;
              },
            )
    ]
  ]

  store_channel-IsShortNamed :
      (id : Text) (found : Option Text × Option ℕ) (t : Times) (channels : ExpiringCache Text Text)
      → IsShort id
      → IsShortOption found.0
      → ShortNames channels.entries
      → (len (store_channel id found t (record w { channels = channels })).0 ≤ len w.name + 257)
        × IsShortNamed (store_channel id found t (record w { channels = channels })).1
  store_channel-IsShortNamed id (name, retry_at) t channels small h s =
      let short = unwrap-IsShort name id h small in
      (
        len-label w.name (unwrap_or name id) short,
        record {
          users = named.users;
          channels = ShortNames-insert channels id _ t.write_at _ short s;
        },
      )

  -- The label of a channel is at most 257 bytes longer than the name of the workspace, and the caches
  -- keep to their bound, for a channel id of at most 256 bytes.
  pub channel_name-IsShort :
      (id : Text) (answer : Answer (Option Text)) (t : Times)
      → IsShort id
      → (len (channel_name id answer t w).0 ≤ len w.name + 257)
        × IsShortNamed (channel_name id answer t w).1
  unfolding channel_name
  channel_name-IsShort id answer t small =
      let (short, rest) = ShortNames-get w.channels id t.read_at named.channels in
      elim (Option-cases (get w.channels id t.read_at).0) [
        | inl e ↦
            rw (e, channel_name)
              (store_channel-IsShortNamed id
                (look_up (λ o. and_then o non_empty) answer t w.channel_retry_at) t
                (get w.channels id t.read_at).1 small
                (look_up-IsShort (λ o. and_then o non_empty) answer t w.channel_retry_at) rest)
        | inr (name, e) ↦
            rw (e, channel_name)
              (
                len-label w.name name (subst IsShortOption e short),
                record { users = named.users; channels = rest },
              )
      ]
