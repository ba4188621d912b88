-- ===== src/Bot/Workspace/Cached.antt =====
-- When a name is looked up at Slack.
use sjmb_slack.Prelude.{
  ℕ, ◌+◌, ◌-◌, ◌*◌, ◌^◌, ◌≤◌, ◌<◌, ◌≡◌, refl, sym, ap, ◌∙◌, true, false, Option, none, some,
  if◌then◌else◌, arith, Option-cases, inl, inr, lt→ltb,
}
use sjmb_slack.Prelude.Text.{Text, text_Eq}
use sjmb_slack.Limits.Cache.{get}
use sjmb_slack.Limits.Cache.Reads.{get-insert_self}
use sjmb_slack.Bot.Names.{User, user_nick, user_fallback, unwrap_or, SenderInfo}
use sjmb_slack.Bot.Workspace.{
  Workspace, Answer, rate_limited, Times, user_ttl, negative_ttl, ttl_of, checked_add,
  lookup_allowed, look_up, lookup_error, store_user, cached_nick, sender_nick,
}

-- A sender of whom the message gives the user id only.
abbrev pub user_only : Text → SenderInfo
user_only id = record { user = some id; bot = none; hint = none }

ttl_of_le : (o : Option Text) → negative_ttl ≤ ttl_of o user_ttl
ttl_of_le none = omega arith
ttl_of_le (some t) = omega arith

cached_nick-miss :
    (id : Text) (answer : Answer User) (t : Times) (w : Workspace)
    → (get w.users id t.read_at).0 ≡ none
    → cached_nick id answer t w
      ≡ store_user id
          (look_up user_nick answer t w.user_retry_at)
          t
          (record w { users = (get w.users id t.read_at).1 })
unfolding cached_nick
cached_nick-miss id answer t w miss = rw (miss, cached_nick) refl

cached_nick-hit :
    (id nick : Text) (answer : Answer User) (t : Times) (w : Workspace)
    → (get w.users id t.read_at).0 ≡ some nick
    → (cached_nick id answer t w).0 ≡ nick
unfolding cached_nick
cached_nick-hit id nick answer t w hit = rw (hit, cached_nick) refl

store_user-read :
    (id : Text) (found : Option Text × Option ℕ) (t : Times) (w : Workspace) (later : ℕ)
    → later < t.write_at + negative_ttl
    → (get (store_user id found t w).1.users id later).0 ≡ some (store_user id found t w).0
store_user-read id (nick, retry_at) t w later soon =
    get-insert_self w.users id (unwrap_or nick (user_fallback id)) t.write_at (ttl_of nick user_ttl)
      later
    ∙ ap (λ b. if b then some (unwrap_or nick (user_fallback id)) else none)
        (lt→ltb later (t.write_at + ttl_of nick user_ttl) (omega (arith, ttl_of_le nick)))

-- A name that was looked up, or that fell back to the id after a failed lookup, answers for the next
-- thirty seconds without Slack: the answer to another lookup makes no difference.
pub sender_nick-cached :
    (id : Text) (answer again : Answer User) (t later : Times) (w : Workspace)
    → (get w.users id t.read_at).0 ≡ none
    → later.read_at < t.write_at + negative_ttl
    → (sender_nick (user_only id) again later (sender_nick (user_only id) answer t w).1).0
      ≡ (sender_nick (user_only id) answer t w).0
unfolding sender_nick
sender_nick-cached id answer again t later w miss soon =
    let found = look_up user_nick answer t w.user_retry_at in
    let v = record w { users = (get w.users id t.read_at).1 } in
    let first = cached_nick-miss id answer t w miss in
    ap (λ x. (cached_nick id again later x.1).0) first
    ∙ cached_nick-hit id (store_user id found t v).0 again later (store_user id found t v).1
        (store_user-read id found t v later.read_at soon)
    ∙ ap (λ x. x.0) (sym first)

cached_nick-known :
    (id nick : Text) (x y : Answer User) (t : Times) (w : Workspace)
    → (get w.users id t.read_at).0 ≡ some nick
    → cached_nick id x t w ≡ cached_nick id y t w
unfolding cached_nick
cached_nick-known id nick x y t w hit = rw (hit, cached_nick) refl

look_up-limited :
    (x y : Answer User) (t : Times) (retry_at : Option ℕ)
    → lookup_allowed retry_at t.allowed_at ≡ false
    → look_up user_nick x t retry_at ≡ look_up user_nick y t retry_at
unfolding look_up
look_up-limited x y t retry_at limited = rw (limited, look_up) refl

-- While a retry instant lies ahead the answer is not asked for.
cached_nick-limited :
    (id : Text) (x y : Answer User) (t : Times) (w : Workspace)
    → lookup_allowed w.user_retry_at t.allowed_at ≡ false
    → cached_nick id x t w ≡ cached_nick id y t w
cached_nick-limited id x y t w limited = elim (Option-cases (get w.users id t.read_at).0) [
  | inr (nick, hit) ↦ cached_nick-known id nick x y t w hit
  | inl miss ↦
      cached_nick-miss id x t w miss
      ∙ ap (λ found. store_user id found t (record w { users = (get w.users id t.read_at).1 }))
          (look_up-limited x y t w.user_retry_at limited)
      ∙ sym (cached_nick-miss id y t w miss)
]

look_up-free :
    (delay : ℕ) (t : Times) (retry_at : Option ℕ)
    → lookup_allowed retry_at t.allowed_at ≡ true
    → look_up user_nick (rate_limited (some delay)) t retry_at
      ≡ (none, checked_add t.answered_at delay)
unfolding look_up lookup_error
look_up-free delay t retry_at free = rw (free, look_up) refl

-- The retry instant after a rate limit.
limit-store :
    (id : Text) (delay : ℕ) (t : Times) (w : Workspace)
    → (get w.users id t.read_at).0 ≡ none
    → lookup_allowed w.user_retry_at t.allowed_at ≡ true
    → (cached_nick id (rate_limited (some delay)) t w).1.user_retry_at
      ≡ checked_add t.answered_at delay
limit-store id delay t w miss free =
    ap (λ x. x.1.user_retry_at) (cached_nick-miss id (rate_limited (some delay)) t w miss)
    ∙ ap
        (λ found.
          (store_user id found t
            (record w { users = (get w.users id t.read_at).1 })).1.user_retry_at)
        (look_up-free delay t w.user_retry_at free)

-- After a rate limit no user is looked up before its delay is over, whoever sends the next message:
-- any two answers would leave the same name and the same workspace.
pub sender_nick-limited :
    (id other : Text) (delay : ℕ) (x y : Answer User) (t later : Times) (w : Workspace)
    → (get w.users id t.read_at).0 ≡ none
    → lookup_allowed w.user_retry_at t.allowed_at ≡ true
    → t.answered_at + delay ≤ 2 ^ 63 * 10 ^ 9 - 1
    → later.allowed_at < t.answered_at + delay
    → sender_nick
        (user_only other)
        x
        later
        (sender_nick (user_only id) (rate_limited (some delay)) t w).1
      ≡ sender_nick
          (user_only other)
          y
          later
          (sender_nick (user_only id) (rate_limited (some delay)) t w).1
unfolding sender_nick
sender_nick-limited id other delay x y t later w miss free small soon =
    let after = (cached_nick id (rate_limited (some delay)) t w).1 in
    let until : checked_add t.answered_at delay ≡ some (t.answered_at + delay) = ground arith in
    let set = limit-store id delay t w miss free ∙ until in
    cached_nick-limited other x y later after
      (ap (λ at. lookup_allowed at later.allowed_at) set ∙ ground arith)
