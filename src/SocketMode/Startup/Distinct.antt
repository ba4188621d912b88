-- ===== src/SocketMode/Startup/Distinct.antt =====
-- Which workspaces are listened to, and what is cached of them.
use sjmb_slack.Prelude.{
  ℕ, suc, ◌+◌, ◌≡◌, false, List, [], ◌∷◌, ◌++◌, Option, none, some, length, length-append, All,
  All-append, arith, subst, Bool-cases, inl, inr,
}
use sjmb_slack.Prelude.Text.{Text, text_eq_iff, text_Eq}
use sjmb_slack.Prelude.Result.{Result, ok, err}
use sjmb_slack.Prelude.Result.{Result-cases}
use sjmb_slack.Limits.Cache.{ExpiringCache}
use sjmb_slack.Limits.Cache.Eviction.{IsValid, insert-IsValid}
use sjmb_slack.Limits.LogText.{log_text}
use sjmb_slack.Bot.Workspace.{Workspace, channel_ttl}
use sjmb_slack.Bot.Workspace.Short.{ShortNames, ShortNames-insert, log_text-IsShort}
use sjmb_slack.SocketMode.Health.{Failure}
use sjmb_slack.SocketMode.Startup.{
  StartupError, AuthTest, ListedChannel, Startup, empty_cache, plain_name, cache_name, cache_page,
  cache_pages, connected_as, known_app, known_team, connect, watched, same_installation, installed,
  listen, start_all, Watched, connect_and_watch,
}

abbrev Clean : ExpiringCache Text Text → Type 0
Clean c = IsValid c × ShortNames c.entries

empty_cache-Clean : Clean empty_cache
empty_cache-Clean = (record { positive = omega arith; bounded = omega arith; distinct = tt }, tt)

cache_name-Clean :
    (id : Text) (name : Option Text) (now : ℕ) (c : ExpiringCache Text Text)
    → Clean c
    → Clean (cache_name id name now c)
cache_name-Clean id none now c h = h
cache_name-Clean id (some name) now c (valid, short) = (
  insert-IsValid c id (log_text name 256) now channel_ttl valid,
  ShortNames-insert c id (log_text name 256) now channel_ttl (log_text-IsShort name) short,
)

cache_page-Clean :
    (clock : ℕ → ℕ) (n : ℕ) (page : List ListedChannel) (c : ExpiringCache Text Text)
    → Clean c
    → Clean (cache_page clock n page c)
unfolding cache_page
cache_page-Clean clock n [] c h = h
cache_page-Clean clock n (x ∷ rest) c h =
    cache_page-Clean clock (suc n) rest
      (cache_name x.channel_id (plain_name x.name_normalized) (clock n) c)
      (cache_name-Clean x.channel_id (plain_name x.name_normalized) (clock n) c h)

-- A workspace with caches within their limits.
abbrev pub IsClean : Workspace → Type 0
IsClean w = IsValid w.channels × ShortNames w.channels.entries

abbrev OkClean : Result StartupError (ExpiringCache Text Text) → Type 0
OkClean (ok c) = Clean c
OkClean (err e) = Unit

abbrev OkIsClean : Result StartupError Workspace → Type 0
OkIsClean (ok w) = IsClean w
OkIsClean (err e) = Unit

cache_pages-OkClean :
    (clock : ℕ → ℕ → ℕ) (n : ℕ) (pages : List (Result StartupError (List ListedChannel)))
    (c : ExpiringCache Text Text)
    → Clean c
    → OkClean (cache_pages clock n pages c)
unfolding cache_pages
cache_pages-OkClean clock n [] c h = h
cache_pages-OkClean clock n (err e ∷ rest) c h = tt
cache_pages-OkClean clock n (ok page ∷ rest) c h =
    cache_pages-OkClean clock (suc n) rest (cache_page (clock n) 0 page c)
      (cache_page-Clean (clock n) 0 page c h)

connected_as-OkIsClean :
    (s : Startup) (team app : Text) (r : Result StartupError (ExpiringCache Text Text))
    → OkClean r
    → OkIsClean (connected_as s team app r)
connected_as-OkIsClean s team app (err e) h = tt
connected_as-OkIsClean s team app (ok c) h = h

known_app-OkIsClean :
    (s : Startup) (team : Text) (r : Result StartupError Text) → OkIsClean (known_app s team r)
known_app-OkIsClean s team (err e) = tt
known_app-OkIsClean s team (ok app) =
    connected_as-OkIsClean s team app (cache_pages s.clock 0 s.pages empty_cache)
      (cache_pages-OkClean s.clock 0 s.pages empty_cache empty_cache-Clean)

known_bot-OkIsClean :
    (s : Startup) (team : Text) (bot : Option Text)
    → OkIsClean (known_team s (ok (record { auth_team = team; auth_bot = bot })))
known_bot-OkIsClean s team none = tt
known_bot-OkIsClean s team (some bot) = known_app-OkIsClean s team (s.bots_info bot)

known_team-OkIsClean : (s : Startup) (r : Result StartupError AuthTest) → OkIsClean (known_team s r)
known_team-OkIsClean s (err e) = tt
known_team-OkIsClean s (ok auth) = known_bot-OkIsClean s auth.auth_team auth.auth_bot

connect-IsClean : (s : Startup) (w : Workspace) → connect s ≡ ok w → IsClean w
unfolding connect
connect-IsClean s w h = subst OkIsClean h (known_team-OkIsClean s s.auth_test)

-- No two workspaces are the same installation.
abbrev pub Apart : List Workspace → Type 0
Apart [] = Unit
Apart (w ∷ ws) = All (λ v. same_installation w v ≡ false) ws × Apart ws

same_installation_sym : (v w : Workspace) → same_installation v w ≡ same_installation w v
same_installation_sym v w = ground (
  arith,
  text_eq_iff v.team_id w.team_id,
  text_eq_iff w.team_id v.team_id,
  text_eq_iff v.app_id w.app_id,
  text_eq_iff w.app_id v.app_id,
)

Apart-snoc :
    (ws : List Workspace) (w : Workspace) → installed ws w ≡ false → Apart ws → Apart (ws ++ w ∷ [])
Apart-snoc [] w h a = (tt, tt)
Apart-snoc (v ∷ ws) w h (now, later) = (
  All-append (λ x. same_installation v x ≡ false) ws (w ∷ []) now
      (ground (arith, same_installation_sym v w, h), tt),
  Apart-snoc ws w (ground (arith, h)) later,
)

-- What the loop leaves, from the listeners that it starts with.
abbrev Leaves : ℕ → List Workspace → Result StartupError (Unit {0}) × List Workspace → Type 0
Leaves n before (ok u, after) = Apart after × All IsClean after × (length after ≡ length before + n)
Leaves n before (err e, after) = Apart after × All IsClean after

Leaves-next :
    (n : ℕ) (before : List Workspace) (w : Workspace)
    (out : Result StartupError (Unit {0}) × List Workspace)
    → Leaves n (before ++ w ∷ []) out
    → Leaves (suc n) before out
Leaves-next n before w (ok u, after) (apart, clean, size) =
    (apart, clean, omega (arith, size, length-append before (w ∷ [])))
Leaves-next n before w (err e, after) h = h

start_all-Leaves :
    (startups : List Startup) (before : List Workspace)
    → Apart before
    → All IsClean before
    → Leaves (length startups) before (start_all startups before)
unfolding start_all
start_all-Leaves [] before apart clean = (apart, clean, omega arith)
start_all-Leaves (s ∷ rest) before apart clean = elim (Result-cases (connect s)) [
  | inr (x, e) ↦ rw (e, start_all) (apart, clean)
  | inl (w, e) ↦ elim (Bool-cases (installed before w)) [
    | inl again ↦ rw (e, again, start_all) (apart, clean)
    | inr new ↦
        let more = Apart-snoc before w new apart in
        let all_clean = All-append IsClean before (w ∷ []) clean (connect-IsClean s w e, tt) in
        elim (Result-cases (listen s)) [
          | inr (x, f) ↦ rw (e, new, f, start_all) (more, all_clean)
          | inl (u, f) ↦
              rw (e, new, f, start_all)
                (Leaves-next (length rest) before w (start_all rest (before ++ w ∷ []))
                  (start_all-Leaves rest (before ++ w ∷ []) more all_clean))
        ]
  ]
]

-- A session as it is watched.
abbrev pub Sound : List Startup → Watched → Type 0
Sound startups r =
    Apart r.listeners
    × All IsClean r.listeners
    × ((t : ℕ) → r.registered_since ≡ some t → length r.listeners ≡ length startups)

watched-Sound :
    (startups : List Startup) (now : ℕ) (failure : Option Failure)
    (out : Result StartupError (Unit {0}) × List Workspace)
    → Leaves (length startups) [] out
    → Sound startups (watched now failure out)
watched-Sound startups now failure (err e, listeners) (apart, clean) =
    (apart, clean, λ t h. absurd (ground (arith, h)))
watched-Sound startups now failure (ok u, listeners) (apart, clean, size) =
    (apart, clean, λ t h. omega (arith, size))

-- However the start of a session ends, no installation of the app is listened to twice, so that an event
-- comes from one workspace only, and the channel names of each workspace are within the limits of the
-- cache and the console; the session counts as connected only once every workspace has its listener.
pub connect_and_watch-Sound :
    (startups : List Startup) (now : ℕ) (failure : Option Failure)
    → Sound startups (connect_and_watch startups now failure)
unfolding connect_and_watch
connect_and_watch-Sound startups now failure =
    watched-Sound startups now failure (start_all startups []) (start_all-Leaves startups [] tt tt)
