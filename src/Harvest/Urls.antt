-- ===== src/Harvest/Urls.antt =====
-- `extract_urls` of src/harvest.rs. The matches of the configured regex and the parser of the `url`
-- crate are arguments.
pub mod Decode
pub mod Harvested
use sjmb_slack.Prelude.{
  ℕ, zero, suc, ◌-◌, Bool, true, false, not, ◌&&◌, ◌||◌, List, [], ◌∷◌, ◌++◌, Option, none, some,
  leb, ltb, any, length, take, if◌then◌else◌,
}
use sjmb_slack.Prelude.Text.{Text, codes, len, is_control, is_whitespace, split_once, starts_with}
use sjmb_slack.Limits.Counters.{Counters, Counter, oversized_urls, invalid, bump}
use sjmb_slack.Url.{Url}
use sjmb_slack.UrlFilter.Filter.{is_web}

abbrev pub max_url_bytes : ℕ
max_url_bytes = 2048

abbrev pub max_urls_per_message : ℕ
max_urls_per_message = 16

-- `str::replace`: from the left, without overlaps; the number is what is left of a match to skip.
unfoldable pub replace_from : Text → Text → ℕ → Text → Text
replace_from pattern by skip [] = []
replace_from pattern by (suc skip) (c ∷ cs) = replace_from pattern by skip cs
replace_from pattern by zero (c ∷ cs) = elim (starts_with pattern (c ∷ cs)) [
  | true ↦ by ++ replace_from pattern by (length pattern - 1) cs
  | false ↦ c ∷ replace_from pattern by 0 cs
]

abbrev pub replace : Text → Text → Text → Text
replace pattern by t = replace_from pattern by 0 t

-- The entities of Slack, `&amp;` last.
unfoldable pub decode : Text → Text
unfolding replace_from
decode t =
    replace (codes "&amp;") (codes "&")
      (replace (codes "&gt;") (codes ">") (replace (codes "&lt;") (codes "<") t))

-- What stands before the first pipe.
abbrev pub link_target : Text → Text
link_target t = elim (split_once b'|' t) [ none ↦ t | some (url, _) ↦ url ]

abbrev pub is_some : {A : Type 0} → Option A → Bool
is_some none = false
is_some (some a) = true

-- A URL is taken if it is of the web, has a host, and its text has no blanks and no controls.
abbrev pub accepts : Text → Url → Bool
accepts text url =
    is_web url.scheme
    && is_some url.host_str
    && not (any (λ ch. is_control ch || is_whitespace ch) text)

-- How a match ends: skipped if its group 1 did not match, kept, or discarded for a reason.
pub data Outcome : Type 0 where
  skipped : Outcome
  kept : Text → Outcome
  discarded : Counter → Outcome

abbrev pub keep : Outcome → List Text × Counters → List Text × Counters
keep skipped (urls, counters) = (urls, counters)
keep (kept url) (urls, counters) = (url ∷ urls, counters)
keep (discarded reason) (urls, counters) = (urls, bump reason counters)

module _ (parse_url : Text → Option Url) where
  unfoldable pub parsed : Text → Outcome
  parsed text = elim (parse_url text) [
    | none ↦ discarded invalid
    | some url ↦
        if accepts text url
        then (if ltb max_url_bytes (len url.text) then discarded oversized_urls else kept url.text)
        else discarded invalid
  ]

  unfoldable pub candidate : Option Text → Outcome
  unfolding decode parsed
  candidate none = skipped
  candidate (some capture) =
      let text = decode (link_target capture) in
      if ltb max_url_bytes (len text) then discarded oversized_urls else parsed text

  -- `filter_map` and `collect`. The counters are only added to, so their order is free.
  unfoldable pub collect : List (Option Text) → Counters → List Text × Counters
  unfolding candidate
  collect [] counters = ([], counters)
  collect (capture ∷ captures) counters = keep (candidate capture) (collect captures counters)

  unfoldable pub extract_urls : (Text → List (Option Text)) → Text → Counters → List Text × Counters
  unfolding collect
  extract_urls captures text counters = collect (take max_urls_per_message (captures text)) counters
