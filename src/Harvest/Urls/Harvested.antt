-- ===== src/Harvest/Urls/Harvested.antt =====
-- Which URLs are taken from a message, and what the counters say of the others.
use sjmb_slack.Prelude.{
  ℕ, suc, ◌+◌, ◌^◌, ◌≤◌, ◌<◌, ◌≡◌, refl, true, List, [], ◌∷◌, Option, none, some, length,
  length-take, take, arith, Option-cases, inl, inr, ◌⊎◌, All,
}
use sjmb_slack.Prelude.Text.{Text, len}
use sjmb_slack.Limits.Counters.{Counters, Counter, fetch_add}
use sjmb_slack.Url.{Url}
use sjmb_slack.Harvest.Urls.{
  max_url_bytes, max_urls_per_message, decode, link_target, accepts, Outcome, skipped, kept,
  discarded, parsed, candidate, keep, collect, extract_urls,
}

-- An outcome keeps a URL, or leaves the URLs as they are.
Outcome-cases :
    (o : Outcome) → ((u : Text) × (o ≡ kept u)) ⊎ ((r : List Text × Counters) → (keep o r).0 ≡ r.0)
Outcome-cases skipped = inr (λ (us, c). refl)
Outcome-cases (kept u) = inl (u, refl)
Outcome-cases (discarded reason) = inr (λ (us, c). refl)

fetch_add_room : (n : ℕ) → n + 1 < 2 ^ 64 → fetch_add n ≡ n + 1
unfolding fetch_add
fetch_add_room n h = omega arith

fetch_add_le : (n : ℕ) → fetch_add n ≤ n + 1
unfolding fetch_add
fetch_add_le n = omega arith

-- An outcome moves a counter up by one at most.
keep_le :
    (o : Outcome) (r : List Text × Counters)
    → ((keep o r).1.oversized_urls ≤ r.1.oversized_urls + 1)
      × ((keep o r).1.invalid ≤ r.1.invalid + 1)
keep_le skipped r = ground arith
keep_le (kept u) r = ground arith
keep_le (discarded Counter.full) r = ground arith
keep_le (discarded Counter.expired) r = ground arith
keep_le (discarded Counter.oversized_messages) r = ground arith
keep_le (discarded Counter.oversized_urls) r = ground (arith, fetch_add_le r.1.oversized_urls)
keep_le (discarded Counter.invalid) r = ground (arith, fetch_add_le r.1.invalid)
keep_le (discarded Counter.duplicates) r = ground arith

-- The matches whose group 1 took part.
abbrev pub matched : List (Option Text) → ℕ
matched [] = 0
matched (none ∷ os) = matched os
matched (some capture ∷ os) = suc (matched os)

-- What the counters of discarded URLs amount to.
abbrev pub discards : Counters → ℕ
discards c = c.oversized_urls + c.invalid

module _ (parse_url : Text → Option Url) where
  -- A harvested URL is what the parser makes of a decoded link that it accepts, and fits.
  pub record IsHarvested (url_text : Text) : Type 0 where
    pub source_text : Text
    pub url : Url
    pub parses : parse_url source_text ≡ some url
    pub accepted : accepts source_text url ≡ true
    pub printed : url.text ≡ url_text
    pub source_fits : len source_text ≤ max_url_bytes
    pub fits : len url_text ≤ max_url_bytes

  parsed-kept : (t u : Text) → len t ≤ max_url_bytes → parsed parse_url t ≡ kept u → IsHarvested u
  unfolding parsed
  parsed-kept t u small h = elim (Option-cases (parse_url t)) [
    | inl bad ↦ absurd (ground arith)
    | inr (url, parses) ↦ record {
      source_text = t;
      url = url;
      parses = parses;
      accepted = ground arith;
      printed = ground arith;
      source_fits = small;
      fits = ground arith;
    }
  ]

  candidate-kept : (o : Option Text) (u : Text) → candidate parse_url o ≡ kept u → IsHarvested u
  unfolding candidate
  candidate-kept none u h = absurd (ground arith)
  candidate-kept (some capture) u h =
      parsed-kept (decode (link_target capture)) u (ground arith) (ground arith)

  All-collect :
      (captures : List (Option Text)) (c : Counters)
      → All IsHarvested (collect parse_url captures c).0
  unfolding collect
  All-collect [] c = tt
  All-collect (o ∷ os) c = elim (Outcome-cases (candidate parse_url o)) [
    | inl (u, e) ↦ rw (e, keep) (candidate-kept o u e, All-collect os c)
    | inr same ↦ rw (same (collect parse_url os c)) (All-collect os c)
  ]

  length-collect :
      (captures : List (Option Text)) (c : Counters)
      → length (collect parse_url captures c).0 ≤ length captures
  unfolding collect
  length-collect [] c = omega arith
  length-collect (o ∷ os) c = elim (Outcome-cases (candidate parse_url o)) [
    | inl (u, e) ↦ rw (e, keep) (omega (arith, length-collect os c))
    | inr same ↦ rw (same (collect parse_url os c)) (omega (arith, length-collect os c))
  ]

  -- A match is discarded for its length or as invalid, and none is if group 1 did not take part.
  candidate-counted :
      (o : Option Text) (r : List Text × Counters)
      → r.1.oversized_urls + 1 < 2 ^ 64
      → r.1.invalid + 1 < 2 ^ 64
      → length (keep (candidate parse_url o) r).0 + discards (keep (candidate parse_url o) r).1
        ≡ matched (o ∷ []) + length r.0 + discards r.1
  unfolding candidate parsed
  candidate-counted none r h g = ground arith
  candidate-counted (some capture) (us, c) h g =
      elim (Option-cases (parse_url (decode (link_target capture)))) [
        | inl bad ↦ ground (arith, fetch_add_room c.oversized_urls h, fetch_add_room c.invalid g)
        | inr (url, parses) ↦
            ground (arith, fetch_add_room c.oversized_urls h, fetch_add_room c.invalid g)
      ]

  matched_cons :
      (o : Option Text) (os : List (Option Text)) → matched (o ∷ os) ≡ matched (o ∷ []) + matched os
  matched_cons none os = omega arith
  matched_cons (some capture) os = omega arith

  collect-counted :
      (captures : List (Option Text)) (c : Counters)
      → c.oversized_urls + length captures < 2 ^ 64
      → c.invalid + length captures < 2 ^ 64
      → (length (collect parse_url captures c).0 + discards (collect parse_url captures c).1
          ≡ matched captures + discards c)
        × ((collect parse_url captures c).1.oversized_urls ≤ c.oversized_urls + length captures)
        × ((collect parse_url captures c).1.invalid ≤ c.invalid + length captures)
  unfolding collect
  collect-counted [] c h g = ground arith
  collect-counted (o ∷ os) c h g =
      let (count, few, few') = collect-counted os c (omega arith) (omega arith) in
      let rest = collect parse_url os c in
      let now = candidate-counted o rest (omega arith) (omega arith) in
      let (up, up') = keep_le (candidate parse_url o) rest in
      (omega (arith, matched_cons o os), omega arith, omega arith)

-- What is harvested from a message is at most sixteen URLs, each the text of a parsed http or https
-- URL with a host, from a link without blanks or controls, both of at most 2048 bytes.
pub extract_urls-IsHarvested :
    (parse_url : Text → Option Url) (captures : Text → List (Option Text)) (text : Text)
    (c : Counters)
    → All (IsHarvested parse_url) (extract_urls parse_url captures text c).0
      × (length (extract_urls parse_url captures text c).0 ≤ 16)
unfolding extract_urls
extract_urls-IsHarvested parse_url captures text c = (
  All-collect parse_url (take max_urls_per_message (captures text)) c,
  omega (
    arith,
    length-collect parse_url (take max_urls_per_message (captures text)) c,
    length-take max_urls_per_message (captures text),
  ),
)

-- No match is lost: while the two counters are sixteen below their wrap, each of the first sixteen
-- matches of group 1 is harvested or counted as oversized or invalid.
pub extract_urls-counted :
    (parse_url : Text → Option Url) (captures : Text → List (Option Text)) (text : Text)
    (c : Counters)
    → c.oversized_urls + 16 < 2 ^ 64
    → c.invalid + 16 < 2 ^ 64
    → length (extract_urls parse_url captures text c).0
        + discards (extract_urls parse_url captures text c).1
      ≡ matched (take 16 (captures text)) + discards c
unfolding extract_urls
extract_urls-counted parse_url captures text c h g =
    let few = length-take 16 (captures text) in
    (collect-counted parse_url (take 16 (captures text)) c (omega arith) (omega arith)).0
