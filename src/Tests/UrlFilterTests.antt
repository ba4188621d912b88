-- ===== src/Tests/UrlFilterTests.antt =====
-- The tests of src/url_filter.rs and src/harvest.rs, and witnesses for the theorems about them.
use sjmb_slack.Prelude.{
  ◌≤◌, ◌≡◌, refl, ◌↔◌, true, List, [], ◌∷◌, ◌++◌, Option, none, some, length, if◌then◌else◌, arith,
  All, map,
}
use sjmb_slack.Prelude.Text.{Text, text_eq, codes, len}
use sjmb_slack.Prelude.Result.{ok, err}
use sjmb_slack.Url.{Host, domain, ipv4, Url, UrlParsers}
use sjmb_slack.UrlFilter.Address.{v4, v6, quad, groups, is_public_address}
use sjmb_slack.UrlFilter.Address.Ranges.{is_public_address-ranges, outside_special}
use sjmb_slack.UrlFilter.Names.{dot, dns_name, blocks_domain, contains, lower}
use sjmb_slack.UrlFilter.Names.Canonical.{dns_name-canonical}
use sjmb_slack.UrlFilter.Names.Suffixes.{LabelSuffix, blocks_domain-suffix}
use sjmb_slack.UrlFilter.Filter.{
  UrlFilter, empty_filter, compile, add, host_addresses, check_addresses, Resolution, timed_out,
  resolved, check_with_resolver, check, blacklisted_domain, lookup_timed_out, non_public_address,
  malformed,
}
use sjmb_slack.UrlFilter.Filter.Admission.{IsAdmitted, check-IsAdmitted}
use sjmb_slack.Prelude.{◌||◌}
use sjmb_slack.UrlFilter.Filter.{include, contains_ip}
use sjmb_slack.UrlFilter.Filter.Rules.{include-blocks}
use sjmb_slack.UrlFilter.Filter.Compiled.{Covers, compile-Covers}
use sjmb_slack.Limits.Counters.{zero_counters, fetch_add}
use sjmb_slack.Harvest.Urls.{decode, extract_urls}
use sjmb_slack.Harvest.Urls.Decode.{decode-escape}
use sjmb_slack.Harvest.Urls.Harvested.{IsHarvested, extract_urls-IsHarvested}

abbrev example_com : Text
example_com = codes "example.com."

-- Parsers that know two URLs and take a rule for a name.
abbrev sample_url : Host → Url
sample_url h = record {
  scheme = codes "https";
  host = some h;
  host_str = some (codes "host");
  username = [];
  password = none;
  port_or_known_default = some 443;
  fragment = none;
  text = codes "https://host/";
}

abbrev parsers : UrlParsers
parsers = record {
  parse_ip = λ t. if text_eq t (codes "10.0.0.1") then some (v4 (quad 10 0 0 1)) else none;
  parse_host = λ t. some (domain t);
  parse_url = λ t.
      if text_eq t (codes "name")
      then some (sample_url (domain (codes "Sub.Example.com")))
      else if text_eq t (codes "addr")
      then some (sample_url (ipv4 (quad 1 1 1 1)))
      else none;
}

abbrev filter : UrlFilter
filter = record { domains = example_com ∷ []; addresses = v4 (quad 10 0 0 1) ∷ [] }

abbrev to_public : Text → Resolution
to_public name = resolved (v4 (quad 8 8 8 8) ∷ [])

abbrev to_nothing : Text → Resolution
to_nothing name = timed_out

compiled : compile parsers (codes "EXAMPLE.com" ∷ codes "10.0.0.1" ∷ []) ≡ ok filter
unfolding compile dns_name add
compiled = refl

second_is_bad : compile parsers (codes "example.com" ∷ codes "a b" ∷ []) ≡ err (2, malformed)
unfolding compile dns_name add
second_is_bad = refl

blocks_subdomain : check to_nothing parsers filter (codes "name") ≡ err blacklisted_domain
unfolding check host_addresses dns_name blocks_domain
blocks_subdomain = refl

unblocked : check to_nothing parsers empty_filter (codes "name") ≡ err lookup_timed_out
unfolding check host_addresses dns_name blocks_domain
unblocked = refl

resolves_private :
    check
      (λ n. resolved (v4 (quad 8 8 8 8) ∷ v4 (quad 10 0 0 1) ∷ []))
      parsers
      empty_filter
      (codes "name")
    ≡ err non_public_address
unfolding check host_addresses dns_name blocks_domain check_addresses is_public_address
resolves_private = refl

is_public_address-ranges_example :
    is_public_address (v6 (groups 0x2606 0x4700 0 0 0 0 0 1))
    ≡ outside_special (v6 (groups 0x2606 0x4700 0 0 0 0 0 1))
is_public_address-ranges_example =
    is_public_address-ranges (v6 (groups 0x2606 0x4700 0 0 0 0 0 1)) (omega arith)

name_of : dns_name (codes "Example.COM") ≡ some example_com
unfolding dns_name
name_of = refl

dns_name-canonical_example :
    (dns_name example_com ≡ some example_com)
    × (len example_com ≤ 254)
    × ((t : Text) × (example_com ≡ t ++ dot ∷ []) × (map lower t ≡ t))
dns_name-canonical_example = dns_name-canonical (codes "Example.COM") example_com name_of

blocks_domain-suffix_example :
    (blocks_domain (example_com ∷ []) (codes "a.example.com.") ≡ true)
    ↔ ((r : Text) × LabelSuffix r (codes "a.example.com.") × (contains (example_com ∷ []) r ≡ true))
blocks_domain-suffix_example = blocks_domain-suffix (example_com ∷ []) (codes "a.example.com.")

check-IsAdmitted_example :
    (check_with_resolver to_public parsers filter (codes "addr") ≡ ok tt
      → IsAdmitted to_public parsers filter (codes "addr"))
    × (IsAdmitted to_public parsers filter (codes "addr")
        → check_with_resolver to_public parsers filter (codes "addr") ≡ ok tt)
check-IsAdmitted_example = check-IsAdmitted to_public parsers filter (codes "addr")

-- The address of that URL is public and free, so it passes, and is admitted.
addr_passes : check_with_resolver to_public parsers filter (codes "addr") ≡ ok tt
unfolding check_with_resolver host_addresses check_addresses is_public_address
addr_passes = refl

sub_name : dns_name (codes "Sub.Example.com") ≡ some (codes "sub.example.com.")
unfolding dns_name
sub_name = refl

sub_blocked : blocks_domain filter.domains (codes "sub.example.com.") ≡ true
unfolding blocks_domain
sub_blocked = refl

compile-Covers_example : All (Covers parsers filter) (codes "EXAMPLE.com" ∷ codes "10.0.0.1" ∷ [])
compile-Covers_example =
    compile-Covers parsers (codes "EXAMPLE.com" ∷ codes "10.0.0.1" ∷ []) filter compiled

decode-escape_example :
    decode (codes "https://a/?x=1&amp;y=&amp;lt;") ≡ codes "https://a/?x=1&y=&lt;"
decode-escape_example = decode-escape (codes "https://a/?x=1&y=&lt;")

-- Three matches: a link with a label, one without group 1, and no URL.
abbrev captures : Text → List (Option Text)
captures t = some (codes "name|label") ∷ none ∷ some (codes "nothing") ∷ []

harvests :
    extract_urls parsers.parse_url captures [] zero_counters
    ≡ (codes "https://host/" ∷ [], record zero_counters { invalid = 1 })
unfolding extract_urls fetch_add
harvests = refl

extract_urls-IsHarvested_example :
    All (IsHarvested parsers.parse_url) (extract_urls parsers.parse_url captures [] zero_counters).0
    × (length (extract_urls parsers.parse_url captures [] zero_counters).0 ≤ 16)
extract_urls-IsHarvested_example =
    extract_urls-IsHarvested parsers.parse_url captures [] zero_counters

include-blocks_example :
    (blocks_domain (include empty_filter filter).domains (codes "sub.example.com.") ≡ (
      blocks_domain filter.domains (codes "sub.example.com.")
      || blocks_domain empty_filter.domains (codes "sub.example.com.")))
    × (contains_ip (include empty_filter filter).addresses (v4 0)
        ≡ (contains_ip filter.addresses (v4 0) || contains_ip empty_filter.addresses (v4 0)))
include-blocks_example = include-blocks empty_filter filter (codes "sub.example.com.") (v4 0)
