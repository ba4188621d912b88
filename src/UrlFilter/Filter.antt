-- ===== src/UrlFilter/Filter.antt =====
-- `UrlFilter` of src/url_filter.rs: its rules and its check. The answer of the resolver is an argument.
pub mod Rules
pub mod Admission
pub mod Compiled
use sjmb_slack.Prelude.{
  ℕ, suc, ◌+◌, Bool, true, false, not, ◌&&◌, ◌||◌, List, [], ◌∷◌, Option, none, some, leb, ltb, all,
  any, length, take, ◌==◌, if◌then◌else◌,
}
use sjmb_slack.Prelude.Text.{Text, codes, is_control, is_whitespace, is_empty, text_eq}
use sjmb_slack.Prelude.Result.{Result, ok, err, ◌>>=◌, ◌>>◌, ensure}
use sjmb_slack.Url.{Host, domain, ipv4, ipv6, Url, UrlParsers}
use sjmb_slack.UrlFilter.Address.{IpAddr, v4, v6, is_public_address}
use sjmb_slack.UrlFilter.Names.{dns_name, blocks_domain, contains}

abbrev pub max_dns_addresses : ℕ
max_dns_addresses = 64

pub record UrlFilter : Type 0 where
  pub domains : List Text
  pub addresses : List IpAddr

abbrev pub empty_filter : UrlFilter
empty_filter = record { domains = []; addresses = [] }

abbrev pub ip_eq : IpAddr → IpAddr → Bool
ip_eq (v4 a) (v4 b) = a == b
ip_eq (v4 a) (v6 b) = false
ip_eq (v6 a) (v4 b) = false
ip_eq (v6 a) (v6 b) = a == b

abbrev pub contains_ip : List IpAddr → IpAddr → Bool
contains_ip ips ip = any (λ x. ip_eq x ip) ips

-- `HashSet::insert`.
abbrev pub add_domain : Text → UrlFilter → UrlFilter
add_domain d f = if contains f.domains d then f else record f { domains = d ∷ f.domains }

abbrev pub add_address : IpAddr → UrlFilter → UrlFilter
add_address ip f =
    if contains_ip f.addresses ip then f else record f { addresses = ip ∷ f.addresses }

pub data RuleError : Type 0 where
  malformed invalid_host invalid_name : RuleError

abbrev pub forbidden : Text
forbidden = codes "/?#@%*\\"

-- The characters of a rule that is no bare address.
abbrev pub plain_rule : Text → Bool
plain_rule rule =
    not (is_empty rule)
    && not (any (λ c. is_whitespace c || is_control c) rule)
    && not (any (λ c. any (λ x. x == c) forbidden) rule)

module _ (p : UrlParsers) where
  unfoldable pub add_host : Host → UrlFilter → Result RuleError UrlFilter
  add_host (domain d) f = elim (dns_name d) [
    | none ↦ err invalid_name
    | some n ↦ ok (add_domain n f)
  ]
  add_host (ipv4 ip) f = ok (add_address (v4 ip) f)
  add_host (ipv6 ip) f = ok (add_address (v6 ip) f)

  unfoldable pub add : Text → UrlFilter → Result RuleError UrlFilter
  unfolding add_host
  add rule f = elim (p.parse_ip rule) [
    | some ip ↦ ok (add_address ip f)
    | none ↦
        if plain_rule rule
        then elim (p.parse_host rule) [ none ↦ err invalid_host | some h ↦ add_host h f ]
        else err malformed
  ]

  -- The loop of `compile`; an error carries the number of its entry, from 1.
  unfoldable pub compile_from : ℕ → List Text → UrlFilter → Result (ℕ × RuleError) UrlFilter
  compile_from index [] f = ok f
  compile_from index (rule ∷ rules) f = elim (add rule f) [
    | err e ↦ err (index + 1, e)
    | ok g ↦ compile_from (index + 1) rules g
  ]

  unfoldable pub compile : List Text → Result (ℕ × RuleError) UrlFilter
  unfolding compile_from
  compile rules = compile_from 0 rules empty_filter

-- `extend` of both sets.
unfoldable pub add_domains : List Text → UrlFilter → UrlFilter
add_domains [] f = f
add_domains (d ∷ ds) f = add_domains ds (add_domain d f)

unfoldable pub add_addresses : List IpAddr → UrlFilter → UrlFilter
add_addresses [] f = f
add_addresses (ip ∷ ips) f = add_addresses ips (add_address ip f)

unfoldable pub include : UrlFilter → UrlFilter → UrlFilter
unfolding add_domains add_addresses
include f other = add_addresses other.addresses (add_domains other.domains f)

-- How the lookup of a name ends: the timeout of three seconds, an error, or the addresses.
pub data Resolution : Type 0 where
  timed_out failed : Resolution
  resolved : List IpAddr → Resolution

abbrev pub is_web : Text → Bool
is_web scheme = text_eq scheme (codes "http") || text_eq scheme (codes "https")

pub data CheckError : Type 0 where
  invalid_url unsupported_scheme no_host invalid_dns_name blacklisted_domain : CheckError
  lookup_timed_out lookup_failed no_addresses too_many_addresses : CheckError
  blacklisted_address non_public_address : CheckError

-- The checks of the addresses, in the order of the source.
unfoldable pub check_addresses : UrlFilter → List IpAddr → Result CheckError (Unit {0})
check_addresses f addresses = do
  ensure (ltb 0 (length addresses)) no_addresses
  ensure (leb (length addresses) max_dns_addresses) too_many_addresses
  ensure (all (λ ip. not (contains_ip f.addresses ip)) addresses) blacklisted_address
  ensure (all is_public_address addresses) non_public_address

abbrev pub or_fail : {A : Type 0} → Option A → CheckError → Result CheckError A
or_fail none e = err e
or_fail (some a) e = ok a

module _ (resolve : Text → Resolution) where
  -- The addresses of the URL's host.
  unfoldable pub host_addresses : UrlFilter → Host → Result CheckError (List IpAddr)
  host_addresses f (domain d) = elim (dns_name d) [
    | none ↦ err invalid_dns_name
    | some name ↦
        if blocks_domain f.domains name then err blacklisted_domain else elim (resolve name) [
          | timed_out ↦ err lookup_timed_out
          | failed ↦ err lookup_failed
          | resolved addresses ↦ ok addresses
        ]
  ]
  host_addresses f (ipv4 ip) = ok (v4 ip ∷ [])
  host_addresses f (ipv6 ip) = ok (v6 ip ∷ [])

  unfoldable pub check_with_resolver : UrlParsers → UrlFilter → Text → Result CheckError (Unit {0})
  check_with_resolver p f input = do
    url ← or_fail (p.parse_url input) invalid_url
    ensure (is_web url.scheme) unsupported_scheme
    host ← or_fail url.host no_host
    addresses ← host_addresses f host
    check_addresses f addresses

-- `lookup_host`, of which one address more than the limit is taken.
abbrev pub first_addresses : Resolution → Resolution
first_addresses (resolved ips) = resolved (take (max_dns_addresses + 1) ips)
first_addresses r = r

unfoldable pub check :
    (Text → Resolution) → UrlParsers → UrlFilter → Text → Result CheckError (Unit {0})
unfolding check_with_resolver
check lookup_host = check_with_resolver (λ name. first_addresses (lookup_host name))
