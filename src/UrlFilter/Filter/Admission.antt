-- ===== src/UrlFilter/Filter/Admission.antt =====
-- Which URLs pass the check.
use sjmb_slack.Prelude.{
  ◌≤◌, ◌<◌, ◌≡◌, refl, inl, inr, true, false, not, List, [], ◌∷◌, some, all, length, arith,
  Option-cases, All,
}
use sjmb_slack.Prelude.Text.{Text}
use sjmb_slack.Prelude.Result.{ok, err, Result-cases}
use sjmb_slack.Url.{Host, domain, ipv4, ipv6, Url, UrlParsers}
use sjmb_slack.UrlFilter.Address.{IpAddr, v4, v6, is_public_address}
use sjmb_slack.UrlFilter.Names.{dns_name, blocks_domain}
use sjmb_slack.UrlFilter.Filter.{
  UrlFilter, contains_ip, blacklisted_domain, Resolution, resolved, is_web, host_addresses,
  check_addresses, check_with_resolver, max_dns_addresses, or_fail,
}

-- The addresses of a host: those of a name that is well formed, not blocked and resolved, or the
-- address that the URL itself gives.
abbrev pub HostResolves : (Text → Resolution) → UrlFilter → Host → List IpAddr → Type 0
HostResolves resolve f (domain d) ips =
    (n : Text) × (dns_name d ≡ some n)
    × (blocks_domain f.domains n ≡ false)
    × (resolve n ≡ resolved ips)
HostResolves resolve f (ipv4 ip) ips = ips ≡ v4 ip ∷ []
HostResolves resolve f (ipv6 ip) ips = ips ≡ v6 ip ∷ []

-- An address that may be stored.
abbrev pub AllowedAddress : UrlFilter → IpAddr → Type 0
AllowedAddress f ip = (contains_ip f.addresses ip ≡ false) × (is_public_address ip ≡ true)

pub record IsAdmitted (resolve : Text → Resolution) (p : UrlParsers) (f : UrlFilter) (input : Text)
    : Type 0 where
  pub url : Url
  pub host : Host
  pub ips : List IpAddr
  pub parsed : p.parse_url input ≡ some url
  pub web : is_web url.scheme ≡ true
  pub hosted : url.host ≡ some host
  pub resolves : HostResolves resolve f host ips
  pub some_address : 0 < length ips
  pub few_addresses : length ips ≤ max_dns_addresses
  pub allowed : All (AllowedAddress f) ips

module _ (f : UrlFilter) where
  all-allowed :
      (ips : List IpAddr)
      → all (λ ip. not (contains_ip f.addresses ip)) ips ≡ true
      → all is_public_address ips ≡ true
      → All (AllowedAddress f) ips
  all-allowed [] h g = tt
  all-allowed (ip ∷ ips) h g =
      ((ground arith, ground arith), all-allowed ips (ground arith) (ground arith))

  allowed-all :
      (ips : List IpAddr)
      → All (AllowedAddress f) ips
      → (all (λ ip. not (contains_ip f.addresses ip)) ips ≡ true)
        × (all is_public_address ips ≡ true)
  allowed-all [] a = (refl, refl)
  allowed-all (ip ∷ ips) a = ground (arith, allowed-all ips a.1)

  check_addresses-ok :
      (ips : List IpAddr)
      → check_addresses f ips ≡ ok tt
      → (0 < length ips) × (length ips ≤ max_dns_addresses) × All (AllowedAddress f) ips
  unfolding check_addresses
  check_addresses-ok ips h = ground (arith, all-allowed ips)

  ok-check_addresses :
      (ips : List IpAddr)
      → 0 < length ips
      → length ips ≤ max_dns_addresses
      → All (AllowedAddress f) ips
      → check_addresses f ips ≡ ok tt
  unfolding check_addresses
  ok-check_addresses ips h g a = ground (arith, allowed-all ips a)

module _ (resolve : Text → Resolution) (f : UrlFilter) where
  host_addresses-ok :
      (h : Host) (ips : List IpAddr)
      → host_addresses resolve f h ≡ ok ips
      → HostResolves resolve f h ips
  unfolding host_addresses
  host_addresses-ok (domain d) ips e = elim (Option-cases (dns_name d)) [
    | inl bad ↦ absurd (ground arith)
    | inr (n, good) ↦ (n, good, ground arith, ground arith)
  ]
  host_addresses-ok (ipv4 ip) ips e = ground arith
  host_addresses-ok (ipv6 ip) ips e = ground arith

  ok-host_addresses :
      (h : Host) (ips : List IpAddr)
      → HostResolves resolve f h ips
      → host_addresses resolve f h ≡ ok ips
  unfolding host_addresses
  ok-host_addresses (domain d) ips (n, good, free, found) = ground arith
  ok-host_addresses (ipv4 ip) ips e = ground arith
  ok-host_addresses (ipv6 ip) ips e = ground arith

-- A URL passes exactly if it parses, its scheme is http or https, it has a host, the host's name is
-- well formed and no rule blocks it, and its addresses are 1 to 64, each public and on no rule.
pub check-IsAdmitted :
    (resolve : Text → Resolution) (p : UrlParsers) (f : UrlFilter) (input : Text)
    → (check_with_resolver resolve p f input ≡ ok tt → IsAdmitted resolve p f input)
      × (IsAdmitted resolve p f input → check_with_resolver resolve p f input ≡ ok tt)
unfolding check_with_resolver
check-IsAdmitted resolve p f input = (admitted, passes)
  where
    admitted : check_with_resolver resolve p f input ≡ ok tt → IsAdmitted resolve p f input
    admitted h = elim (Option-cases (p.parse_url input)) [
      | inl bad ↦ absurd (ground arith)
      | inr (url, parsed) ↦ elim (Option-cases url.host) [
        | inl bare ↦ absurd (ground arith)
        | inr (host, hosted) ↦ elim (Result-cases (host_addresses resolve f host)) [
          | inr (e, refused) ↦ absurd (ground arith)
          | inl (ips, resolves) ↦
              let checked : check_addresses f ips ≡ ok tt = ground arith in
              let (some_address, few_addresses, allowed) = check_addresses-ok f ips checked in
              record {
                url = url;
                host = host;
                ips = ips;
                parsed = parsed;
                web = ground arith;
                hosted = hosted;
                resolves = host_addresses-ok resolve f host ips resolves;
                some_address = some_address;
                few_addresses = few_addresses;
                allowed = allowed;
              }
        ]
      ]
    ]

    passes : IsAdmitted resolve p f input → check_with_resolver resolve p f input ≡ ok tt
    passes a =
        let found = ok-host_addresses resolve f a.host a.ips a.resolves in
        let checked = ok-check_addresses f a.ips a.some_address a.few_addresses a.allowed in
        let parsed = a.parsed in
        let web = a.web in let hosted = a.hosted in rw (parsed, or_fail, web, hosted, found) checked

-- A blocked name is refused before any lookup: the verdict is the same whatever the resolver says.
pub check_blocked :
    (resolve : Text → Resolution) (p : UrlParsers) (f : UrlFilter) (input : Text) (url : Url)
    (d n : Text)
    → p.parse_url input ≡ some url
    → is_web url.scheme ≡ true
    → url.host ≡ some (domain d)
    → dns_name d ≡ some n
    → blocks_domain f.domains n ≡ true
    → check_with_resolver resolve p f input ≡ err blacklisted_domain
unfolding check_with_resolver host_addresses
check_blocked resolve p f input url d n parsed web hosted good blocked = ground arith
