-- ===== src/UrlFilter/Filter/Compiled.antt =====
-- What a compiled list of rules blocks.
use sjmb_slack.Prelude.{
  ℕ, ◌+◌, ◌≡◌, ◌⊎◌, inl, inr, true, List, [], ◌∷◌, none, some, arith, Bool-cases, Option-cases, All,
  subst,
}
use sjmb_slack.Prelude.Text.{Text, text_eq_refl}
use sjmb_slack.Prelude.Result.{ok}
use sjmb_slack.Url.{Host, domain, ipv4, ipv6, UrlParsers}
use sjmb_slack.UrlFilter.Address.{IpAddr, v4, v6}
use sjmb_slack.UrlFilter.Names.{dns_name, contains}
use sjmb_slack.UrlFilter.Filter.{
  UrlFilter, empty_filter, contains_ip, add_domain, add_address, add_host, plain_rule, add,
  compile_from, compile,
}
use sjmb_slack.Prelude.Result.{Result-cases}
use sjmb_slack.UrlFilter.Filter.Rules.{ip_eq_iff, contains-add_domain, contains_ip-add_address}

-- One filter has all that another one has.
pub record Grows (f g : UrlFilter) : Type 0 where
  pub domain : (d : Text) → contains f.domains d ≡ true → contains g.domains d ≡ true
  pub address :
      (ip : IpAddr) → contains_ip f.addresses ip ≡ true → contains_ip g.addresses ip ≡ true

pub Grows-refl : (f : UrlFilter) → Grows f f
Grows-refl f = record { domain = λ d h. h; address = λ ip h. h }

pub Grows-trans : (f g h : UrlFilter) → Grows f g → Grows g h → Grows f h
Grows-trans f g h a b = record {
  domain = λ d e. b.domain d (a.domain d e);
  address = λ ip e. b.address ip (a.address ip e);
}

pub Grows-add_domain : (n : Text) (f : UrlFilter) → Grows f (add_domain n f)
Grows-add_domain n f = record {
  domain = λ d h. ground (arith, contains-add_domain n d f);
  address = λ ip h. ground arith;
}

pub Grows-add_address : (a : IpAddr) (f : UrlFilter) → Grows f (add_address a f)
Grows-add_address a f = record {
  domain = λ d h. ground arith;
  address = λ ip h. ground (arith, contains_ip-add_address a ip f);
}

-- The filter has the host of a rule.
abbrev pub CoversHost : UrlFilter → Host → Type 0
CoversHost f (domain d) = (n : Text) × (dns_name d ≡ some n) × (contains f.domains n ≡ true)
CoversHost f (ipv4 a) = contains_ip f.addresses (v4 a) ≡ true
CoversHost f (ipv6 a) = contains_ip f.addresses (v6 a) ≡ true

module _ (p : UrlParsers) where
  -- The filter blocks what the rule names: an address, or a host, of which a name is canonical.
  abbrev pub Covers : UrlFilter → Text → Type 0
  Covers f rule =
      ((ip : IpAddr) × (p.parse_ip rule ≡ some ip) × (contains_ip f.addresses ip ≡ true))
      ⊎ ((p.parse_ip rule ≡ none)
          × (plain_rule rule ≡ true)
          × ((h : Host) × (p.parse_host rule ≡ some h) × CoversHost f h))

  CoversHost-mono : (h : Host) (f g : UrlFilter) → Grows f g → CoversHost f h → CoversHost g h
  CoversHost-mono (domain d) f g grows (n, good, found) = (n, good, grows.domain n found)
  CoversHost-mono (ipv4 a) f g grows found = grows.address (v4 a) found
  CoversHost-mono (ipv6 a) f g grows found = grows.address (v6 a) found

  pub Covers-mono : (rule : Text) (f g : UrlFilter) → Grows f g → Covers f rule → Covers g rule
  Covers-mono rule f g grows (inl (ip, parsed, found)) = inl (ip, parsed, grows.address ip found)
  Covers-mono rule f g grows (inr (no_ip, plain, (h, parsed, found))) =
      inr (no_ip, plain, (h, parsed, CoversHost-mono h f g grows found))

  Covers-add_host :
      (h : Host) (f g : UrlFilter) → add_host p h f ≡ ok g → CoversHost g h × Grows f g
  unfolding add_host
  Covers-add_host (domain d) f g e = elim (Option-cases (dns_name d)) [
    | inl bad ↦ absurd (ground arith)
    | inr (n, good) ↦
        let added : add_domain n f ≡ g = ground arith in
        (
          (n, good, rw (← added) (ground (arith, contains-add_domain n n f, text_eq_refl n))),
          subst (Grows f) added (Grows-add_domain n f),
        )
  ]
  Covers-add_host (ipv4 a) f g e =
      let added : add_address (v4 a) f ≡ g = ground arith in
      (
        rw (← added) (ground (arith, contains_ip-add_address (v4 a) (v4 a) f)),
        subst (Grows f) added (Grows-add_address (v4 a) f),
      )
  Covers-add_host (ipv6 a) f g e =
      let added : add_address (v6 a) f ≡ g = ground arith in
      (
        rw (← added) (ground (arith, contains_ip-add_address (v6 a) (v6 a) f)),
        subst (Grows f) added (Grows-add_address (v6 a) f),
      )

  Covers-add : (rule : Text) (f g : UrlFilter) → add p rule f ≡ ok g → Covers g rule × Grows f g
  unfolding add
  Covers-add rule f g e = elim (Option-cases (p.parse_ip rule)) [
    | inr (ip, parsed) ↦
        let added : add_address ip f ≡ g = ground arith in
        (
          inl (
            ip,
            parsed,
            rw (← added) (ground (arith, contains_ip-add_address ip ip f, ip_eq_iff ip ip)),
          ),
          subst (Grows f) added (Grows-add_address ip f),
        )
    | inl no_ip ↦ elim (Bool-cases (plain_rule rule)) [
      | inr odd ↦ absurd (ground arith)
      | inl plain ↦ elim (Option-cases (p.parse_host rule)) [
        | inl no_host ↦ absurd (ground arith)
        | inr (h, parsed) ↦
            let hosted : add_host p h f ≡ ok g = ground arith in
            let (covers, grows) = Covers-add_host h f g hosted in
            (inr (no_ip, plain, (h, parsed, covers)), grows)
      ]
    ]
  ]

  Covers-compile_from :
      (index : ℕ) (rules : List Text) (f g : UrlFilter)
      → compile_from p index rules f ≡ ok g
      → All (Covers g) rules × Grows f g
  unfolding compile_from
  Covers-compile_from index [] f g e = (tt, subst (Grows f) (ground arith) (Grows-refl f))
  Covers-compile_from index (rule ∷ rules) f g e = elim (Result-cases (add p rule f)) [
    | inr (bad, refused) ↦ absurd (ground arith)
    | inl (h, added) ↦
        let rest : compile_from p (index + 1) rules h ≡ ok g = ground arith in
        let (covered, later) = Covers-compile_from (index + 1) rules h g rest in
        let (first, now) = Covers-add rule f h added in
        ((Covers-mono rule h g later first, covered), Grows-trans f h g now later)
  ]

-- A list of rules that compiles gives a filter that has every rule: none is dropped, and every
-- name among them is well formed.
pub compile-Covers :
    (p : UrlParsers) (rules : List Text) (f : UrlFilter)
    → compile p rules ≡ ok f
    → All (Covers p f) rules
unfolding compile
compile-Covers p rules f e = (Covers-compile_from p 0 rules empty_filter f e).0
