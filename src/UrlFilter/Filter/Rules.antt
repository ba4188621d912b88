-- ===== src/UrlFilter/Filter/Rules.antt =====
-- How filters are combined.
use sjmb_slack.Prelude.{
  ℕ, zero, suc, ◌≡◌, refl, ap, ◌∙◌, ◌↔◌, inl, inr, true, ◌||◌, List, [], ◌∷◌, length, arith,
  Option-cases,
}
use sjmb_slack.Prelude.Text.{Text, text_eq, text_eq_iff, split_once}
use sjmb_slack.UrlFilter.Address.{IpAddr, v4, v6}
use sjmb_slack.UrlFilter.Names.{dot, blocks_domain, blocks_loop, contains}
use sjmb_slack.UrlFilter.Filter.{
  UrlFilter, ip_eq, contains_ip, add_domain, add_address, add_domains, add_addresses, include,
}

pub ip_eq_iff : (a b : IpAddr) → (ip_eq a b ≡ true) ↔ (a ≡ b)
ip_eq_iff (v4 a) (v4 b) = ground arith
ip_eq_iff (v4 a) (v6 b) = ground arith
ip_eq_iff (v6 a) (v4 b) = ground arith
ip_eq_iff (v6 a) (v6 b) = ground arith

pub contains-add_domain :
    (d e : Text) (f : UrlFilter)
    → contains (add_domain d f).domains e ≡ (text_eq d e || contains f.domains e)
contains-add_domain d e f = ground (arith, text_eq_iff d e)

pub contains_ip-add_address :
    (a b : IpAddr) (f : UrlFilter)
    → contains_ip (add_address a f).addresses b ≡ (ip_eq a b || contains_ip f.addresses b)
contains_ip-add_address a b f = ground (arith, ip_eq_iff a b)

domains-add_domains :
    (ds : List Text) (f : UrlFilter) (d : Text)
    → (contains (add_domains ds f).domains d ≡ (contains ds d || contains f.domains d))
      × ((add_domains ds f).addresses ≡ f.addresses)
unfolding add_domains
domains-add_domains [] f d = (refl, refl)
domains-add_domains (e ∷ ds) f d =
    ground (arith, domains-add_domains ds (add_domain e f) d, contains-add_domain e d f)

addresses-add_addresses :
    (ips : List IpAddr) (f : UrlFilter) (ip : IpAddr)
    → (contains_ip (add_addresses ips f).addresses ip
        ≡ (contains_ip ips ip || contains_ip f.addresses ip))
      × ((add_addresses ips f).domains ≡ f.domains)
unfolding add_addresses
addresses-add_addresses [] f ip = (refl, refl)
addresses-add_addresses (a ∷ ips) f ip =
    ground (arith, addresses-add_addresses ips (add_address a f) ip, contains_ip-add_address a ip f)

pub contains_ip-include :
    (f g : UrlFilter) (ip : IpAddr)
    → contains_ip (include f g).addresses ip
      ≡ (contains_ip g.addresses ip || contains_ip f.addresses ip)
unfolding include
contains_ip-include f g ip =
    (addresses-add_addresses g.addresses (add_domains g.domains f) ip).0
    ∙ ap (λ xs. contains_ip g.addresses ip || contains_ip xs ip)
        (domains-add_domains g.domains f []).1

pub contains-include :
    (f g : UrlFilter) (d : Text)
    → contains (include f g).domains d ≡ (contains g.domains d || contains f.domains d)
unfolding include
contains-include f g d =
    ap (λ xs. contains xs d)
      (addresses-add_addresses g.addresses (add_domains g.domains f) (v4 0)).1
    ∙ (domains-add_domains g.domains f d).0

blocks_loop-or :
    (fuel : ℕ) (xs ys zs : List Text) (s : Text)
    → ((d : Text) → contains zs d ≡ (contains xs d || contains ys d))
    → blocks_loop fuel zs s ≡ (blocks_loop fuel xs s || blocks_loop fuel ys s)
unfolding blocks_loop
blocks_loop-or zero xs ys zs s h = refl
blocks_loop-or (suc fuel) xs ys zs s h = elim (Option-cases (split_once dot s)) [
  | inl whole ↦ ground (arith, h s)
  | inr ((a, b), cut) ↦ ground (arith, h s, blocks_loop-or fuel xs ys zs b h)
]

-- Including a filter blocks exactly what either blocks: names and addresses.
pub include-blocks :
    (f g : UrlFilter) (name : Text) (ip : IpAddr)
    → (blocks_domain (include f g).domains name
        ≡ (blocks_domain g.domains name || blocks_domain f.domains name))
      × (contains_ip (include f g).addresses ip
          ≡ (contains_ip g.addresses ip || contains_ip f.addresses ip))
unfolding blocks_domain
include-blocks f g name ip = (
  blocks_loop-or (suc (length name)) g.domains f.domains (include f g).domains name
      (contains-include f g),
  contains_ip-include f g ip,
)
