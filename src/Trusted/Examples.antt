-- ===== src/Trusted/Examples.antt =====
-- Tests of the trusted domains, and their theorems at concrete hosts.
use zent_loop.Common.{
  ◌==◌, to_lower, trim_space, trim_right, trim_left, is_space, has_suffix, true, false, ◌&&◌,
  if◌then◌else◌, [], ◌∷◌, Bytes, bytes_eq, bytes_beq, codes, none, some, ◌≡◌, inl, refl, arith,
  lookup, Map, All, or_else,
}
use zent_loop.Trusted.{
  Net, TrustedDomain, Asked, canonical_trusted_host, trusted_target_root, is_under,
  count_request_host,
}
use zent_loop.Trusted.Roots.{longest_trusted, trusted_target_root-longest_trusted}
use zent_loop.Trusted.Settings.{
  set_manual_trusted_domains, is_replaced, all_hosts, is_listed, IsRow,
  set_manual_trusted_domains_lem,
}
use zent_loop.Trusted.Hosts.{Shown, untrusted_hosts}
use zent_loop.Trusted.Counts.{IsBounded, count_request_host-IsBounded, untrusted_hosts-Shown}

-- One address is known, and no text has a port.
abbrev net : Net
net = record {
  split_host_port = λ v. none;
  parse_ip = λ v.
      if v == codes "127.0.0.1"
      then some (record { text = v; private_net = false; loopback = true; link_local = false })
      else none;
}

abbrev trusted : Bytes → TrustedDomain
trusted d = record { domain = d; source = codes "manual"; added_at = 1 }

abbrev domains : Map Bytes TrustedDomain
domains =
    (codes "example.org", trusted (codes "example.org"))
    ∷ (codes "shop.example.org", trusted (codes "shop.example.org"))
    ∷ []

shop_host :
    canonical_trusted_host net (codes " WWW.Shop.Example.org. ") ≡ codes "www.shop.example.org"
unfolding canonical_trusted_host bytes_beq to_lower trim_space trim_right trim_left is_space
    has_suffix
shop_host = refl

bad_host : canonical_trusted_host net (codes "-a.org") ≡ []
unfolding canonical_trusted_host bytes_beq to_lower trim_space trim_right trim_left is_space
    has_suffix
bad_host = refl

shop_root :
    trusted_target_root net (codes "www.shop.example.org") domains ≡ some (codes "shop.example.org")
unfolding trusted_target_root bytes_beq is_under to_lower trim_space trim_right trim_left is_space
    has_suffix
shop_root = refl

trusted_target_root-longest_trusted_example :
    or_else (trusted_target_root net (codes "www.shop.example.org") domains) []
    ≡ longest_trusted domains true (canonical_trusted_host net (codes "www.shop.example.org"))
trusted_target_root-longest_trusted_example =
    trusted_target_root-longest_trusted net (codes "www.shop.example.org") domains

set_manual_trusted_domains_lem_example :
    let result = set_manual_trusted_domains net (codes "example.org" ∷ []) 7 true domains in
    let good = all_hosts net (codes "example.org" ∷ []) && true in
    (is_replaced result.0 ≡ good)
    × (row : TrustedDomain) × IsRow domains 7 (codes "example.org") row
    × (lookup (codes "example.org") result.1 ≡ (
        if good
        then (if is_listed net (codes "example.org" ∷ []) (codes "example.org")
            then some row
            else none)
        else lookup (codes "example.org") domains))
set_manual_trusted_domains_lem_example =
    set_manual_trusted_domains_lem net (codes "example.org" ∷ []) 7 true domains
      (codes "example.org")

abbrev asked : Asked
asked = record {
  at = 9;
  ip = codes "1.2.3.4";
  request_host = codes "a.example.net";
  target = [];
  target_trust = [];
  host_sweep = true;
}

count_request_host-IsBounded_example : IsBounded (count_request_host net asked [])
count_request_host-IsBounded_example =
    count_request_host-IsBounded net asked [] (inl (omega arith), tt)

untrusted_hosts-Shown_example :
    All (Shown net domains) (untrusted_hosts net domains (count_request_host net asked []) 10).hosts
untrusted_hosts-Shown_example =
    untrusted_hosts-Shown net domains (count_request_host net asked []) 10
