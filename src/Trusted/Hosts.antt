-- ===== src/Trusted/Hosts.antt =====
-- The counters of the hosts that requests name, and the view of those that are not trusted.
use zent_loop.Common.{
  ℕ, ◌+◌, Bool, false, not, ◌&&◌, ◌||◌, List, [], ◌∷◌, Bytes, bytes_eq, nat_eq, ltb, ◌==◌,
  if◌then◌else◌, length, take, Map, ◌≡◌, ◌⊎◌,
}
use zent_loop.Trusted.{
  Net, TrustedDomain, HostStat, trusted_host, internal_untrusted_host, other_hosts,
}

pub record UntrustedHost : Type 0 where
  pub host : Bytes
  pub requests : ℕ
  pub sources : ℕ
  pub sweep_requests : ℕ
  pub first_seen : ℕ
  pub last_seen : ℕ

pub record Overview : Type 0 where
  pub requests_total : ℕ
  pub hosts_total : ℕ
  pub sweep_requests : ℕ
  pub hosts : List UntrustedHost

abbrev pub untrusted_row : Bytes → HostStat → UntrustedHost
untrusted_row host raw = record {
  host = host;
  requests = raw.requests;
  sources = length raw.sources;
  sweep_requests = raw.sweep_requests;
  first_seen = raw.first_seen;
  last_seen = raw.last_seen;
}

-- Neither trusted nor an internal address, or the row of the other hosts.
unfoldable pub is_shown : Net → Map Bytes TrustedDomain → Bytes → Bool
is_shown net m host =
    (host == other_hosts)
    || (not (trusted_host net host m) && not (internal_untrusted_host net host))

unfoldable pub untrusted_rows :
    Net → Map Bytes TrustedDomain → Map Bytes HostStat → List UntrustedHost
unfolding is_shown
untrusted_rows net m [] = []
untrusted_rows net m ((host, raw) ∷ stats) =
    let others = untrusted_rows net m stats in
    if is_shown net m host then untrusted_row host raw ∷ others else others

-- The order of the rows: most requests first, then the latest.
abbrev pub comes_first : UntrustedHost → UntrustedHost → Bool
comes_first a b =
    if a.requests == b.requests then ltb b.last_seen a.last_seen else ltb b.requests a.requests

unfoldable pub place_row : UntrustedHost → List UntrustedHost → List UntrustedHost
place_row a [] = a ∷ []
place_row a (b ∷ rows) =
    let later = place_row a rows in if comes_first b a then b ∷ later else a ∷ b ∷ rows

unfoldable pub sort_rows : List UntrustedHost → List UntrustedHost
unfolding place_row
sort_rows [] = []
sort_rows (a ∷ rows) = place_row a (sort_rows rows)

unfoldable pub sum_of : (UntrustedHost → ℕ) → List UntrustedHost → ℕ
sum_of f [] = 0
sum_of f (a ∷ rows) = f a + sum_of f rows

-- UntrustedHosts; a limit of 0 stands for none
unfoldable pub untrusted_hosts : Net → Map Bytes TrustedDomain → Map Bytes HostStat → ℕ → Overview
unfolding untrusted_rows sort_rows sum_of
untrusted_hosts net m stats limit =
    let rows = untrusted_rows net m stats in
    let out = sort_rows rows in
    record {
      requests_total = sum_of (λ a. a.requests) rows;
      hosts_total = length out;
      sweep_requests = sum_of (λ a. a.sweep_requests) rows;
      hosts = if ltb 0 limit && ltb limit (length out) then take limit out else out;
    }

-- A row of the table that is no host but the rest.
abbrev pub Shown : Net → Map Bytes TrustedDomain → UntrustedHost → Type 0
Shown net m a =
    (a.host ≡ other_hosts)
    ⊎ ((trusted_host net a.host m ≡ false) × (internal_untrusted_host net a.host ≡ false))
