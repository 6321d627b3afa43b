-- ===== src/Trusted/Counts.antt =====
-- The counters stay small, and no trusted host is shown as untrusted.
use zent_loop.Common.{
  Room, bounded_key, bounded_key-Room, All-insert, All-lookup, ℕ, zero, suc, ◌≤◌, ◌<◌, true, not,
  ◌&&◌, List, [], ◌∷◌, Bytes, bytes_eq, nat_eq, bytes_beq_iff, ltb, ◌==◌, if◌then◌else◌, length,
  take, Map, lookup, or_else, All, Bool-cases, if_rule, ◌≡◌, arith, inl, inr, length-insert-le,
}
use zent_loop.Trusted.{
  Net, TrustedDomain, HostStat, Asked, canonical_trusted_host, max_path_keys, count_in, new_stat,
  other_hosts, count_request_host,
}
use zent_loop.Trusted.Hosts.{
  UntrustedHost, Shown, untrusted_rows, untrusted_row, is_shown, comes_first, place_row, sort_rows,
  untrusted_hosts,
}

abbrev Few : HostStat → Type 0
Few row = length row.sources ≤ 256

-- At most 5000 hosts and one row for the rest, with at most 256 addresses each.
abbrev pub IsBounded : Map Bytes HostStat → Type 0
IsBounded m = Room max_path_keys other_hosts m × All (λ row. Few row.1) m

count_in-Few : (e : Asked) (row : HostStat) → Few row → Few (count_in e row)
unfolding count_in
count_in-Few e row few =
    if_rule (λ (v : Map Bytes Unit). length v ≤ 256)
      (not (e.ip == []) && ltb (length row.sources) 256) _ _
      (λ room. omega (arith, length-insert-le e.ip tt row.sources, small room)) (λ _. few)
  where
    small : (not (e.ip == []) && ltb (length row.sources) 256) ≡ true → length row.sources < 256
    small room = ground arith

-- A request that is counted keeps the bounds of the table, however many hosts the requests name: at
-- most 5000 of them are counted by name, the rest in one row, and of each at most 256 addresses are kept.
pub count_request_host-IsBounded :
    (net : Net) (e : Asked) (m : Map Bytes HostStat)
    → IsBounded m
    → IsBounded (count_request_host net e m)
unfolding count_request_host
count_request_host-IsBounded net e m (room, few) =
    let asked = canonical_trusted_host net e.request_host in
    let host = if asked == [] then canonical_trusted_host net e.target else asked in
    let key = bounded_key max_path_keys other_hosts host m in
    let row = count_in e (or_else (lookup key m) (new_stat e.at)) in
    if_rule IsBounded (host == []) _ _ (λ _. (room, few))
      (λ _. (
        bounded_key-Room max_path_keys other_hosts host row m room,
        All-insert Few key row m
            (count_in-Few e (or_else (lookup key m) (new_stat e.at))
              (All-lookup Few key (new_stat e.at) m (omega arith) few))
            few,
      ))

module _ (net : Net) (m : Map Bytes TrustedDomain) where
  is_shown-Shown :
      (host : Bytes) (raw : HostStat)
      → is_shown net m host ≡ true
      → Shown net m (untrusted_row host raw)
  unfolding is_shown
  is_shown-Shown host raw h = elim (Bool-cases (host == other_hosts)) [
    | inl rest ↦ inl ((bytes_beq_iff host other_hosts).0 rest)
    | inr named ↦ inr (ground arith, ground arith)
  ]

  untrusted_rows-Shown :
      (stats : Map Bytes HostStat) → All (Shown net m) (untrusted_rows net m stats)
  unfolding untrusted_rows
  untrusted_rows-Shown [] = tt
  untrusted_rows-Shown ((host, raw) ∷ stats) =
      if_rule (All (Shown net m)) (is_shown net m host) _ _
        (λ shown. (is_shown-Shown host raw shown, untrusted_rows-Shown stats))
        (λ _. untrusted_rows-Shown stats)

module _ {ℓ} (P : UntrustedHost → Type ℓ) where
  place_row-All :
      (a : UntrustedHost) (rows : List UntrustedHost) → P a → All P rows → All P (place_row a rows)
  unfolding place_row
  place_row-All a [] p all = (p, tt)
  place_row-All a (b ∷ rows) p all =
      if_rule (All P) (comes_first b a) _ _ (λ _. (all.0, place_row-All a rows p all.1))
        (λ _. (p, all))

  sort_rows-All : (rows : List UntrustedHost) → All P rows → All P (sort_rows rows)
  unfolding sort_rows
  sort_rows-All [] all = tt
  sort_rows-All (a ∷ rows) all = place_row-All a (sort_rows rows) all.0 (sort_rows-All rows all.1)

  take-All : (n : ℕ) (rows : List UntrustedHost) → All P rows → All P (take n rows)
  take-All zero rows all = tt
  take-All (suc n) [] all = tt
  take-All (suc n) (a ∷ rows) all = (all.0, take-All n rows all.1)

-- Every row in the view of the untrusted hosts is the one that is named for the other hosts, or the row
-- of a host that is neither trusted nor an internal address.
pub untrusted_hosts-Shown :
    (net : Net) (m : Map Bytes TrustedDomain) (stats : Map Bytes HostStat) (limit : ℕ)
    → All (Shown net m) (untrusted_hosts net m stats limit).hosts
unfolding untrusted_hosts
untrusted_hosts-Shown net m stats limit =
    let out = sort_rows (untrusted_rows net m stats) in
    let all =
      sort_rows-All (Shown net m) (untrusted_rows net m stats) (untrusted_rows-Shown net m stats) in
    if_rule (All (Shown net m)) (ltb 0 limit && ltb limit (length out)) _ _
      (λ _. take-All (Shown net m) limit out all) (λ _. all)
