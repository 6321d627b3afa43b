-- ===== src/Store/Counts.antt =====
-- No event is lost by the counters, however full they are, and none of them grows without bound that
-- has a bound.
use zent_loop.Common.{
  ℕ, suc, ◌+◌, ◌-◌, ◌≤◌, not, List, [], ◌∷◌, ◌++◌, Bytes, bytes_eq, nat_eq, ltb, ◌==◌,
  if◌then◌else◌, length, codes, Map, lookup, insert, to_lower, trim_space, or_else, bounded_key,
  bounded_key-Room, Room, Bool-cases, if_rule, ◌≡◌, refl, arith, inl, inr, length-drop,
}
use zent_loop.Store.{
  Event, Counters, CatchAllHost, max_ring, max_path_keys, bump, push_event, other_paths, count_path,
  named_or_unknown, count_target, new_host, count_in_host, other_hosts, count_host, count_catch_all,
  add_event, asked, count_unknown, count_probe,
}
use zent_loop.Trusted.{Net, count_request_host}
use zent_loop.Trusted.Counts.{IsBounded, count_request_host-IsBounded}
use zent_loop.Store.Paths.{normalize_path}

-- The sum of a number over the entries of a map.
unfoldable pub sum_by {ℓ} : {V : Type ℓ} → (V → ℕ) → Map Bytes V → ℕ
sum_by f [] = 0
sum_by f ((k, v) ∷ m) = f v + sum_by f m

-- An entry that replaces another, or nothing, changes the sum by the difference.
sum_by-insert {ℓ} :
    {V : Type ℓ} (f : V → ℕ) (k : Bytes) (v d : V) (m : Map Bytes V)
    → f d ≡ 0
    → sum_by f (insert k v m) + f (or_else (lookup k m) d) ≡ sum_by f m + f v
unfolding sum_by insert lookup
sum_by-insert f k v d [] nothing = omega (arith, nothing)
sum_by-insert f k v d ((j, w) ∷ m) nothing = elim (Bool-cases (j == k)) [
  | inl same ↦ rw same (omega arith)
  | inr other ↦ rw other (omega (arith, sum_by-insert f k v d m nothing))
]

abbrev pub own : ℕ → ℕ
own n = n

sum_by-bump : (k : Bytes) (m : Map Bytes ℕ) → sum_by own (bump k m) ≡ suc (sum_by own m)
unfolding bump
sum_by-bump k m = omega (arith, sum_by-insert own k (or_else (lookup k m) 0 + 1) 0 m refl)

sum_by-count_host :
    (e : Event) (m : Map Bytes CatchAllHost)
    → sum_by (λ h. h.requests) (count_host e m) ≡ suc (sum_by (λ h. h.requests) m)
unfolding count_host count_in_host
sum_by-count_host e m =
    let host = named_or_unknown (trim_space (to_lower e.target)) in
    let key = bounded_key max_path_keys other_hosts host m in
    let row = count_in_host e (or_else (lookup key m) (new_host e.at)) in
    omega (arith, sum_by-insert (λ h. h.requests) key row (new_host e.at) m refl)

push_event-short : (e : Event) (events : List Event) → length (push_event e events) ≤ max_ring
unfolding push_event
push_event-short e events =
    let all = events ++ e ∷ [] in
    if_rule (λ (v : List Event). length v ≤ max_ring) (ltb max_ring (length all)) _ _
      (λ long. omega (arith, length-drop (length all - max_ring) all)) (λ short. ground arith)

-- The ring and the maps that have a bound keep it, and the counts add up: those of the paths and those
-- of the targets to the number of events, those of the hosts and those of the integrations to the
-- number of events without a route.
abbrev pub IsConsistent : Counters → Type 0
IsConsistent c =
    (length c.events ≤ max_ring)
    × Room max_path_keys other_paths c.path_counts
    × Room max_path_keys other_hosts c.catch_all_hosts
    × (sum_by own c.path_counts ≡ c.requests_total)
    × (sum_by own c.target_counts ≡ c.requests_total)
    × (sum_by (λ h. h.requests) c.catch_all_hosts ≡ c.catch_all_requests)
    × (sum_by own c.integration_counts ≡ c.catch_all_requests)
    × IsBounded c.request_hosts

count_host-Room :
    (e : Event) (m : Map Bytes CatchAllHost)
    → Room max_path_keys other_hosts m
    → Room max_path_keys other_hosts (count_host e m)
unfolding count_host
count_host-Room e m room =
    let host = named_or_unknown (trim_space (to_lower e.target)) in
    let key = bounded_key max_path_keys other_hosts host m in
    bounded_key-Room max_path_keys other_hosts host
      (count_in_host e (or_else (lookup key m) (new_host e.at))) m room

count_path-Room :
    (path : Bytes) (m : Map Bytes ℕ)
    → Room max_path_keys other_paths m
    → Room max_path_keys other_paths (count_path path m)
unfolding count_path bump
count_path-Room path m room =
    let name = normalize_path path in
    let key = bounded_key max_path_keys other_paths name m in
    bounded_key-Room max_path_keys other_paths name (or_else (lookup key m) 0 + 1) m room

sum_by-count_path :
    (path : Bytes) (m : Map Bytes ℕ) → sum_by own (count_path path m) ≡ suc (sum_by own m)
unfolding count_path
sum_by-count_path path m =
    sum_by-bump (bounded_key max_path_keys other_paths (normalize_path path) m) m

sum_by-count_target :
    (target : Bytes) (m : Map Bytes ℕ) → sum_by own (count_target target m) ≡ suc (sum_by own m)
unfolding count_target
sum_by-count_target target m = sum_by-bump (named_or_unknown (trim_space (to_lower target))) m

count_catch_all-IsConsistent :
    (e : Event) (c : Counters) → IsConsistent c → IsConsistent (count_catch_all e c)
unfolding count_catch_all
count_catch_all-IsConsistent e c v =
    let integration = if e.integration == [] then codes "(unspecified)" else e.integration in
    if_rule IsConsistent (not e.catch_all) _ _ (λ _. v)
      (λ _. (
        v.0,
        v.1,
        count_host-Room e c.catch_all_hosts v.2,
        v.3,
        v.4,
        omega (arith, sum_by-count_host e c.catch_all_hosts, v.5),
        omega (arith, sum_by-bump integration c.integration_counts, v.6),
        v.7,
      ))

-- An event that is added to consistent counters leaves them consistent: at most 5000 events in the
-- ring, 5000 paths, 5000 hosts and 5000 request hosts with one row more for the rest, and every event
-- counted exactly once under a path and once under a target, also when the tables are full, and every
-- event without a route once under a host and once under an integration.
pub add_event-IsConsistent :
    (net : Net) (e : Event) (c : Counters) → IsConsistent c → IsConsistent (add_event net e c)
unfolding add_event
add_event-IsConsistent net e c v =
    count_catch_all-IsConsistent e
      (record c {
        events = push_event e c.events;
        requests_total = c.requests_total + 1;
        path_counts = count_path e.path c.path_counts;
        target_counts = count_target e.target c.target_counts;
        request_hosts = count_request_host net (asked e) c.request_hosts;
        unknown_paths = count_unknown e c.unknown_paths;
        probe_stats = count_probe e c.probe_stats;
      })
      (
        push_event-short e c.events,
        count_path-Room e.path c.path_counts v.1,
        v.2,
        omega (arith, sum_by-count_path e.path c.path_counts, v.3),
        omega (arith, sum_by-count_target e.target c.target_counts, v.4),
        v.5,
        v.6,
        count_request_host-IsBounded net (asked e) c.request_hosts v.7,
      )
