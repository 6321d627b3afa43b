-- ===== src/Bursts/Examples.antt =====
-- Tests of the bursts, and their theorems at concrete events.
use zent_loop.Common.{
  ℕ, ◌*◌, ◌≤◌, List, [], ◌∷◌, Bytes, nat_eq, bytes_beq, codes, none, some, sort_names, to_lower,
  contains, length, All, insert, trim_space, trim_left, trim_right, is_space, ◌≡◌, refl,
}
use zent_loop.Bursts.{burst_fingerprint, ScanBurst, Hit, Group, Env, group_hits, scan_bursts}
use zent_loop.Bursts.Groups.{IsSound, requests_in, count_usable, group_hits-IsSound}
use zent_loop.Bursts.Views.{IsBurst, scan_bursts-IsBurst}

-- No text is an address, so that a source is its own group.
abbrev env : Env
env = record { network_of = λ ip. none; id_of = λ g. g.target }

abbrev hit : ℕ → Bytes → Hit
hit tenths target = record {
  at = tenths * 100_000_000;
  ip = codes "a";
  target = target;
  user_agent = codes "u";
  path = codes "/";
}

-- Requests for `t` at one, four and six and a half seconds, and one for `u` at two seconds.
abbrev events : List Hit
events = hit 10 (codes "t") ∷ hit 20 (codes "u") ∷ hit 40 (codes "t") ∷ hit 65 (codes "t") ∷ []

abbrev sizes : List Group → List ℕ
sizes [] = []
sizes (g ∷ gs) = g.requests ∷ sizes gs

-- The group of `u` is too old for the last request and ends the search before the group of `t`, which
-- is not: the last request stands alone.
split_group : sizes (group_hits env events []) ≡ 1 ∷ 1 ∷ 2 ∷ []
unfolding group_hits bytes_beq insert trim_space trim_left trim_right is_space
split_group = refl

group_hits-IsSound_example :
    All IsSound (group_hits env events [])
    × (requests_in (group_hits env events []) ≡ count_usable events)
group_hits-IsSound_example = group_hits-IsSound env events

-- Three addresses of one network ask for the same target within a second: one burst.
abbrev network : Env
network = record { network_of = λ ip. some (codes "10.0.0.0/24"); id_of = λ g. g.target }

abbrev scan : List Hit
scan =
    hit 10 (codes "t")
    ∷ record (hit 12 (codes "t")) { ip = codes "b" }
    ∷ record (hit 15 (codes "t")) { ip = codes "c" }
    ∷ record (hit 16 (codes "t")) { ip = codes "c" }
    ∷ []

abbrev shapes : List ScanBurst → List (ℕ × ℕ)
shapes [] = []
shapes (b ∷ bs) = (b.sources, b.requests) ∷ shapes bs

one_burst : shapes (scan_bursts network scan 5) ≡ (3, 4) ∷ []
unfolding scan_bursts group_hits bytes_beq insert trim_space trim_left trim_right is_space
    sort_names to_lower contains burst_fingerprint
one_burst = refl

scan_bursts-IsBurst_example :
    All IsBurst (scan_bursts network scan 5) × (length (scan_bursts network scan 5) ≤ 5)
scan_bursts-IsBurst_example = scan_bursts-IsBurst network scan 5
