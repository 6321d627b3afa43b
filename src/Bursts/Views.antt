-- ===== src/Bursts/Views.antt =====
-- The bursts that are shown.
use zent_loop.Common.{
  ℕ, zero, suc, ◌≤◌, false, ◌||◌, List, [], ◌∷◌, Bytes, bytes_eq, nat_eq, ltb, ◌==◌, if◌then◌else◌,
  length, length-take, take, All, sort_names, if_rule, ◌≡◌, arith,
}
use zent_loop.Bursts.{
  Hit, Group, ScanBurst, Env, keys_of, burst_of, place_burst, bursts_among, group_hits, scan_bursts,
}
use zent_loop.Bursts.Groups.{IsSound, group_hits-IsSound}

-- At least three sources with at least as many requests, at most twelve paths, and an end that is not
-- before the beginning.
abbrev pub IsBurst : ScanBurst → Type 0
IsBurst b =
    (3 ≤ b.sources)
    × (b.sources ≤ b.requests)
    × (length b.paths ≤ 12)
    × (b.first_seen ≤ b.last_seen)

shortened :
    (names : List Bytes) → length (if ltb 12 (length names) then take 12 names else names) ≤ 12
shortened names =
    if_rule (λ (v : List Bytes). length v ≤ 12) (ltb 12 (length names)) _ _
      (λ _. omega (arith, length-take 12 names)) (λ short. ground arith)

burst_of-IsBurst : (env : Env) (g : Group) → IsSound g → 3 ≤ length g.ips → IsBurst (burst_of env g)
unfolding burst_of
burst_of-IsBurst env g sound many =
    (many, sound.1, shortened (sort_names (keys_of g.paths)), sound.2)

place_burst-All :
    (a : ScanBurst) (bs : List ScanBurst)
    → IsBurst a
    → All IsBurst bs
    → All IsBurst (place_burst a bs)
unfolding place_burst
place_burst-All a [] p all = (p, tt)
place_burst-All a (b ∷ bs) p all =
    if_rule (All IsBurst) (ltb a.last_seen b.last_seen) _ _
      (λ _. (all.0, place_burst-All a bs p all.1)) (λ _. (p, all))

bursts_among-All :
    (env : Env) (gs : List Group) → All IsSound gs → All IsBurst (bursts_among env gs)
unfolding bursts_among
bursts_among-All env [] all = tt
bursts_among-All env (g ∷ gs) all =
    if_rule (All IsBurst) (ltb (length g.ips) 3 || ltb g.requests 3) _ _
      (λ _. bursts_among-All env gs all.1)
      (λ many.
        place_burst-All (burst_of env g) (bursts_among env gs)
          (burst_of-IsBurst env g all.0 (ground arith)) (bursts_among-All env gs all.1))

take-All : (n : ℕ) (bs : List ScanBurst) → All IsBurst bs → All IsBurst (take n bs)
take-All zero bs all = tt
take-All (suc n) [] all = tt
take-All (suc n) (b ∷ bs) all = (all.0, take-All n bs all.1)

bounded : (max n : ℕ) → ltb max n ≡ false → n ≤ max
bounded max n h = ground arith

-- Every burst that is shown has at least three sources, no more sources than requests, at most twelve
-- paths, and an end that is not before its beginning. No more are shown than the limit, or fifty where
-- the limit is 0.
pub scan_bursts-IsBurst :
    (env : Env) (events : List Hit) (limit : ℕ)
    → All IsBurst (scan_bursts env events limit)
      × (length (scan_bursts env events limit) ≤ (if limit == 0 then 50 else limit))
unfolding scan_bursts
scan_bursts-IsBurst env events limit =
    let max = if limit == 0 then 50 else limit in
    let out = bursts_among env (group_hits env events []) in
    let all = bursts_among-All env (group_hits env events []) (group_hits-IsSound env events).0 in
    if_rule (λ (v : List ScanBurst). All IsBurst v × (length v ≤ max)) (ltb max (length out)) _ _
      (λ _. (take-All max out all, omega (arith, length-take max out)))
      (λ short. (all, bounded max (length out) short))
