-- ===== src/Bursts/Groups.antt =====
-- The groups: what each holds, and that no event is lost or counted twice.
use zent_loop.Common.{
  ℕ, suc, ◌+◌, ◌≤◌, Bool, true, false, ◌&&◌, List, [], ◌∷◌, Bytes, bytes_eq, nat_eq, Option, none,
  some, ltb, ◌==◌, if◌then◌else◌, length, All, length-insert-le, Bool-cases, if_rule, ◌≡◌, refl,
  ◌∙◌, arith, inl, inr,
}
use zent_loop.Bursts.{
  Hit, Group, Env, burst_gap, source_group, is_usable, new_group, add_hit, before_all, join_group,
  joined_or_new, group_hit, group_hits,
}

-- A group has an event, no more sources than events, and does not end before it begins.
abbrev pub IsSound : Group → Type 0
IsSound g = (1 ≤ g.requests) × (length g.ips ≤ g.requests) × (g.first ≤ g.last)

unfoldable pub requests_in : List Group → ℕ
requests_in [] = 0
requests_in (g ∷ gs) = g.requests + requests_in gs

unfoldable pub count_usable : List Hit → ℕ
count_usable [] = 0
count_usable (e ∷ es) = let rest = count_usable es in if is_usable e then suc rest else rest

add_hit-IsSound :
    (e : Hit) (g : Group) → length g.ips ≤ g.requests → g.first ≤ g.last → IsSound (add_hit e g)
unfolding add_hit
add_hit-IsSound e g few order =
    (omega arith, omega (arith, length-insert-le e.ip tt g.ips, few), ground arith)

requests_in-add_hit :
    (e : Hit) (g : Group) (gs : List Group)
    → requests_in (add_hit e g ∷ gs) ≡ suc (requests_in (g ∷ gs))
unfolding requests_in add_hit
requests_in-add_hit e g gs = omega arith

requests_in-new_group :
    (e : Hit) (prefix : Bytes) (gs : List Group)
    → requests_in (add_hit e (new_group e prefix) ∷ gs) ≡ suc (requests_in gs)
unfolding requests_in add_hit
requests_in-new_group e prefix gs = omega arith

-- One more event in the groups.
abbrev OneMore : List Group → Option (List Group) → Type 0
OneMore gs none = Unit
OneMore gs (some hs) = All IsSound hs × (requests_in hs ≡ suc (requests_in gs))

before_all-OneMore :
    (g : Group) (gs : List Group) (o : Option (List Group))
    → IsSound g
    → OneMore gs o
    → OneMore (g ∷ gs) (before_all g o)
unfolding requests_in
before_all-OneMore g gs none sound more = tt
before_all-OneMore g gs (some hs) sound more = ((sound, more.0), omega (arith, more.1))

join_group-OneMore :
    (e : Hit) (prefix : Bytes) (gs : List Group)
    → All IsSound gs
    → OneMore gs (join_group e prefix gs)
unfolding join_group
join_group-OneMore e prefix [] all = tt
join_group-OneMore e prefix (g ∷ gs) all =
    if_rule (OneMore (g ∷ gs)) (ltb (g.last + burst_gap) e.at) _ _ (λ _. tt)
      (λ _.
        if_rule (OneMore (g ∷ gs))
          ((g.target == e.target) && (g.ua == e.user_agent) && (g.prefix == prefix)) _ _
          (λ _. ((add_hit-IsSound e g all.0.1 all.0.2, all.1), requests_in-add_hit e g gs))
          (λ _.
            before_all-OneMore g gs (join_group e prefix gs) all.0
              (join_group-OneMore e prefix gs all.1)))

count_step :
    (usable : Bool) (n m r : ℕ)
    → r ≡ (if usable then suc m else m)
    → n + r ≡ (if usable then suc n else n) + m
count_step true n m r e = omega (arith, e)
count_step false n m r e = omega (arith, e)

requests_in-nil : (n : ℕ) → n + requests_in [] ≡ n
unfolding requests_in
requests_in-nil n = omega arith

module _ (env : Env) where
  group_hit_lem :
      (e : Hit) (gs : List Group)
      → All IsSound gs
      → All IsSound (group_hit env e gs)
        × (requests_in (group_hit env e gs)
            ≡ (if is_usable e then suc (requests_in gs) else requests_in gs))
  unfolding group_hit
  group_hit_lem e gs all = elim (Bool-cases (is_usable e)) [
    | inl usable ↦ rw usable (
        joined (source_group env e.ip) (join_group e (source_group env e.ip) gs)
          (join_group-OneMore e (source_group env e.ip) gs all))
    | inr skipped ↦ rw skipped (all, refl)
  ]
    where
      joined :
          (prefix : Bytes) (o : Option (List Group))
          → OneMore gs o
          → All IsSound (joined_or_new e prefix gs o)
            × (requests_in (joined_or_new e prefix gs o) ≡ suc (requests_in gs))
      joined prefix none more = (
        (add_hit-IsSound e (new_group e prefix) (omega arith) (omega arith), all),
        requests_in-new_group e prefix gs,
      )
      joined prefix (some hs) more = more

  group_hits_lem :
      (es : List Hit) (gs : List Group)
      → All IsSound gs
      → All IsSound (group_hits env es gs)
        × (requests_in (group_hits env es gs) ≡ count_usable es + requests_in gs)
  unfolding group_hits count_usable
  group_hits_lem [] gs all = (all, omega arith)
  group_hits_lem (e ∷ es) gs all =
      let one = group_hit_lem e gs all in
      let ih = group_hits_lem es (group_hit env e gs) one.0 in
      (
        ih.0,
        ih.1
            ∙ count_step (is_usable e) (count_usable es) (requests_in gs)
                (requests_in (group_hit env e gs)) one.1,
      )

  -- Every event that has an address, a time and a user agent is counted in exactly one group: the
  -- requests of the groups add up to the number of these events. Every group has at most as many
  -- sources as requests, and does not end before it begins.
  pub group_hits-IsSound :
      (es : List Hit)
      → All IsSound (group_hits env es []) × (requests_in (group_hits env es []) ≡ count_usable es)
  group_hits-IsSound es =
      let both = group_hits_lem es [] tt in (both.0, both.1 ∙ requests_in-nil (count_usable es))
