-- ===== src/Trusted/Roots.antt =====
-- The trusted root of a host: the loop over a map in any order finds what a walk over the labels finds.
use zent_loop.Common.{
  ℕ, zero, suc, ◌-◌, ◌≤◌, Bool, true, false, ◌&&◌, ◌||◌, [], ◌∷◌, Bytes, bytes_eq, nat_eq,
  bytes_beq_iff, ltb, ◌==◌, if◌then◌else◌, length, drop, Map, or_else, has_suffix, Bool-cases,
  if_rule, ◌≡◌, refl, ap, sym, ◌∙◌, arith, ◌⊎◌, inl, inr,
}
use zent_loop.Trusted.{
  Net, TrustedDomain, is_under, longer_root, root_among, trusted_target_root,
  canonical_trusted_host,
}
use zent_loop.Trusted.Suffixes.{
  is_under_at, is_under_at-cons, is_under_at-nil, has_suffix-drop, has_suffix-short,
}

module _ {ℓ} {V : Type ℓ} where
  unfoldable pub is_key : Bytes → Map Bytes V → Bool
  is_key d [] = false
  is_key d ((j, x) ∷ m) = (j == d) || is_key d m

  -- The longest domain that the host lies under: the first that is a key, from the whole host on, one
  -- label less each time. No order of the map comes into it.
  unfoldable pub longest_trusted : Map Bytes V → Bool → Bytes → Bytes
  unfolding is_key
  longest_trusted m start [] = []
  longest_trusted m start (c ∷ v) =
      let rest = longest_trusted m (c == b'.') v in
      if start && is_key (c ∷ v) m then c ∷ v else rest

  -- `r` is a key that the host lies under, or nothing; no key that it lies under is longer.
  abbrev Best : Bool → Bytes → Map Bytes V → Bytes → Type 0
  Best start host m r =
      ((r ≡ []) ⊎ ((is_under_at start host r ≡ true) × (is_key r m ≡ true)))
      × ((d : Bytes) → is_key d m ≡ true → is_under_at start host d ≡ true → length d ≤ length r)

or_true : (b : Bool) → (b || true) ≡ true
or_true true = refl
or_true false = refl

sub_self : (n : ℕ) → n - n ≡ 0
sub_self n = omega arith

same_bytes : (v : Bytes) → (v == v) ≡ true
same_bytes v = (bytes_beq_iff v v).1 refl

drop-suc : (k x : ℕ) (v w : Bytes) → drop k v ≡ x ∷ w → drop (suc k) v ≡ w
drop-suc zero x [] w e = cc
drop-suc zero x (c ∷ v) w e = ap (drop 1) e
drop-suc (suc k) x [] w e = cc
drop-suc (suc k) x (c ∷ v) w e = drop-suc k x v w e

-- A domain that a host lies under is the end of the host from its length on.
is_under_at-drop :
    (start : Bool) (host d : Bytes)
    → is_under_at start host d ≡ true
    → (length d ≤ length host) × (drop (length host - length d) host ≡ d)
unfolding is_under_at
is_under_at-drop start host d h = elim (Bool-cases (start && (host == d))) [
  | inl whole ↦
      let same : host ≡ d = ground (arith, bytes_beq_iff host d) in
      rw same (omega arith, rw (sub_self (length d)) refl)
  | inr part ↦
      let suffix : has_suffix host (b'.' ∷ d) ≡ true = ground arith in
      let fits = has_suffix-short host (b'.' ∷ d) suffix in
      let next : length host - length d ≡ suc (length host - suc (length d)) =
        omega (arith, fits) in
      (
        omega (arith, fits),
        rw next (
            drop-suc (length host - suc (length d)) b'.' host d
              (has_suffix-drop host (b'.' ∷ d) suffix)),
      )
]

module _ {ℓ} {V : Type ℓ} (m : Map Bytes V) where
  longest_trusted-key :
      (start : Bool) (host : Bytes)
      → (longest_trusted m start host ≡ [])
        ⊎ ((is_under_at start host (longest_trusted m start host) ≡ true)
            × (is_key (longest_trusted m start host) m ≡ true))
  unfolding longest_trusted
  longest_trusted-key start [] = inl refl
  longest_trusted-key start (c ∷ v) =
      if_rule (λ r. (r ≡ []) ⊎ ((is_under_at start (c ∷ v) r ≡ true) × (is_key r m ≡ true)))
        (start && is_key (c ∷ v) m) _ _
        (λ here.
          let at_start : start ≡ true = ground arith in
          inr (
            rw (is_under_at-cons start c v (c ∷ v), at_start, same_bytes (c ∷ v)) refl,
            ground arith,
          ))
        (λ _. elim (longest_trusted-key (c == b'.') v) [
          | inl nothing ↦ inl nothing
          | inr (under, key) ↦ inr (
            rw (is_under_at-cons start c v (longest_trusted m (c == b'.') v), under)
                (or_true (start && ((c ∷ v) == longest_trusted m (c == b'.') v))),
            key,
          )
        ])

  -- A key that is not the whole text is asked for again behind its first byte.
  later :
      (start : Bool) (c : ℕ) (v d : Bytes)
      → (start && is_key (c ∷ v) m) ≡ false
      → is_key d m ≡ true
      → is_under_at start (c ∷ v) d ≡ true
      → is_under_at (c == b'.') v d ≡ true
  later start c v d no_key key under = elim (Bool-cases (start && ((c ∷ v) == d))) [
    | inl whole ↦
        let same : c ∷ v ≡ d = ground (arith, bytes_beq_iff (c ∷ v) d) in
        let at_start : start ≡ true = ground arith in cc (rw (at_start, same, key) at no_key)
    | inr part ↦ rw (is_under_at-cons start c v d, part) at under
  ]

  longest_trusted-max :
      (start : Bool) (host d : Bytes)
      → is_key d m ≡ true
      → is_under_at start host d ≡ true
      → length d ≤ length (longest_trusted m start host)
  unfolding longest_trusted
  longest_trusted-max start [] d key under = rw (is_under_at-nil start d under) (omega arith)
  longest_trusted-max start (c ∷ v) d key under =
      if_rule (λ (r : Bytes). length d ≤ length r) (start && is_key (c ∷ v) m) _ _
        (λ _. (is_under_at-drop start (c ∷ v) d under).0)
        (λ no_key. longest_trusted-max (c == b'.') v d key (later start c v d no_key key under))

  longest_trusted-Best : (host : Bytes) → Best true host m (longest_trusted m true host)
  longest_trusted-Best host = (longest_trusted-key true host, longest_trusted-max true host)

empty : (v : Bytes) → length v ≤ 0 → v ≡ []
empty [] h = refl
empty (c ∷ v) h = absurd (omega arith)

longer_root-cases :
    (host d root : Bytes)
    → (longer_root host d root ≡ root)
      ⊎ ((longer_root host d root ≡ d) × (is_under_at true host d ≡ true))
unfolding is_under is_under_at
longer_root-cases host d root = elim (Bool-cases (is_under host d)) [
  | inl under ↦ elim (Bool-cases (ltb (length root) (length d))) [
    | inl longer ↦ inr (rw (under, longer) refl, under)
    | inr shorter ↦ inl (rw (under, shorter) refl)
  ]
  | inr apart ↦ inl (rw apart refl)
]

longer_root-max :
    (host d root : Bytes)
    → (length root ≤ length (longer_root host d root))
      × (is_under_at true host d ≡ true → length d ≤ length (longer_root host d root))
unfolding is_under is_under_at
longer_root-max host d root = elim (Bool-cases (is_under host d)) [
  | inl under ↦ elim (Bool-cases (ltb (length root) (length d))) [
    | inl longer ↦ rw (under, longer) (ground arith, λ _. omega arith)
    | inr shorter ↦ rw (under, shorter) (omega arith, λ _. ground arith)
  ]
  | inr apart ↦ rw apart (omega arith, λ h. cc)
]

module _ {ℓ} {V : Type ℓ} where
  Best-unique :
      (host : Bytes) (m : Map Bytes V) (r t : Bytes)
      → Best true host m r
      → Best true host m t
      → r ≡ t
  Best-unique host m r t (inl nothing, above) (inl none_too, below) = nothing ∙ sym none_too
  Best-unique host m r t (inl nothing, above) (inr (under, key), below) =
      nothing ∙ sym (empty t (omega (arith, above t key under, ap length nothing)))
  Best-unique host m r t (inr (under, key), above) (inl nothing, below) =
      empty r (omega (arith, below r key under, ap length nothing)) ∙ sym nothing
  Best-unique host m r t (inr (under, key), above) (inr (under2, key2), below) =
      let same : length r ≡ length t = omega (arith, above t key2 under2, below r key under) in
      sym (is_under_at-drop true host r under).1
      ∙ ap (λ n. drop (length host - n) host) same
      ∙ (is_under_at-drop true host t under2).1

  -- The loop so far: `root` is nothing or a domain that the host lies under, which came before.
  root_among-key :
      (host : Bytes) (m : Map Bytes V) (root : Bytes)
      → (root_among host m root ≡ root)
        ⊎ ((is_under_at true host (root_among host m root) ≡ true)
            × (is_key (root_among host m root) m ≡ true))
  unfolding root_among is_key is_under is_under_at
  root_among-key host [] root = inl refl
  root_among-key host ((d, x) ∷ m) root = elim (root_among-key host m (longer_root host d root)) [
    | inl same ↦ elim (longer_root-cases host d root) [
      | inl stays ↦ inl (same ∙ stays)
      | inr (takes, under) ↦ inr (rw (same, takes) (under, rw (same_bytes d) refl))
    ]
    | inr (under, key) ↦
        inr (under, rw key (or_true (d == root_among host m (longer_root host d root))))
  ]

  root_among-max :
      (host : Bytes) (m : Map Bytes V) (root : Bytes)
      → (length root ≤ length (root_among host m root))
        × ((d : Bytes)
            → is_key d m ≡ true
            → is_under_at true host d ≡ true
            → length d ≤ length (root_among host m root))
  unfolding root_among is_key is_under is_under_at
  root_among-max host [] root = (omega arith, λ d key under. cc)
  root_among-max host ((e, x) ∷ m) root =
      let ih = root_among-max host m (longer_root host e root) in
      (
        omega (arith, ih.0, longer_root-max host e root),
        λ d key under. elim (Bool-cases (e == d)) [
          | inl here ↦
              let same = (bytes_beq_iff e d).0 here in
              let found = (longer_root-max host e root).1 (rw same under) in
              omega (arith, ih.0, found, ap length same)
          | inr other ↦ ih.1 d (rw other at key) under
        ],
      )

  root_among-Best : (host : Bytes) (m : Map Bytes V) → Best true host m (root_among host m [])
  root_among-Best host m = (root_among-key host m [], (root_among-max host m []).1)

  pub root_among-longest_trusted :
      (host : Bytes) (m : Map Bytes V) → root_among host m [] ≡ longest_trusted m true host
  root_among-longest_trusted host m =
      Best-unique host m _ _ (root_among-Best host m) (longest_trusted-Best m host)

longest-nil : (m : Map Bytes TrustedDomain) → longest_trusted m true [] ≡ []
unfolding longest_trusted
longest-nil m = refl

-- The root under which a host is trusted is what a walk over the labels of its canonical form finds:
-- the first domain of the table, from the whole host on with one label less each time. It does not
-- depend on the order in which the map is iterated.
pub trusted_target_root-longest_trusted :
    (net : Net) (raw : Bytes) (m : Map Bytes TrustedDomain)
    → or_else (trusted_target_root net raw m) []
      ≡ longest_trusted m true (canonical_trusted_host net raw)
unfolding trusted_target_root
trusted_target_root-longest_trusted net raw m =
    let host = canonical_trusted_host net raw in
    let root = root_among host m [] in
    elim (Bool-cases (host == [])) [
      | inl no_host ↦
          let nothing : host ≡ [] = (bytes_beq_iff host []).0 no_host in
          rw no_host (sym (walk_nothing nothing))
      | inr some_host ↦ elim (Bool-cases (root == [])) [
        | inl no_root ↦
            let nothing : root ≡ [] = (bytes_beq_iff root []).0 no_root in
            rw (some_host, no_root) (sym nothing ∙ root_among-longest_trusted host m)
        | inr some_root ↦ rw (some_host, some_root) (root_among-longest_trusted host m)
      ]
    ]
  where
    walk_nothing : {host : Bytes} → host ≡ [] → longest_trusted m true host ≡ []
    walk_nothing e = rw e (longest-nil m)
