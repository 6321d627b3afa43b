-- ===== src/Trusted/Suffixes.antt =====
-- The domains that a host lies under, label by label.
use zent_loop.Common.{
  ℕ, suc, ◌-◌, ◌≤◌, Bool, true, false, ◌&&◌, ◌||◌, [], ◌∷◌, Bytes, bytes_eq, nat_eq, bytes_beq,
  bytes_beq_iff, leb, ◌==◌, length, drop, has_suffix, Bool-cases, ◌≡◌, ◌≢◌, refl, ap, arith, inl,
  inr,
}

-- A suffix is the end of the text from its length on.
pub has_suffix-drop : (v p : Bytes) → has_suffix v p ≡ true → drop (length v - length p) v ≡ p
unfolding has_suffix
has_suffix-drop v p h = ground (arith, bytes_beq_iff (drop (length v - length p) v) p)

pub has_suffix-short : (v p : Bytes) → has_suffix v p ≡ true → length p ≤ length v
unfolding has_suffix
has_suffix-short v p h = ground arith

same_length : (v p : Bytes) → length v ≢ length p → (v == p) ≡ false
same_length v p h = elim (Bool-cases (v == p)) [
  | inl same ↦ absurd (h (ap length ((bytes_beq_iff v p).0 same)))
  | inr other ↦ other
]

or_false : (b : Bool) → b ≡ (b || false)
or_false true = refl
or_false false = refl

-- The test of a suffix, one byte at a time.
pub has_suffix-cons :
    (c : ℕ) (v p : Bytes) → 1 ≤ length p → has_suffix (c ∷ v) p ≡ (((c ∷ v) == p) || has_suffix v p)
unfolding has_suffix
has_suffix-cons c v p some_byte = elim (Bool-cases (leb (length p) (length v))) [
  | inl shorter ↦
      let more : leb (length p) (suc (length v)) ≡ true = ground arith in
      let later : suc (length v) - length p ≡ suc (length v - length p) = ground arith in
      let other = same_length (c ∷ v) p (ground arith) in rw (more, shorter, later, other) refl
  | inr longer ↦ elim (Bool-cases (length p == suc (length v))) [
    | inl whole ↦
        let more : leb (length p) (suc (length v)) ≡ true = ground arith in
        let first : suc (length v) - length p ≡ 0 = ground arith in
        rw (more, longer, first) (or_false ((c ∷ v) == p))
    | inr beyond ↦
        let less : leb (length p) (suc (length v)) ≡ false = ground arith in
        let other = same_length (c ∷ v) p (ground arith) in rw (less, longer, other) refl
  ]
]

-- What `is_under` asks at the start of a label, or behind it.
unfoldable pub is_under_at : Bool → Bytes → Bytes → Bool
is_under_at start host domain = (start && (host == domain)) || has_suffix host (b'.' ∷ domain)

pub is_under_at-cons :
    (start : Bool) (c : ℕ) (v domain : Bytes)
    → is_under_at start (c ∷ v) domain
      ≡ ((start && ((c ∷ v) == domain)) || is_under_at (c == b'.') v domain)
unfolding is_under_at bytes_beq
is_under_at-cons start c v domain = rw (has_suffix-cons c v (b'.' ∷ domain) (omega arith)) refl

pub is_under_at-nil :
    (start : Bool) (domain : Bytes) → is_under_at start [] domain ≡ true → domain ≡ []
unfolding is_under_at has_suffix bytes_beq
is_under_at-nil start [] h = refl
is_under_at-nil start (d ∷ domain) h = ground arith
