-- ===== src/Credentials/Normal.antt =====
-- Normalising a name twice is normalising it once.
use zent_loop.Common.{
  ℕ, false, [], ◌∷◌, Bytes, ◌≡◌, refl, arith, Bool-cases, inl, inr, is_space, trim_left, trim_right,
  trim_space, hang, lower_byte, to_lower,
}
use zent_loop.Credentials.{normal}

is_space-lower_byte : (c : ℕ) → is_space (lower_byte c) ≡ is_space c
unfolding is_space lower_byte
is_space-lower_byte c = ground arith

lower_byte_idem : (c : ℕ) → lower_byte (lower_byte c) ≡ lower_byte c
unfolding lower_byte
lower_byte_idem c = ground arith

to_lower_idem : (v : Bytes) → to_lower (to_lower v) ≡ to_lower v
unfolding to_lower
to_lower_idem [] = refl
to_lower_idem (c ∷ v) = rw (lower_byte_idem, to_lower_idem v)

trim_left-to_lower : (v : Bytes) → trim_left (to_lower v) ≡ to_lower (trim_left v)
unfolding trim_left to_lower
trim_left-to_lower [] = refl
trim_left-to_lower (c ∷ v) = ground (arith, is_space-lower_byte c, trim_left-to_lower v)

hang-to_lower : (c : ℕ) (v : Bytes) → hang (lower_byte c) (to_lower v) ≡ to_lower (hang c v)
unfolding hang to_lower
hang-to_lower c [] = ground (arith, is_space-lower_byte c)
hang-to_lower c (d ∷ v) = refl

to_lower-cons : (c : ℕ) (v : Bytes) → to_lower (c ∷ v) ≡ lower_byte c ∷ to_lower v
unfolding to_lower
to_lower-cons c v = refl

to_lower-nil : to_lower [] ≡ []
unfolding to_lower
to_lower-nil = refl

trim_right-cons : (c : ℕ) (v : Bytes) → trim_right (c ∷ v) ≡ hang c (trim_right v)
unfolding trim_right
trim_right-cons c v = refl

trim_right-to_lower : (v : Bytes) → trim_right (to_lower v) ≡ to_lower (trim_right v)
trim_right-to_lower [] = unfold trim_right to_lower in refl
trim_right-to_lower (c ∷ v) =
    rw (to_lower-cons, trim_right-cons, trim_right-cons, trim_right-to_lower v)
      (hang-to_lower c (trim_right v))

trim_right-hang : (c : ℕ) (w : Bytes) → trim_right w ≡ w → trim_right (hang c w) ≡ hang c w
unfolding hang
trim_right-hang c [] h = elim (Bool-cases (is_space c)) [
  | inl space ↦ rw space (unfold trim_right in refl)
  | inr other ↦ rw other (unfold trim_right in rw other refl)
]
trim_right-hang c (d ∷ w) h = rw (trim_right-cons, h) refl

trim_right_idem : (v : Bytes) → trim_right (trim_right v) ≡ trim_right v
trim_right_idem [] = unfold trim_right in refl
trim_right_idem (c ∷ v) = rw trim_right-cons (trim_right-hang c (trim_right v) (trim_right_idem v))

trim_left-hang : (c : ℕ) (w : Bytes) → is_space c ≡ false → trim_left (hang c w) ≡ hang c w
unfolding hang trim_left
trim_left-hang c [] h = rw (h, h) refl
trim_left-hang c (d ∷ w) h = rw h refl

trim_left-trim_space : (v : Bytes) → trim_left (trim_right (trim_left v)) ≡ trim_right (trim_left v)
unfolding trim_left
trim_left-trim_space [] = unfold trim_right in refl
trim_left-trim_space (c ∷ v) = elim (Bool-cases (is_space c)) [
  | inl space ↦ rw space (trim_left-trim_space v)
  | inr other ↦ rw (other, trim_right-cons) (trim_left-hang c (trim_right v) other)
]

pub normal_idem : (v : Bytes) → normal (normal v) ≡ normal v
unfolding normal trim_space
normal_idem v =
    rw
      (
        trim_left-to_lower, trim_right-to_lower, to_lower_idem, trim_left-trim_space,
        trim_right_idem,
      )
      refl
