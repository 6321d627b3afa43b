-- ===== src/Credentials/Pools.antt =====
-- A pool as a list of slots: fingerprints in it, and how sorting and touching treat them.
use mathlib.Core.Option.{some-injective}
use zent_loop.Common.{
  ℕ, suc, Bool, true, false, not, ◌&&◌, ◌||◌, List, [], ◌∷◌, ◌++◌, Bytes, bytes_eq, nat_eq, none,
  some, ◌==◌, length, ◌≡◌, refl, arith, inl, inr, Bool-cases, Option-cases, bytes_beq_iff,
}
use zent_loop.Credentials.{Slot, touch, place, by_age, is_idle, new_slot}

-- A slot has the fingerprint; one that is not idle has it; a slot is idle; the first one is.
unfoldable pub has_slot : Bytes → List Slot → Bool
has_slot fp [] = false
has_slot fp (slot ∷ slots) = (slot.fingerprint == fp) || has_slot fp slots

unfoldable pub has_recent : ℕ → Bytes → List Slot → Bool
has_recent now fp [] = false
has_recent now fp (slot ∷ slots) =
    ((slot.fingerprint == fp) && not (is_idle now slot)) || has_recent now fp slots

unfoldable pub any_idle : ℕ → List Slot → Bool
any_idle now [] = false
any_idle now (slot ∷ slots) = is_idle now slot || any_idle now slots

abbrev pub first_idle : ℕ → List Slot → Bool
first_idle now [] = false
first_idle now (slot ∷ slots) = is_idle now slot

pub has_slot-nil : (l : List Slot) (fp : Bytes) → has_slot fp l ≡ true → (length l == 0) ≡ false
unfolding has_slot
has_slot-nil [] fp h = cc
has_slot-nil (x ∷ l) fp h = ground arith

pub touch-none :
    (fp : Bytes) (now : ℕ) (l : List Slot) → touch fp now l ≡ none → has_slot fp l ≡ false
unfolding touch has_slot
touch-none fp now [] h = refl
touch-none fp now (slot ∷ l) h = ground (arith, touch-none fp now l)

pub touch_of_has :
    (fp : Bytes) (now : ℕ) (l : List Slot)
    → has_slot fp l ≡ true
    → (t : List Slot) × (touch fp now l ≡ some t)
touch_of_has fp now l h = elim (Option-cases (touch fp now l)) [
  | inl none_left ↦ cc (h, touch-none fp now l none_left)
  | inr found ↦ found
]

pub touch-some :
    (fp : Bytes) (now : ℕ) (l t : List Slot)
    → touch fp now l ≡ some t
    → (has_slot fp l ≡ true) × ((g : Bytes) → has_slot g t ≡ has_slot g l) × (length t ≡ length l)
unfolding touch has_slot
touch-some fp now [] t h = cc
touch-some fp now (slot ∷ l) t h = elim (Bool-cases (slot.fingerprint == fp)) [
  | inl same ↦ rw (← some-injective _ _ (rw same at h)) (ground arith, λ g. refl, refl)
  | inr other ↦ elim (Option-cases (touch fp now l)) [
    | inl gone ↦ cc (rw (other, gone) at h)
    | inr (m, found) ↦
        let (has, same, long) = touch-some fp now l m found in
        rw (← some-injective _ _ (rw (other, found) at h))
          (ground (arith, has), λ g. rw (same g), rw long)
  ]
]

has_slot-place :
    (g : Bytes) (x : Slot) (l : List Slot)
    → has_slot g (place x l) ≡ ((x.fingerprint == g) || has_slot g l)
unfolding place has_slot
has_slot-place g x [] = refl
has_slot-place g x (y ∷ l) = ground (arith, has_slot-place g x l)

pub has_slot-by_age : (g : Bytes) (l : List Slot) → has_slot g (by_age l) ≡ has_slot g l
unfolding by_age has_slot
has_slot-by_age g [] = refl
has_slot-by_age g (x ∷ l) = rw (has_slot-place, has_slot-by_age g l)

has_recent-place :
    (now : ℕ) (g : Bytes) (x : Slot) (l : List Slot)
    → has_recent now g (place x l)
      ≡ (((x.fingerprint == g) && not (is_idle now x)) || has_recent now g l)
unfolding place has_recent
has_recent-place now g x [] = refl
has_recent-place now g x (y ∷ l) = ground (arith, has_recent-place now g x l)

pub has_recent-by_age :
    (now : ℕ) (g : Bytes) (l : List Slot) → has_recent now g (by_age l) ≡ has_recent now g l
unfolding by_age has_recent
has_recent-by_age now g [] = refl
has_recent-by_age now g (x ∷ l) = rw (has_recent-place, has_recent-by_age now g l)

first_idle-place :
    (now : ℕ) (x : Slot) (l : List Slot)
    → first_idle now (place x l) ≡ (is_idle now x || first_idle now l)
unfolding place
first_idle-place now x [] = ground arith
first_idle-place now x (y ∷ l) = ground arith

pub first_idle-by_age : (now : ℕ) (l : List Slot) → first_idle now (by_age l) ≡ any_idle now l
unfolding by_age any_idle
first_idle-by_age now [] = refl
first_idle-by_age now (x ∷ l) = rw (first_idle-place, first_idle-by_age now l)

length-place : (x : Slot) (l : List Slot) → length (place x l) ≡ suc (length l)
unfolding place
length-place x [] = refl
length-place x (y ∷ l) = ground (arith, length-place x l)

pub length-by_age : (l : List Slot) → length (by_age l) ≡ length l
unfolding by_age
length-by_age [] = refl
length-by_age (x ∷ l) = rw (length-place, length-by_age l)

pub has_slot_of_recent :
    (now : ℕ) (g : Bytes) (l : List Slot) → has_recent now g l ≡ true → has_slot g l ≡ true
unfolding has_slot has_recent
has_slot_of_recent now g [] h = h
has_slot_of_recent now g (x ∷ l) h = ground (arith, has_slot_of_recent now g l)

pub has_slot-append :
    (g : Bytes) (l m : List Slot) → has_slot g (l ++ m) ≡ (has_slot g l || has_slot g m)
unfolding has_slot
has_slot-append g [] m = refl
has_slot-append g (x ∷ l) m = ground (arith, has_slot-append g l m)

pub has_slot-new : (fp : Bytes) (now : ℕ) (l : List Slot) → has_slot fp (new_slot fp now ∷ l) ≡ true
unfolding has_slot
has_slot-new fp now l = ground (arith, bytes_beq_iff fp fp)

-- An idle slot that is replaced takes no slot away that was not idle.
pub has_slot-rotated :
    (now : ℕ) (g : Bytes) (x : Slot) (l : List Slot) (fp : Bytes)
    → is_idle now x ≡ true
    → has_recent now g (x ∷ l) ≡ true
    → has_slot g (new_slot fp now ∷ l) ≡ true
unfolding has_slot has_recent
has_slot-rotated now g x l fp idle recent = ground (arith, has_slot_of_recent now g l)
