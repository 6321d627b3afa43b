-- ===== src/Editor/Slices.antt =====
-- Insertion and deletion in a slice, as the buffer's methods and `insertRune` of
-- internal/server/trap_ssh_terminal.go do them.
use zent_loop.Common.{
  ℕ, zero, suc, ◌≤◌, ◌<◌, List, [], ◌∷◌, ◌≡◌, refl, ap, arith, length, get_or, set,
}

-- slices[:at], value, slices[at:]
unfoldable pub insert_at {ℓ} : {A : Type ℓ} → List A → ℕ → A → List A
insert_at xs zero v = v ∷ xs
insert_at [] (suc at) v = v ∷ []
insert_at (x ∷ xs) (suc at) v = x ∷ insert_at xs at v

-- append(xs[:at], xs[at+1:]...)
unfoldable pub delete_at {ℓ} : {A : Type ℓ} → List A → ℕ → List A
delete_at [] at = []
delete_at (x ∷ xs) zero = xs
delete_at (x ∷ xs) (suc at) = x ∷ delete_at xs at

module _ {ℓ} {A : Type ℓ} where
  pub length-insert_at :
      (xs : List A) (at : ℕ) (v : A) → at ≤ length xs → length (insert_at xs at v) ≡ suc (length xs)
  unfolding insert_at
  length-insert_at xs zero v h = refl
  length-insert_at [] (suc at) v h = absurd (omega arith)
  length-insert_at (x ∷ xs) (suc at) v h = ap suc (length-insert_at xs at v (omega arith))

  pub length-delete_at :
      (xs : List A) (at : ℕ) → at < length xs → suc (length (delete_at xs at)) ≡ length xs
  unfolding delete_at
  length-delete_at [] at h = absurd (omega arith)
  length-delete_at (x ∷ xs) zero h = refl
  length-delete_at (x ∷ xs) (suc at) h = ap suc (length-delete_at xs at (omega arith))

  pub get_or-delete_at_of_lt :
      (xs : List A) (at i : ℕ) (d : A) → i < at → get_or (delete_at xs at) i d ≡ get_or xs i d
  unfolding delete_at
  get_or-delete_at_of_lt [] at i d h = refl
  get_or-delete_at_of_lt (x ∷ xs) zero i d h = absurd (omega arith)
  get_or-delete_at_of_lt (x ∷ xs) (suc at) zero d h = refl
  get_or-delete_at_of_lt (x ∷ xs) (suc at) (suc i) d h =
      get_or-delete_at_of_lt xs at i d (omega arith)

  pub get_or-insert_at_of_lt :
      (xs : List A) (at i : ℕ) (v d : A)
      → i < at
      → at ≤ length xs
      → get_or (insert_at xs at v) i d ≡ get_or xs i d
  unfolding insert_at
  get_or-insert_at_of_lt xs zero i v d h k = absurd (omega arith)
  get_or-insert_at_of_lt [] (suc at) i v d h k = absurd (omega arith)
  get_or-insert_at_of_lt (x ∷ xs) (suc at) zero v d h k = refl
  get_or-insert_at_of_lt (x ∷ xs) (suc at) (suc i) v d h k =
      get_or-insert_at_of_lt xs at i v d (omega arith) (omega arith)

  pub get_or-insert_at_self :
      (xs : List A) (at : ℕ) (v d : A) → at ≤ length xs → get_or (insert_at xs at v) at d ≡ v
  unfolding insert_at
  get_or-insert_at_self xs zero v d h = refl
  get_or-insert_at_self [] (suc at) v d h = absurd (omega arith)
  get_or-insert_at_self (x ∷ xs) (suc at) v d h = get_or-insert_at_self xs at v d (omega arith)

  -- A deletion undoes an insertion at the same place.
  pub delete_at-insert_at :
      (xs : List A) (at : ℕ) (v : A) → at ≤ length xs → delete_at (insert_at xs at v) at ≡ xs
  unfolding insert_at delete_at
  delete_at-insert_at xs zero v h = refl
  delete_at-insert_at [] (suc at) v h = absurd (omega arith)
  delete_at-insert_at (x ∷ xs) (suc at) v h = ap (◌∷◌ x) (delete_at-insert_at xs at v (omega arith))

  -- A write before the place of an insertion can be made before it.
  pub set-insert_at_of_lt :
      (xs : List A) (at i : ℕ) (v w : A)
      → i < at
      → at ≤ length xs
      → set (insert_at xs at v) i w ≡ insert_at (set xs i w) at v
  unfolding insert_at
  set-insert_at_of_lt xs zero i v w h k = absurd (omega arith)
  set-insert_at_of_lt [] (suc at) i v w h k = absurd (omega arith)
  set-insert_at_of_lt (x ∷ xs) (suc at) zero v w h k = refl
  set-insert_at_of_lt (x ∷ xs) (suc at) (suc i) v w h k =
      ap (◌∷◌ x) (set-insert_at_of_lt xs at i v w (omega arith) (omega arith))
