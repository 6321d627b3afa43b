-- ===== src/Common/Maps.antt =====
-- A Go map as an association list. The first entry with a key counts; a deletion drops all of them.
-- The order of a range loop is the list's: Go leaves it open.
use Prim.Native.Nat.{◌≤◌}
use Prim.Native.Nat.{suc, ◌<◌}
use mathlib.Core.Bool.{Bool, true}
use mathlib.Core.Logic.{◌≢◌, inl, inr}
use mathlib.Core.Path.{◌≡◌, refl}
use mathlib.Core.List.{List, [], ◌∷◌}
use mathlib.Core.Option.{Option, none, some}
use native.Mathlib.Omega.{arith}
use zent_loop.Common.Tests.{Bool-cases, if_rule, Eq, ◌==◌, if◌then◌else◌}
use zent_loop.Common.Lists.{length}

abbrev pub Map {ℓ κ} : Type ℓ → Type κ → Type (ℓ ⊔ κ)
Map K V = List (K × V)

module _ {ℓ κ} {K : Type ℓ} {V : Type κ} ⦃e : Eq K⦄ where
  unfoldable pub lookup : K → Map K V → Option V
  lookup key [] = none
  lookup key ((j, x) ∷ rest) = if j == key then some x else lookup key rest

  unfoldable pub insert : K → V → Map K V → Map K V
  insert key x [] = (key, x) ∷ []
  insert key x ((j, y) ∷ rest) = if j == key then (key, x) ∷ rest else (j, y) ∷ insert key x rest

  unfoldable pub remove : K → Map K V → Map K V
  remove k [] = []
  remove k ((j, v) ∷ m) = let rest = remove k m in if j == k then rest else (j, v) ∷ rest

module _ {ℓ κ} {K : Type ℓ} {V : Type κ} ⦃e : Eq K⦄ where
  pub lookup-insert :
      (j k : K) (v : V) (m : Map K V)
      → lookup j (insert k v m) ≡ (if k == j then some v else lookup j m)
  unfolding lookup insert
  lookup-insert j k v [] = refl
  lookup-insert j k v ((i, w) ∷ m) =
      ground (arith, e.beq_iff k j, e.beq_iff i k, e.beq_iff i j, lookup-insert j k v m)

  pub lookup-remove :
      (j k : K) (m : Map K V) → lookup j (remove k m) ≡ (if k == j then none else lookup j m)
  unfolding lookup remove
  lookup-remove j k [] = ground arith
  lookup-remove j k ((i, v) ∷ m) =
      ground (arith, lookup-remove j k m, e.beq_iff i k, e.beq_iff i j, e.beq_iff k j)

  pub length-remove-le : (k : K) (m : Map K V) → length (remove k m) ≤ length m
  unfolding remove
  length-remove-le k [] = omega arith
  length-remove-le k ((j, v) ∷ m) = ground (arith, length-remove-le k m)

module _ {ℓ κ} {K : Type ℓ} {V : Type κ} ⦃e : Eq K⦄ where
  -- The key is in the map.
  abbrev pub Has : K → Map K V → Type κ
  Has k m = lookup k m ≢ none

  -- No key stands twice, as in every Go map.
  abbrev pub Distinct : Map K V → Type κ
  Distinct [] = Unit
  Distinct ((k, v) ∷ m) = (lookup k m ≡ none) × Distinct m

module _ {ℓ κ} {K : Type ℓ} {V : Type κ} ⦃e : Eq K⦄ where
  pub length-insert-le : (k : K) (v : V) (m : Map K V) → length (insert k v m) ≤ suc (length m)
  unfolding insert
  length-insert-le k v [] = omega arith
  length-insert-le k v ((j, w) ∷ m) = ground (arith, length-insert-le k v m)

  -- A deletion of a key that is there makes the map smaller.
  pub length-remove-lt : (k : K) (m : Map K V) → Has k m → length (remove k m) < length m
  unfolding lookup remove
  length-remove-lt k [] h = absurd (h refl)
  length-remove-lt k ((j, v) ∷ m) h = elim (Bool-cases (j == k)) [
    | inl same ↦ rw same (omega (arith, length-remove-le k m))
    | inr other ↦ rw other (omega (arith, length-remove-lt k m (λ q. h (rw other q))))
  ]

  pub lookup-remove_of_none :
      (j k : K) (m : Map K V) → lookup j m ≡ none → lookup j (remove k m) ≡ none
  lookup-remove_of_none j k m h =
      rw (lookup-remove, h) (if_rule (λ o. o ≡ none) (k == j) none none (λ _. refl) (λ _. refl))

  pub remove-Distinct : (k : K) (m : Map K V) → Distinct m → Distinct (remove k m)
  unfolding remove
  remove-Distinct k [] d = tt
  remove-Distinct k ((j, v) ∷ m) d = elim (Bool-cases (j == k)) [
    | inl same ↦ rw same (remove-Distinct k m d.1)
    | inr other ↦ rw other (lookup-remove_of_none j k m d.0, remove-Distinct k m d.1)
  ]

  pub insert-Distinct : (k : K) (v : V) (m : Map K V) → Distinct m → Distinct (insert k v m)
  unfolding insert lookup
  insert-Distinct k v [] d = (refl, tt)
  insert-Distinct k v ((j, w) ∷ m) d = elim (Bool-cases (j == k)) [
    | inl same ↦ rw (same, ← (e.beq_iff j k).0 same) d
    | inr other ↦ rw other (
      rw lookup-insert (ground (arith, d.0, other, e.beq_iff k j, e.beq_iff j k)),
      insert-Distinct k v m d.1,
    )
  ]

  -- The entries that pass a test.
  unfoldable pub keep_entries : (V → Bool) → Map K V → Map K V
  keep_entries p [] = []
  keep_entries p ((k, v) ∷ m) = let rest = keep_entries p m in if p v then (k, v) ∷ rest else rest

module _ {ℓ κ} {K : Type ℓ} {V : Type κ} ⦃e : Eq K⦄ where
  pub lookup-keep_entries_of_none :
      (p : V → Bool) (j : K) (m : Map K V) → lookup j m ≡ none → lookup j (keep_entries p m) ≡ none
  unfolding keep_entries lookup
  lookup-keep_entries_of_none p j [] h = refl
  lookup-keep_entries_of_none p j ((k, v) ∷ m) h = ground (arith, lookup-keep_entries_of_none p j m)

  pub keep_entries-Distinct :
      (p : V → Bool) (m : Map K V) → Distinct m → Distinct (keep_entries p m)
  unfolding keep_entries
  keep_entries-Distinct p [] d = tt
  keep_entries-Distinct p ((k, v) ∷ m) d =
      if_rule Distinct (p v) ((k, v) ∷ keep_entries p m) (keep_entries p m)
        (λ _. (lookup-keep_entries_of_none p k m d.0, keep_entries-Distinct p m d.1))
        (λ _. keep_entries-Distinct p m d.1)

  -- An entry that passes the test is kept, in a map without double keys.
  pub lookup-keep_entries :
      (p : V → Bool) (k : K) (v : V) (m : Map K V)
      → lookup k m ≡ some v
      → p v ≡ true
      → lookup k (keep_entries p m) ≡ some v
  unfolding keep_entries lookup
  lookup-keep_entries p k v [] h t = cc
  lookup-keep_entries p k v ((j, w) ∷ m) h t = ground (arith, lookup-keep_entries p k v m)

  pub Has-here : (k : K) (v : V) (m : Map K V) → Has k ((k, v) ∷ m)
  unfolding lookup
  Has-here k v m = rw ((e.beq_iff k k).1 refl) cc

  pub Has-later : (k j : K) (v : V) (m : Map K V) → Has k m → Has k ((j, v) ∷ m)
  unfolding lookup
  Has-later k j v m h = if_rule (λ o. o ≢ none) (j == k) (some v) (lookup k m) (λ _. cc) (λ _. h)

  pub lookup-insert_self : (k : K) (v : V) (m : Map K V) → lookup k (insert k v m) ≡ some v
  lookup-insert_self k v m = rw (lookup-insert, (e.beq_iff k k).1 refl)

  pub lookup-remove_ne : (j k : K) (m : Map K V) → k ≢ j → lookup j (remove k m) ≡ lookup j m
  lookup-remove_ne j k m h = rw lookup-remove (ground (arith, e.beq_iff k j))

  pub length-keep_entries-le : (p : V → Bool) (m : Map K V) → length (keep_entries p m) ≤ length m
  unfolding keep_entries
  length-keep_entries-le p [] = omega arith
  length-keep_entries-le p ((k, v) ∷ m) = ground (arith, length-keep_entries-le p m)
