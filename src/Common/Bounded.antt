-- ===== src/Common/Bounded.antt =====
-- A map whose size is bounded: when it is full, a new key is counted under one key for all the others.
use Prim.Native.Nat.{ℕ, suc, ◌+◌, ◌≤◌, ◌<◌}
use mathlib.Core.Logic.{◌⊎◌, inl, inr}
use mathlib.Core.Path.{◌≡◌, refl, ap}
use mathlib.Core.List.{[], ◌∷◌}
use mathlib.Core.Option.{Option, none, some}
use native.Mathlib.Omega.{arith}
use zent_loop.Common.Tests.{Eq, Bytes, bytes_eq, leb, ◌==◌, if◌then◌else◌, Bool-cases, if_rule}
use zent_loop.Common.Lists.{length, All}
use zent_loop.Common.Options.{or_else}
use zent_loop.Common.Maps.{
  Map, Has, lookup, insert, lookup-insert, lookup-insert_self, length-insert-le,
}

module _ {ℓ κ} {K : Type ℓ} {V : Type κ} ⦃e : Eq K⦄ where
  pub length-insert_known :
      (k : K) (v : V) (m : Map K V) → Has k m → length (insert k v m) ≡ length m
  unfolding lookup insert
  length-insert_known k v [] h = absurd (h refl)
  length-insert_known k v ((j, w) ∷ m) h = elim (Bool-cases (j == k)) [
    | inl same ↦ rw same refl
    | inr other ↦ rw other (ap suc (length-insert_known k v m (λ q. h (rw other q))))
  ]

  pub All-insert {μ} :
      (P : V → Type μ) (k : K) (v : V) (m : Map K V)
      → P v
      → All (λ row. P row.1) m
      → All (λ row. P row.1) (insert k v m)
  unfolding insert
  All-insert P k v [] p all = (p, tt)
  All-insert P k v ((j, w) ∷ m) p all =
      if_rule (All (λ (row : K × V). P row.1)) (j == k) _ _ (λ _. (p, all.1))
        (λ _. (all.0, All-insert P k v m p all.1))

  pub All-lookup {μ} :
      (P : V → Type μ) (k : K) (d : V) (m : Map K V)
      → P d
      → All (λ row. P row.1) m
      → P (or_else (lookup k m) d)
  unfolding lookup
  All-lookup P k d [] p all = p
  All-lookup P k d ((j, w) ∷ m) p all = elim (Bool-cases (j == k)) [
    | inl same ↦ rw same all.0
    | inr other ↦ rw other (All-lookup P k d m p all.1)
  ]

module _ {ℓ κ} {K : Type ℓ} {V : Type κ} ⦃e : Eq K⦄ where
  pub insert-Has : (k : K) (v : V) (m : Map K V) → Has k (insert k v m)
  insert-Has k v m none_found = cc (rw (lookup-insert_self k v m) at none_found)

  pub Has-insert : (j k : K) (v : V) (m : Map K V) → Has j m → Has j (insert k v m)
  Has-insert j k v m has none_found = elim (Bool-cases (k == j)) [
    | inl same ↦ cc (rw (lookup-insert j k v m, same) at none_found)
    | inr other ↦ has (rw (lookup-insert j k v m, other) at none_found)
  ]

-- The key that a new entry gets in a map of the given size.
abbrev pub key_for {ℓ} : {V : Type ℓ} → ℕ → Bytes → Bytes → ℕ → Option V → Bytes
key_for max other key size (some row) = key
key_for max other key size none = if leb max size then other else key

abbrev pub bounded_key {ℓ} : {V : Type ℓ} → ℕ → Bytes → Bytes → Map Bytes V → Bytes
bounded_key max other key m = key_for max other key (length m) (lookup key m)

-- At most `max` keys, or one more, which is that of the others.
abbrev pub Room {ℓ} : {V : Type ℓ} → ℕ → Bytes → Map Bytes V → Type ℓ
Room max other m = (length m ≤ max) ⊎ ((length m ≤ max + 1) × Has other m)

module _ {ℓ} {V : Type ℓ} (max : ℕ) (other : Bytes) where
  insert_known-Room :
      (k : Bytes) (v : V) (m : Map Bytes V)
      → Has k m
      → Room max other m
      → Room max other (insert k v m)
  insert_known-Room k v m has (inl small) = inl (rw (length-insert_known k v m has) small)
  insert_known-Room k v m has (inr (full, rest)) =
      inr (rw (length-insert_known k v m has) full, Has-insert other k v m rest)

  insert_rest-Room :
      (v : V) (m : Map Bytes V) → Room max other m → Room max other (insert other v m)
  insert_rest-Room v m (inl small) =
      inr (omega (arith, length-insert-le other v m), insert-Has other v m)
  insert_rest-Room v m (inr (full, rest)) = insert_known-Room other v m rest (inr (full, rest))

  -- The key is known, or it is that of the rest, or there is room for it.
  bounded_key-cases :
      (host : Bytes) (m : Map Bytes V)
      → Has (bounded_key max other host m) m
        ⊎ ((bounded_key max other host m ≡ other) ⊎ (length m < max))
  bounded_key-cases host m = go (lookup host m) refl
    where
      go :
          (o : Option V)
          → lookup host m ≡ o
          → Has (key_for max other host (length m) o) m
            ⊎ ((key_for max other host (length m) o ≡ other) ⊎ (length m < max))
      go (some row) known = inl (λ q. cc (rw known at q))
      go none fresh = elim (Bool-cases (leb max (length m))) [
        | inl full ↦ rw full (inr (inl refl))
        | inr free ↦ inr (inr (ground arith))
      ]

  insert_key-Room :
      (key : Bytes) (v : V) (m : Map Bytes V)
      → Has key m ⊎ ((key ≡ other) ⊎ (length m < max))
      → Room max other m
      → Room max other (insert key v m)
  insert_key-Room key v m (inl known) room = insert_known-Room key v m known room
  insert_key-Room key v m (inr (inl rest)) room = rw rest (insert_rest-Room v m room)
  insert_key-Room key v m (inr (inr free)) room = inl (omega (arith, length-insert-le key v m))

  pub bounded_key-Room :
      (host : Bytes) (v : V) (m : Map Bytes V)
      → Room max other m
      → Room max other (insert (bounded_key max other host m) v m)
  bounded_key-Room host v m room =
      insert_key-Room (bounded_key max other host m) v m (bounded_key-cases host m) room
