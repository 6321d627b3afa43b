-- ===== src/Credentials/Bindings.antt =====
-- The table of bindings: what the expiry and the bound on its size leave.
use mathlib.Core.Path.{sym}
use zent_loop.Common.{
  ℕ, zero, suc, ◌+◌, ◌-◌, ◌≤◌, List, [], ◌∷◌, Bytes, bytes_eq, none, leb, lookup, remove, length,
  ◌≡◌, ◌≢◌, refl, arith, ◌⊎◌, inr, if_rule, bytes_beq_iff, Map, Has, Distinct, Has-here, Has-later,
  lookup-remove_ne, length-remove-lt, remove-Distinct, lookup-remove,
}
use zent_loop.Credentials.{Binding, place_row, rows_by_age, drop_rows, cap_bindings, max_bindings}

-- No row has the key; no two rows have one key; every row's key is in the map.
abbrev pub Fresh : Bytes → List (Bytes × ℕ) → Type 0
Fresh k [] = Unit
Fresh k (row ∷ rows) = (row.0 ≢ k) × Fresh k rows

abbrev pub DistinctRows : List (Bytes × ℕ) → Type 0
DistinctRows [] = Unit
DistinctRows (row ∷ rows) = Fresh row.0 rows × DistinctRows rows

abbrev pub Present : List (Bytes × ℕ) → Map Bytes Binding → Type 0
Present [] m = Unit
Present (row ∷ rows) m = Has row.0 m × Present rows m

place_row-Fresh :
    (k : Bytes) (row : Bytes × ℕ) (rows : List (Bytes × ℕ))
    → row.0 ≢ k
    → Fresh k rows
    → Fresh k (place_row row rows)
unfolding place_row
place_row-Fresh k row [] ne fresh = (ne, tt)
place_row-Fresh k row (next ∷ rows) ne fresh =
    if_rule (Fresh k) (leb row.1 next.1) (row ∷ next ∷ rows) (next ∷ place_row row rows)
      (λ _. (ne, fresh)) (λ _. (fresh.0, place_row-Fresh k row rows ne fresh.1))

place_row-DistinctRows :
    (row : Bytes × ℕ) (rows : List (Bytes × ℕ))
    → Fresh row.0 rows
    → DistinctRows rows
    → DistinctRows (place_row row rows)
unfolding place_row
place_row-DistinctRows row [] fresh d = (tt, tt)
place_row-DistinctRows row (next ∷ rows) fresh d =
    if_rule DistinctRows (leb row.1 next.1) (row ∷ next ∷ rows) (next ∷ place_row row rows)
      (λ _. (fresh, d))
      (λ _. (
        place_row-Fresh next.0 row rows (λ e. fresh.0 (sym e)) d.0,
        place_row-DistinctRows row rows fresh.1 d.1,
      ))

place_row-Present :
    (m : Map Bytes Binding) (row : Bytes × ℕ) (rows : List (Bytes × ℕ))
    → Has row.0 m
    → Present rows m
    → Present (place_row row rows) m
unfolding place_row
place_row-Present m row [] has present = (has, tt)
place_row-Present m row (next ∷ rows) has present =
    if_rule (λ l. Present l m) (leb row.1 next.1) (row ∷ next ∷ rows) (next ∷ place_row row rows)
      (λ _. (has, present)) (λ _. (present.0, place_row-Present m row rows has present.1))

length-place_row :
    (row : Bytes × ℕ) (rows : List (Bytes × ℕ)) → length (place_row row rows) ≡ suc (length rows)
unfolding place_row
length-place_row row [] = refl
length-place_row row (next ∷ rows) = ground (arith, length-place_row row rows)

length-rows_by_age : (m : Map Bytes Binding) → length (rows_by_age m) ≡ length m
unfolding rows_by_age
length-rows_by_age [] = refl
length-rows_by_age ((k, b) ∷ m) = rw (length-place_row, length-rows_by_age m)

rows_by_age-Fresh :
    (k : Bytes) (m : Map Bytes Binding) → lookup k m ≡ none → Fresh k (rows_by_age m)
unfolding rows_by_age lookup
rows_by_age-Fresh k [] h = tt
rows_by_age-Fresh k ((j, b) ∷ m) h =
    place_row-Fresh k (j, b.last_seen) (rows_by_age m) (ground (arith, bytes_beq_iff j k))
      (rows_by_age-Fresh k m (ground (arith)))

rows_by_age-DistinctRows : (m : Map Bytes Binding) → Distinct m → DistinctRows (rows_by_age m)
unfolding rows_by_age
rows_by_age-DistinctRows [] d = tt
rows_by_age-DistinctRows ((k, b) ∷ m) d =
    place_row-DistinctRows (k, b.last_seen) (rows_by_age m) (rows_by_age-Fresh k m d.0)
      (rows_by_age-DistinctRows m d.1)

Present-later :
    (rows : List (Bytes × ℕ)) (k : Bytes) (b : Binding) (m : Map Bytes Binding)
    → Present rows m
    → Present rows ((k, b) ∷ m)
Present-later [] k b m present = tt
Present-later (row ∷ rows) k b m present =
    (Has-later row.0 k b m present.0, Present-later rows k b m present.1)

rows_by_age-Present : (m : Map Bytes Binding) → Present (rows_by_age m) m
unfolding rows_by_age
rows_by_age-Present [] = tt
rows_by_age-Present ((k, b) ∷ m) =
    place_row-Present ((k, b) ∷ m) (k, b.last_seen) (rows_by_age m) (Has-here k b m)
      (Present-later (rows_by_age m) k b m (rows_by_age-Present m))

Present-remove :
    (k : Bytes) (rows : List (Bytes × ℕ)) (m : Map Bytes Binding)
    → Fresh k rows
    → Present rows m
    → Present rows (remove k m)
Present-remove k [] m fresh present = tt
Present-remove k (row ∷ rows) m fresh present = (
  rw (lookup-remove_ne row.0 k m (λ e. fresh.0 (sym e))) present.0,
  Present-remove k rows m fresh.1 present.1,
)

length-drop_rows :
    (n : ℕ) (rows : List (Bytes × ℕ)) (m : Map Bytes Binding)
    → n ≤ length rows
    → DistinctRows rows
    → Present rows m
    → length (drop_rows n rows m) + n ≤ length m
unfolding drop_rows
length-drop_rows zero rows m h d present = omega arith
length-drop_rows (suc n) [] m h d present = absurd (omega arith)
length-drop_rows (suc n) (row ∷ rows) m h d present = omega (
  arith,
  length-remove-lt row.0 m present.0,
  length-drop_rows n rows (remove row.0 m) (omega arith) d.1
      (Present-remove row.0 rows m d.0 present.1),
)

drop_rows-Distinct :
    (n : ℕ) (rows : List (Bytes × ℕ)) (m : Map Bytes Binding)
    → Distinct m
    → Distinct (drop_rows n rows m)
unfolding drop_rows
drop_rows-Distinct zero rows m d = d
drop_rows-Distinct (suc n) [] m d = d
drop_rows-Distinct (suc n) (row ∷ rows) m d =
    drop_rows-Distinct n rows (remove row.0 m) (remove-Distinct row.0 m d)

pub lookup-drop_rows :
    (k : Bytes) (n : ℕ) (rows : List (Bytes × ℕ)) (m : Map Bytes Binding)
    → (lookup k (drop_rows n rows m) ≡ none) ⊎ (lookup k (drop_rows n rows m) ≡ lookup k m)
unfolding drop_rows
lookup-drop_rows k zero rows m = inr refl
lookup-drop_rows k (suc n) [] m = inr refl
lookup-drop_rows k (suc n) (row ∷ rows) m =
    ground (arith, lookup-drop_rows k n rows (remove row.0 m), lookup-remove k row.0 m)

pub length-cap_bindings :
    (m : Map Bytes Binding) → Distinct m → length (cap_bindings m) ≤ max_bindings
unfolding cap_bindings
length-cap_bindings m d = omega (
  arith,
  length-drop_rows (length m - max_bindings) (rows_by_age m) m (rw length-rows_by_age (omega arith))
      (rows_by_age-DistinctRows m d) (rows_by_age-Present m),
)

pub cap_bindings-Distinct : (m : Map Bytes Binding) → Distinct m → Distinct (cap_bindings m)
unfolding cap_bindings
cap_bindings-Distinct m = drop_rows-Distinct (length m - max_bindings) (rows_by_age m) m

pub lookup-cap_bindings :
    (k : Bytes) (m : Map Bytes Binding)
    → (lookup k (cap_bindings m) ≡ none) ⊎ (lookup k (cap_bindings m) ≡ lookup k m)
unfolding cap_bindings
lookup-cap_bindings k m = lookup-drop_rows k (length m - max_bindings) (rows_by_age m) m
