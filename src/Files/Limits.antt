-- ===== src/Files/Limits.antt =====
-- What the limit on one file's text leaves of it.
use zent_loop.Common.{
  ℕ, zero, suc, ◌-◌, ◌≤◌, true, not, ◌&&◌, [], ◌∷◌, ◌++◌, Bytes, nat_eq, leb, ◌==◌, length, take,
  drop, ◌≡◌, refl, arith, ◌⊎◌, inl, inr, Bool-cases, length-take, take-append-drop, append-nil,
  append_assoc,
}
use zent_loop.Files.{drop_broken, limit_to, limit_virtual_content, max_virtual_file_bytes}
use zent_loop.Files.Paths.{valid_string, valid_from}

-- `p` begins `v`.
abbrev pub Begins : Bytes → Bytes → Type 0
Begins p v = (rest : Bytes) × (v ≡ p ++ rest)

-- A text cut at the end: how long it is, that it begins the text, and that it is UTF-8.
abbrev Cut : Bytes → Bytes → Type 0
Cut p v = (length p ≤ length v) × Begins p v × (valid_string p ≡ true)

valid_string-nil : (v : Bytes) → length v ≡ 0 → valid_string v ≡ true
unfolding valid_string valid_from
valid_string-nil [] h = refl
valid_string-nil (c ∷ v) h = absurd (omega arith)

Cut-self : (v : Bytes) → valid_string v ≡ true → Cut v v
Cut-self v h = (omega arith, ([], rw append-nil refl), h)

Cut-take : (n : ℕ) (p v : Bytes) → Cut p (take n v) → Cut p v
Cut-take n p v (short, (rest, e), valid) = (
  omega (arith, length-take n v),
  (rest ++ drop n v, rw (← append_assoc, ← e, take-append-drop) refl),
  valid,
)

drop_broken-Cut : (fuel : ℕ) (v : Bytes) → length v ≤ fuel → Cut (drop_broken fuel v) v
unfolding drop_broken
drop_broken-Cut zero v h = Cut-self v (valid_string-nil v (omega arith))
drop_broken-Cut (suc fuel) v h = elim (Bool-cases (not (length v == 0) && not (valid_string v))) [
  | inl broken ↦ rw broken (
      Cut-take (length v - 1) _ v (
        drop_broken-Cut fuel (take (length v - 1) v) (omega (arith, length-take (length v - 1) v))))
  | inr whole ↦ rw whole (
      Cut-self v (elim (Bool-cases (valid_string v)) [
        | inl valid ↦ valid
        | inr bad ↦ valid_string-nil v (ground arith)
      ]))
]

Limited : ℕ → Bytes → Bytes → Type 0
Limited n p v = (length p ≤ n) × Begins p v × ((p ≡ v) ⊎ (valid_string p ≡ true))

limit_to-Limited : (n : ℕ) (v : Bytes) → Limited n (limit_to n v) v
unfolding limit_to Limited
limit_to-Limited n v = elim (Bool-cases (leb (length v) n)) [
  | inl fits ↦ rw fits (ground arith, ([], rw append-nil refl), inl refl)
  | inr long ↦
      let cut = drop_broken-Cut n (take n v) (omega (arith, length-take n v)) in
      let (short, begins, valid) = Cut-take n _ v cut in
      rw long (omega (arith, cut.0, length-take n v), begins, inr valid)
]

-- A file keeps at most 16 KiB of a text, from its beginning: all of the text, or a part of it that is
-- UTF-8, so that no character is cut in two.
pub limit_virtual_content_lem :
    (v : Bytes)
    → (length (limit_virtual_content v) ≤ max_virtual_file_bytes)
      × Begins (limit_virtual_content v) v
      × ((limit_virtual_content v ≡ v) ⊎ (valid_string (limit_virtual_content v) ≡ true))
unfolding limit_virtual_content Limited
limit_virtual_content_lem v = limit_to-Limited max_virtual_file_bytes v

limit_to_short : (n : ℕ) (v : Bytes) → length v ≤ n → limit_to n v ≡ v
unfolding limit_to
limit_to_short n v h = ground arith

-- A text within the limit is kept whole.
pub limit_of_short : (v : Bytes) → length v ≤ max_virtual_file_bytes → limit_virtual_content v ≡ v
unfolding limit_virtual_content
limit_of_short v h = limit_to_short max_virtual_file_bytes v h
