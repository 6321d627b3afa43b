-- ===== src/Retention/Shares.antt =====
-- The shares of the files, and the size that is left.
use native.Mathlib.Nat.{mul-le-mul, mul_comm, mul-add, add-mul, div-lt_iff_lt-mul}
use zent_loop.Common.{
  ℕ, ◌+◌, ◌-◌, ◌*◌, ◌/◌, ◌%◌, ◌^◌, ◌≤◌, ◌<◌, Bool, true, false, ◌||◌, List, [], ◌∷◌, Bytes, nat_eq,
  Option, none, some, ltb, leb, ◌==◌, length, Bool-cases, if_rule, ◌≡◌, refl, ap, arith, inl, inr,
}
use zent_loop.Retention.{
  Active, absent, closed, opened, broken, release, tail_from, Log, Io, size_of, compact_jsonl_tail,
}
use zent_loop.Retention.Lines.{fine, tail_lines_lem}
use zent_loop.Retention.Budget.{
  share_of, cut_files, at_least_one, at_most, total_size, logs, compact_jsonl_storage_budget,
}

shift : (y b s : ℕ) → y ≤ s → y * (s + b) ≤ (y + b) * s
shift y b s below =
    omega (arith, mul-add y s b, add-mul y b s, mul-le-mul below (le_self b), mul_comm s b)
  where
    le_self : (n : ℕ) → n ≤ n
    le_self n = omega arith

-- The quotient of a proportional share, in its bounds.
quotient_lem :
    (t b s : ℕ)
    → t ≤ s + b
    → 1 ≤ s + b
    → (t * s / (s + b) ≤ s) × (t * s / (s + b) ≤ t) × (t ≤ t * s / (s + b) + b)
quotient_lem t b s below some_size =
    let q = t * s / (s + b) in
    let size_bound : q < s + 1 =
      (div-lt_iff_lt-mul some_size).1
        (omega (arith, mul-le-mul below (le_self s), mul_comm s (s + b), add-mul s 1 (s + b))) in
    let target_bound : q < t + 1 =
      (div-lt_iff_lt-mul some_size).1 (omega (arith, mul-add t s b, add-mul t 1 (s + b))) in
    (omega arith, omega arith, rest)
  where
    le_self : (n : ℕ) → n ≤ n
    le_self n = omega arith

    rest : t ≤ t * s / (s + b) + b
    rest = elim (Bool-cases (ltb (t * s / (s + b) + b) t)) [
      | inl less ↦
          let y = t - b in
          let whole : y + b ≡ t = ground arith in
          let small : t * s / (s + b) < y = ground arith in
          let product = (div-lt_iff_lt-mul some_size).0 small in
          absurd (omega (arith, product, rw whole at (shift y b s (omega (arith, below, whole)))))
      | inr enough ↦ ground arith
    ]

clamp_lem :
    (q s t b : ℕ)
    → q ≤ s
    → q ≤ t
    → t ≤ q + b
    → 1 ≤ s
    → let r = at_most s (at_least_one q) in (1 ≤ r) × (r + (t - r) ≤ t + 1) × (t - r ≤ b)
clamp_lem q s t b in_size in_target rest some_size = (ground arith, ground arith, ground arith)

not_negative : (n : ℕ) → n < 2 ^ 63 → leb (2 ^ 63) n ≡ false
not_negative n h = ground arith

-- What a share is: at most the size, more than the target's rest by one at most, and the rest of the
-- target stays below the rest of the sizes.
share_of_lem :
    (t b s : ℕ)
    → t ≤ s + b
    → 1 ≤ s
    → t * (s + b) < 2 ^ 63
    → (1 ≤ share_of t s (s + b))
      × (share_of t s (s + b) + (t - share_of t s (s + b)) ≤ t + 1)
      × (t - share_of t s (s + b) ≤ b)
unfolding share_of
share_of_lem t b s below some_size small =
    let q = t * s / (s + b) in
    let fits : t * s < 2 ^ 63 = omega (arith, small, mul-add t s b) in
    let no_wrap : t * s % 2 ^ 64 ≡ t * s = omega (arith, fits) in
    let sign : leb (2 ^ 63) (t * s) ≡ false = not_negative (t * s) fits in
    let total : ltb 0 (s + b) ≡ true = ground arith in
    let facts = quotient_lem t b s below (omega arith) in
    rw (no_wrap, sign, total) (clamp_lem q s t b facts.0 facts.1 facts.2 some_size)

-- A file that is cut without an error has at most the bytes that it may have.
abbrev CutTo : ℕ → Bool × Log → Type 0
CutTo max r = (r.0 ≡ true) × (size_of r.1.content ≤ max)

copied_tail :
    (max : ℕ) (v : Bytes) (active : Active)
    → CutTo max (release fine (record { content = some v; active = active }) (tail_from fine max v))
copied_tail max v absent = (refl, (tail_lines_lem max v).0)
copied_tail max v closed = (refl, (tail_lines_lem max v).0)
copied_tail max v opened = (refl, (tail_lines_lem max v).0)
copied_tail max v broken = (refl, (tail_lines_lem max v).0)

compact_jsonl_tail-CutTo :
    (max : ℕ) (content : Option Bytes) (active : Active)
    → 1 ≤ max
    → CutTo max (compact_jsonl_tail fine max (record { content = content; active = active }))
unfolding compact_jsonl_tail
compact_jsonl_tail-CutTo max none active some_room = (refl, omega arith)
compact_jsonl_tail-CutTo max (some v) active some_room =
    if_rule (CutTo max) (leb (length v) max || (max == 0))
      (true, record { content = some v; active = active })
      (release fine (record { content = some v; active = active }) (tail_from fine max v))
      (λ fits. (refl, ground arith)) (λ _. copied_tail max v active)

abbrev pub all_fine : List Log → List (Io × Log)
all_fine [] = []
all_fine (f ∷ files) = (fine, f) ∷ all_fine files

sub_le : (m n : ℕ) → m - n ≤ m
sub_le m n = omega arith

le_sum : (s b : ℕ) → b ≤ s + b
le_sum s b = omega arith

-- Every file is cut without an error, and the sizes that are left add up to the target and one byte for
-- each file at most.
abbrev pub Reduced : ℕ → ℕ → Bool × List Log → Type 0
Reduced target count r = (r.0 ≡ true) × (total_size r.1 ≤ target + count)

cut_files_lem :
    (t : ℕ) (files : List Log)
    → t ≤ total_size files
    → t * total_size files < 2 ^ 63
    → Reduced t (length files) (cut_files t (total_size files) (all_fine files))
unfolding cut_files
cut_files_lem t [] below small = (refl, omega arith)
cut_files_lem t (f ∷ files) below small = elim (Bool-cases (size_of f.content == 0)) [
  | inl empty ↦
      let none_here : size_of f.content + total_size files ≡ total_size files = ground arith in
      let ih = cut_files_lem t files (omega (arith, none_here)) (rw none_here at small) in
      rw (empty, none_here) (ih.0, ground (arith, ih.1))
  | inr some_bytes ↦
      let s = size_of f.content in
      let b = total_size files in
      let facts = share_of_lem t b s below (ground arith) small in
      let share = share_of t s (s + b) in
      let cut = compact_jsonl_tail-CutTo share f.content f.active facts.0 in
      let others : s + b - s ≡ b = omega arith in
      let less : (t - share) * b < 2 ^ 63 =
        omega (arith, small, mul-le-mul (sub_le t share) (le_sum s b)) in
      let ih = cut_files_lem (t - share) files facts.2 less in
      rw (some_bytes, cut.0, others) (ih.0, omega (arith, ih.1, cut.1, facts.1))
]

-- The budget is kept: if no call of the file system fails, there is no error, and afterwards the logs
-- have together at most the bytes of the target and one more for each file. The product of the target
-- and the size of all before is below 2 ^ 63.
pub compact_jsonl_storage_budget_lem :
    (target : ℕ) (files : List Log)
    → 1 ≤ target
    → target * total_size files < 2 ^ 63
    → Reduced target (length files) (compact_jsonl_storage_budget target (all_fine files))
unfolding compact_jsonl_storage_budget
compact_jsonl_storage_budget_lem target files some_target small = rw (logs-all_fine files) (
    if_rule (Reduced target (length files)) ((target == 0) || leb (total_size files) target) _ _
      (λ within. (refl, ground arith)) (λ over. cut_files_lem target files (ground arith) small))
  where
    logs-all_fine : (files : List Log) → logs (all_fine files) ≡ files
    logs-all_fine [] = refl
    logs-all_fine (f ∷ files) = ap (λ t. f ∷ t) (logs-all_fine files)
