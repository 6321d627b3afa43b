-- ===== src/Sftp/Panics.antt =====
-- A write panics only at an offset of 2 ^ 63 or more, where `int(offset)` is negative.
use zent_loop.Common.{
  ℕ, zero, suc, ◌+◌, ◌-◌, ◌≤◌, ◌<◌, ◌^◌, true, Bytes, nat_eq, none, some, ltb, ◌==◌, if◌then◌else◌,
  length, take, ◌≡◌, refl, arith, inl, inr, Bool-cases, length-append,
}
use zent_loop.Files.{max_virtual_file_bytes}
use zent_loop.Sftp.{Handle, is_negative, signed_lt, add64, sub64}
use zent_loop.Sftp.Handles.{patch, zeros, grow, put_in, write_handle, overwrite}

pub length-zeros : (n : ℕ) → length (zeros n) ≡ n
unfolding zeros
length-zeros zero = refl
length-zeros (suc n) = omega (arith, length-zeros n)

pub length-grow :
    (v : Bytes) (need : ℕ) → need ≤ max_virtual_file_bytes → need ≤ length (grow v need)
unfolding grow
length-grow v need h = elim (Bool-cases (signed_lt (length v) need)) [
  | inl short ↦
      rw short
        (omega (arith, length-append v (zeros (need - length v)), length-zeros (need - length v)))
  | inr long ↦ rw long (ground arith)
]

abbrev pub min_of : ℕ → ℕ → ℕ
min_of a b = if ltb b a then b else a

abbrev pub written_over : Bytes → ℕ → ℕ → Bytes → Bytes
written_over v offset n text = if n == 0 then v else overwrite v offset (take n text)

put_in_near :
    (v : Bytes) (offset n : ℕ) (text : Bytes)
    → n ≤ max_virtual_file_bytes
    → offset ≤ max_virtual_file_bytes
    → offset + n ≤ length v
    → put_in v offset n text ≡ some (written_over v offset n text)
unfolding put_in
put_in_near v offset n text few near long = ground arith

-- The kept part after a write below the limit: there is no panic.
abbrev pub patched : Bytes → ℕ → Bytes → Bytes
patched v offset text =
    let need = min_of (offset + length text) max_virtual_file_bytes in
    written_over (grow v need) offset (min_of (length text) (max_virtual_file_bytes - offset)) text

pub patch_near :
    (v : Bytes) (offset : ℕ) (text : Bytes)
    → offset < max_virtual_file_bytes
    → length text ≤ 2 ^ 20
    → patch v offset text ≡ some (patched v offset text)
unfolding patch
patch_near v offset text near short =
    let m = max_virtual_file_bytes in
    let sum : add64 offset (length text) ≡ offset + length text = omega arith in
    let rest : sub64 m offset ≡ m - offset = omega arith in
    let same : signed_lt m (offset + length text) ≡ ltb m (offset + length text) = ground arith in
    elim (Bool-cases (ltb m (offset + length text))) [
      | inl over ↦
          let less : min_of (length text) (m - offset) ≡ m - offset = ground arith in
          rw (sum, same, over, rest, less)
            (put_in_near (grow v m) offset (m - offset) text (omega arith) (omega arith)
              (omega (arith, length-grow v m (omega arith))))
      | inr fits ↦
          let less : min_of (length text) (m - offset) ≡ length text = ground arith in
          rw (sum, same, fits, less)
            (put_in_near (grow v (offset + length text)) offset (length text) text (ground arith)
              (omega arith) (length-grow v (offset + length text) (ground arith)))
    ]

-- A panic comes only from an offset of 2 ^ 63 or more.
pub write_handle_far :
    (offset : ℕ) (text : Bytes) (h : Handle)
    → length text ≤ 2 ^ 20
    → write_handle offset text h ≡ none
    → is_negative offset ≡ true
unfolding write_handle
write_handle_far offset text h short none_left = elim (Bool-cases (is_negative offset)) [
  | inl far ↦ far
  | inr near ↦ elim (Bool-cases (signed_lt offset max_virtual_file_bytes)) [
    | inl low ↦
        let kept = patch_near h.content offset text (ground arith) short in
        cc (rw (low, kept) at none_left)
    | inr high ↦ cc (rw high at none_left)
  ]
]
