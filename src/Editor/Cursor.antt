-- ===== src/Editor/Cursor.antt =====
-- The cursor stays inside the text.
use zent_loop.Common.{
  some, false, lt→ltb, Option-cases, ◌==◌, bytes_eq, ℕ, ◌+◌, ◌-◌, ◌≤◌, ◌<◌, List, [], ◌∷◌, ◌++◌,
  Bytes, ◌≡◌, arith, length, get_or, set, take, length-set, length-append, get_or-set_self,
  Bool-cases, inl, inr, ltb, ltb→lt,
}
use zent_loop.Editor.Slices.{delete_at, length-insert_at, length-delete_at, get_or-delete_at_of_lt}
use zent_loop.Editor.{
  some_line, TextBuffer, current, clamp, restore_undo, insert_rune, newline, backspace, delete_rune,
  delete_line, paste_line,
}

pub record IsValid (b : TextBuffer) : Type 0 where
  pub row_in : b.row < length b.lines
  pub col_in : b.col ≤ length (current b)

some_line_pos : (ls : List Bytes) → 0 < length (some_line ls)
some_line_pos [] = omega arith
some_line_pos (l ∷ ls) = omega arith

pub clamp-IsValid : (b : TextBuffer) → IsValid (clamp b)
unfolding clamp
clamp-IsValid b = record { row_in = ground (arith, some_line_pos b.lines); col_in = ground arith }

pub insert_rune-IsValid : (r : ℕ) (b : TextBuffer) → IsValid b → IsValid (insert_rune r b)
unfolding insert_rune
insert_rune-IsValid r b v = record {
  row_in = rw length-set v.row_in;
  col_in =
      rw
        (get_or-set_self b.lines b.row _ [] v.row_in, length-insert_at (current b) b.col r v.col_in)
        (omega (arith, v.col_in));
}

pub newline-IsValid : (b : TextBuffer) → IsValid b → IsValid (newline b)
unfolding newline
newline-IsValid b v =
    let left = take b.col (current b) in
    record {
      row_in =
          rw
            (length-insert_at (set b.lines b.row left) (b.row + 1) _
              (rw length-set (omega (arith, v.row_in))))
            (rw length-set (omega (arith, v.row_in)));
      col_in = omega arith;
    }

-- The two cases of `backspace` that change the text.
backspace_in_line : (b : TextBuffer) → IsValid b → 0 < b.col → IsValid (backspace b)
unfolding backspace
backspace_in_line b v h = rw (lt→ltb 0 b.col h) (record {
  row_in = rw length-set v.row_in;
  col_in =
      rw (get_or-set_self b.lines b.row _ [] v.row_in) (
        omega
          (arith, v.col_in, length-delete_at (current b) (b.col - 1) (omega (arith, v.col_in))));
})

joined_IsValid :
    (ls : List Bytes) (row : ℕ) (prev cur : Bytes)
    → 0 < row
    → row < length ls
    → (row - 1 < length (delete_at (set ls (row - 1) (prev ++ cur)) row))
      × (length prev
          ≤ length (get_or (delete_at (set ls (row - 1) (prev ++ cur)) row) (row - 1) []))
joined_IsValid ls row prev cur h k =
    let short = length-delete_at (set ls (row - 1) (prev ++ cur)) row (rw length-set k) in
    (
      omega (arith, short, length-set ls (row - 1) (prev ++ cur)),
      rw
          (
            get_or-delete_at_of_lt (set ls (row - 1) (prev ++ cur)) row (row - 1) [] (omega arith),
            get_or-set_self ls (row - 1) (prev ++ cur) [] (omega arith),
            length-append prev cur,
          )
          (omega arith),
    )

backspace_at_start : (b : TextBuffer) → IsValid b → ltb 0 b.col ≡ false → IsValid (backspace b)
unfolding backspace
backspace_at_start b v e = elim (Bool-cases (ltb 0 b.row)) [
  | inl h ↦
      let joined =
        joined_IsValid b.lines b.row (get_or b.lines (b.row - 1) []) (current b) (ltb→lt 0 b.row h)
          v.row_in in
      rw (e, h) (record { row_in = joined.0; col_in = joined.1 })
  | inr h ↦ rw (e, h) v
]

pub backspace-IsValid : (b : TextBuffer) → IsValid b → IsValid (backspace b)
backspace-IsValid b v = elim (Bool-cases (ltb 0 b.col)) [
  | inl h ↦ backspace_in_line b v (ltb→lt 0 b.col h)
  | inr h ↦ backspace_at_start b v h
]

pub delete_rune-IsValid : (b : TextBuffer) → IsValid b → IsValid (delete_rune b)
unfolding delete_rune
delete_rune-IsValid b v = elim (Bool-cases (ltb b.col (length (current b)))) [
  | inl h ↦ rw h (record {
    row_in = rw length-set v.row_in;
    col_in =
        rw (get_or-set_self b.lines b.row _ [] v.row_in)
          (omega (arith, length-delete_at (current b) b.col (ltb→lt _ _ h), ltb→lt _ _ h));
  })
  | inr h ↦ rw h v
]

pub delete_line-IsValid : (b : TextBuffer) → IsValid (delete_line b)
unfolding delete_line
delete_line-IsValid b = clamp-IsValid _

pub paste_line-IsValid : (b : TextBuffer) → IsValid b → IsValid (paste_line b)
unfolding paste_line
paste_line-IsValid b v = elim (Bool-cases (b.yank == [])) [
  | inl h ↦ rw h v
  | inr h ↦ rw h (record {
    row_in =
        rw (length-insert_at b.lines (b.row + 1) b.yank (omega (arith, v.row_in)))
          (omega (arith, v.row_in));
    col_in = omega arith;
  })
]

pub restore_undo-IsValid : (b : TextBuffer) → IsValid b → IsValid (restore_undo b)
unfolding restore_undo
restore_undo-IsValid b v = elim (Option-cases b.undo) [
  | inl e ↦ rw (e, restore_undo) v
  | inr (old, e) ↦
      let c = clamp-IsValid (record b { lines = old; undo = some b.lines }) in
      rw (e, restore_undo) (record { row_in = c.row_in; col_in = c.col_in })
]
