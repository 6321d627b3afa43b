-- ===== src/Editor/Undo.antt =====
-- What takes an edit back: Backspace after typing, and vim's `u`.
use zent_loop.Common.{
  ℕ, ◌+◌, ◌-◌, ◌≤◌, ◌<◌, List, [], ◌∷◌, ◌++◌, Bytes, some, ◌≡◌, refl, ◌∙◌, arith, length, take,
  drop, get_or, set, set-set, set-get_or, get_or-set_self, length-set, length-take,
  take-append-drop, ◌⊎◌, inl, inr, bytes_eq, lt→ltb,
}
use zent_loop.Editor.Slices.{
  insert_at, delete_at, delete_at-insert_at, get_or-insert_at_of_lt, get_or-insert_at_self,
  set-insert_at_of_lt,
}
use zent_loop.Editor.{
  TextBuffer, current, some_line, restore_undo, insert_rune, newline, backspace, delete_rune,
  delete_line, paste_line,
}
use zent_loop.Editor.Cursor.{IsValid}

-- Text and cursor are the same.
abbrev pub SameText : TextBuffer → TextBuffer → Type 0
SameText a b = (a.lines ≡ b.lines) × (a.row ≡ b.row) × (a.col ≡ b.col)

retyped_line :
    (ls : List Bytes) (row col : ℕ) (r : ℕ)
    → row < length ls
    → col ≤ length (get_or ls row [])
    → (let typed = set ls row (insert_at (get_or ls row []) col r) in
        set typed row (delete_at (get_or typed row []) col))
      ≡ ls
retyped_line ls row col r h k =
    rw (get_or-set_self ls row (insert_at (get_or ls row []) col r) [] h) (
      rw (delete_at-insert_at (get_or ls row []) col r k)
        (set-set ls row _ _ ∙ set-get_or ls row []))

add_sub_one : (n : ℕ) → n + 1 - 1 ≡ n
add_sub_one n = omega arith

-- Backspace takes back the rune that was typed last: the text and the cursor are as before.
pub backspace-insert_rune :
    (r : ℕ) (b : TextBuffer) → IsValid b → SameText (backspace (insert_rune r b)) b
unfolding backspace insert_rune
backspace-insert_rune r b v =
    rw (lt→ltb 0 (b.col + 1) (omega arith), add_sub_one b.col)
      ((retyped_line b.lines b.row b.col r v.row_in v.col_in, refl, refl))

module _ (ls : List Bytes) (row : ℕ) (left right : Bytes) (row_in : row < length ls) where
  -- The lines after a line break.
  abbrev broken : List Bytes
  broken = insert_at (set ls row left) (row + 1) right

  broken_fits : row + 1 ≤ length (set ls row left)
  broken_fits = rw length-set (omega (arith, row_in))

  broken_left : get_or broken row [] ≡ left
  broken_left =
      get_or-insert_at_of_lt (set ls row left) (row + 1) row right [] (omega arith) broken_fits
      ∙ get_or-set_self ls row left [] row_in

  broken_right : get_or broken (row + 1) [] ≡ right
  broken_right = get_or-insert_at_self (set ls row left) (row + 1) right [] broken_fits

  rejoined :
      (whole : Bytes) → whole ≡ get_or ls row [] → delete_at (set broken row whole) (row + 1) ≡ ls
  rejoined whole e =
      rw (set-insert_at_of_lt (set ls row left) (row + 1) row right whole (omega arith) broken_fits)
        (delete_at-insert_at _ (row + 1) right (rw (length-set, length-set) (omega (arith, row_in)))
          ∙ set-set ls row left whole
          ∙ rw e (set-get_or ls row []))

-- Backspace takes back a line break: the text and the cursor are as before.
pub backspace-newline : (b : TextBuffer) → IsValid b → SameText (backspace (newline b)) b
unfolding backspace newline
backspace-newline b v =
    let left = take b.col (current b) in
    let right = drop b.col (current b) in
    rw (lt→ltb 0 (b.row + 1) (omega arith), add_sub_one b.row)
      (rw
        (
          broken_left b.lines b.row left right v.row_in,
          broken_right b.lines b.row left right v.row_in,
        )
        ((
          rejoined b.lines b.row left right v.row_in (left ++ right)
              (take-append-drop b.col (current b)),
          refl,
          omega (arith, length-take b.col (current b), v.col_in),
        )))

-- The methods that change the text.
pub data Edit : Type 0 where
  typed : ℕ → Edit
  break_line erase delete cut paste : Edit

abbrev pub apply : Edit → TextBuffer → TextBuffer
apply (typed r) = insert_rune r
apply break_line = newline
apply erase = backspace
apply delete = delete_rune
apply cut = delete_line
apply paste = paste_line

some_line_lem : (ls : List Bytes) → 0 < length ls → some_line ls ≡ ls
some_line_lem [] h = absurd (omega arith)
some_line_lem (l ∷ ls) h = refl

restored :
    (b : TextBuffer) (old : List Bytes)
    → b.undo ≡ some old
    → 0 < length old
    → (restore_undo b).lines ≡ old
unfolding restore_undo
restored b old e h = rw (e, restore_undo) (some_line_lem old h)

-- Every method either leaves the buffer as it is or takes a snapshot of the lines first.
snapshot_taken : (e : Edit) (b : TextBuffer) → (apply e b ≡ b) ⊎ ((apply e b).undo ≡ some b.lines)
unfolding insert_rune newline backspace delete_rune delete_line paste_line
snapshot_taken (typed r) b = inr refl
snapshot_taken break_line b = inr refl
snapshot_taken erase b = ground arith
snapshot_taken delete b = ground arith
snapshot_taken cut b = inr refl
snapshot_taken paste b = ground arith

-- With the cursor in the text, each method that edits either changes nothing at all, or can be undone:
-- `u` brings back exactly the lines that were there before it.
pub restore_undo-apply :
    (e : Edit) (b : TextBuffer)
    → IsValid b
    → (apply e b ≡ b) ⊎ ((restore_undo (apply e b)).lines ≡ b.lines)
restore_undo-apply e b v = elim (snapshot_taken e b) [
  | inl same ↦ inl same
  | inr taken ↦ inr (restored (apply e b) b.lines taken (omega (arith, v.row_in)))
]
