-- ===== src/Editor.antt =====
-- `virtualTextBuffer` of internal/server/trap_ssh_editor.go: the text buffer of the simulated vim and
-- nano. A line is a list of code points: the conversions between `string` and `[]rune` undo each other on
-- texts in UTF-8, and files that are not UTF-8 are outside of the model. A cursor that moves left of 0 is
-- put back to 0 by the `clamp` that follows each move, so it is a natural number and `-` stops at 0.
pub mod Slices
pub mod Keys
pub mod Commands
pub mod Cursor
pub mod Reach
pub mod Session
pub mod Undo
pub mod File
mod Examples
use Slices.{insert_at, delete_at}
use zent_loop.Common.{
  ℕ, zero, suc, List, [], ◌∷◌, ◌++◌, Bool, true, false, not, ◌&&◌, ◌+◌, ◌-◌, Bytes, Option, none,
  some, ◌==◌, nat_eq, ltb, leb, length, if◌then◌else◌, take, drop, get_or, set, join, bytes_eq,
}

pub record TextBuffer : Type 0 where
  pub lines : List Bytes
  pub row : ℕ
  pub col : ℕ
  pub modified : Bool
  pub yank : Bytes
  pub undo : Option (List Bytes)

-- b.lines[b.row]
abbrev pub current : TextBuffer → Bytes
current b = get_or b.lines b.row []

-- strings.ReplaceAll(content, "\r\n", "\n")
unfoldable pub replace_crlf : Bytes → Bytes
replace_crlf [] = []
replace_crlf (c ∷ []) = c ∷ []
replace_crlf (c ∷ d ∷ v) =
    let both = b'\n' ∷ replace_crlf v in
    let one = c ∷ replace_crlf (d ∷ v) in if (c == b'\r') && (d == b'\n') then both else one

-- strings.ReplaceAll(content, "\r", "\n")
unfoldable pub replace_cr : Bytes → Bytes
replace_cr [] = []
replace_cr (c ∷ v) = (if c == b'\r' then b'\n' else c) ∷ replace_cr v

-- strings.Split(content, "\n"): `b` is the line so far.
unfoldable pub split_lines : Bytes → Bytes → List Bytes
split_lines b [] = b ∷ []
split_lines b (c ∷ v) =
    let cut = b ∷ split_lines [] v in
    let more = split_lines (b ++ c ∷ []) v in if c == b'\n' then cut else more

-- `lines[:len(lines)-1]` where the last of several lines is empty
unfoldable pub drop_empty_last : List Bytes → List Bytes
drop_empty_last [] = []
drop_empty_last (l ∷ []) = l ∷ []
drop_empty_last (l ∷ m ∷ ls) =
    let rest = drop_empty_last (m ∷ ls) in
    elim ls [ [] ↦ (if m == [] then l ∷ [] else l ∷ m ∷ []) | n ∷ ns ↦ l ∷ rest ]

unfoldable pub new_text_buffer : Bytes → TextBuffer
unfolding replace_crlf replace_cr split_lines drop_empty_last
new_text_buffer content = record {
  lines = drop_empty_last (split_lines [] (replace_cr (replace_crlf content)));
  row = 0;
  col = 0;
  modified = false;
  yank = [];
  undo = none;
}

unfoldable pub snapshot : TextBuffer → TextBuffer
snapshot b = record b { undo = some b.lines }

abbrev clamp_at_least : ℕ → ℕ → ℕ
clamp_at_least x limit = if ltb limit x then limit else x

-- An empty list of lines becomes one empty line.
abbrev some_line : List Bytes → List Bytes
some_line [] = [] ∷ []
some_line (l ∷ ls) = l ∷ ls

unfoldable pub clamp : TextBuffer → TextBuffer
clamp b =
    let lines = some_line b.lines in
    let row = if leb (length lines) b.row then length lines - 1 else b.row in
    record b { lines = lines; row = row; col = clamp_at_least b.col (length (get_or lines row [])) }

unfoldable pub restore_undo : TextBuffer → TextBuffer
unfolding clamp
restore_undo b = elim b.undo [
  | none ↦ b
  | some old ↦ record (clamp (record b { lines = old; undo = some b.lines })) { modified = true }
]

unfoldable pub insert_rune : ℕ → TextBuffer → TextBuffer
unfolding snapshot insert_at
insert_rune r b = record (snapshot b) {
  lines = set b.lines b.row (insert_at (current b) b.col r);
  col = b.col + 1;
  modified = true;
}

unfoldable pub newline : TextBuffer → TextBuffer
unfolding snapshot insert_at
newline b =
    let left = take b.col (current b) in
    let right = drop b.col (current b) in
    record (snapshot b) {
      lines = insert_at (set b.lines b.row left) (b.row + 1) right;
      row = b.row + 1;
      col = 0;
      modified = true;
    }

unfoldable pub backspace : TextBuffer → TextBuffer
unfolding snapshot delete_at
backspace b =
    if ltb 0 b.col
    then record (snapshot b) {
      lines = set b.lines b.row (delete_at (current b) (b.col - 1));
      col = b.col - 1;
      modified = true;
    }
    else if ltb 0 b.row
    then (let prev = get_or b.lines (b.row - 1) [] in
        record (snapshot b) {
          lines = delete_at (set b.lines (b.row - 1) (prev ++ current b)) b.row;
          row = b.row - 1;
          col = length prev;
          modified = true;
        })
    else b

unfoldable pub delete_rune : TextBuffer → TextBuffer
unfolding snapshot delete_at
delete_rune b =
    if ltb b.col (length (current b))
    then record (snapshot b) {
      lines = set b.lines b.row (delete_at (current b) b.col);
      modified = true;
    }
    else b

unfoldable pub delete_line : TextBuffer → TextBuffer
unfolding snapshot delete_at clamp
delete_line b = clamp (record (snapshot b) {
  yank = current b;
  lines = if length b.lines == 1 then set b.lines 0 [] else delete_at b.lines b.row;
  col = 0;
  modified = true;
})

unfoldable pub paste_line : TextBuffer → TextBuffer
unfolding snapshot insert_at
paste_line b = if b.yank == [] then b else record (snapshot b) {
  lines = insert_at b.lines (b.row + 1) b.yank;
  row = b.row + 1;
  col = 0;
  modified = true;
}

unfoldable pub content : TextBuffer → Bytes
unfolding join
content b = join b.lines (b'\n' ∷ []) ++ b'\n' ∷ []
