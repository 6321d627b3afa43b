-- ===== src/Editor/Keys.antt =====
-- The keys of the simulated editors, `runVirtualVim` and `runVirtualNano` of
-- internal/server/trap_ssh_editor.go, as far as they edit the buffer. Of vim, the commands that `:` and
-- `/` begin are in Editor.Commands; of nano, the keys that quit, write the file or read an answer (Ctrl+X,
-- Ctrl+O, Ctrl+W) are left out.
use zent_loop.Common.{
  ℕ, ◌+◌, ◌-◌, List, [], ◌∷◌, Bool, true, false, ◌&&◌, ◌||◌, Bytes, codes, ◌==◌, nat_eq, bytes_eq,
  leb, ltb, length, if◌then◌else◌,
}
use zent_loop.Editor.Slices.{insert_at}
use zent_loop.Editor.{
  TextBuffer, current, snapshot, clamp, restore_undo, insert_rune, newline, backspace, delete_rune,
  delete_line, paste_line,
}

-- One key: a byte, the rest of an escape sequence, or a rune above 0x7f.
pub data Key : Type 0 where
  byte : ℕ → Key
  seq : Bytes → Key
  wide : ℕ → Key

-- `switch seq`, before the clamp.
unfoldable pub move : Bytes → TextBuffer → TextBuffer
move s b =
    if s == codes "[A"
    then record b { row = b.row - 1 }
    else if s == codes "[B"
    then record b { row = b.row + 1 }
    else if s == codes "[C"
    then record b { col = b.col + 1 }
    else if s == codes "[D"
    then record b { col = b.col - 1 }
    else if (s == codes "[H") || (s == codes "[1~") || (s == codes "[7~") || (s == codes "OH")
    then record b { col = 0 }
    else if (s == codes "[F") || (s == codes "[4~") || (s == codes "[8~") || (s == codes "OF")
    then record b { col = length (current b) }
    else if s == codes "[3~"
    then delete_rune b
    else b

abbrev pub is_printable : ℕ → Bool
is_printable k = leb 32 k && ltb k 127

-- A byte above 0x7f begins a rune, which arrives as `wide`.
unfoldable pub type_byte : ℕ → TextBuffer → TextBuffer
type_byte k b = if is_printable k then insert_rune k b else b

abbrev pub is_erase : ℕ → Bool
is_erase k = k == 8 || k == 127

abbrev pub is_enter : ℕ → Bool
is_enter k = k == b'\r' || k == b'\n'

unfoldable pub nano_byte : ℕ → TextBuffer → TextBuffer
unfolding type_byte
nano_byte k b =
    if k == 11
    then delete_line (record b { yank = current b })
    else if k == 21
    then paste_line b
    else if is_erase k
    then backspace b
    else if is_enter k
    then newline b
    else type_byte k b

unfoldable pub nano_key : Key → TextBuffer → TextBuffer
unfolding nano_byte move
nano_key (byte k) b = clamp (nano_byte k b)
nano_key (seq s) b = clamp (move s b)
nano_key (wide r) b = clamp (insert_rune r b)

-- The variables of `runVirtualVim` that the keys change.
pub record Vim : Type 0 where
  pub buffer : TextBuffer
  pub inserting : Bool
  pub pending : ℕ

abbrev edit : Vim → TextBuffer → Vim
edit v b = record v { buffer = b }

unfoldable pub insert_byte : ℕ → TextBuffer → TextBuffer
unfolding type_byte
insert_byte k b =
    if is_enter k then newline b else if is_erase k then backspace b else type_byte k b

-- Insert mode; the empty sequence is the Escape key alone.
unfoldable pub insert_key : Key → Vim → Vim
unfolding insert_byte move
insert_key (byte k) v = edit v (insert_byte k v.buffer)
insert_key (seq []) v = record v { inserting = false; pending = 0 }
insert_key (seq (c ∷ s)) v = edit v (clamp (move (c ∷ s) v.buffer))
insert_key (wide r) v = edit v (insert_rune r v.buffer)

-- `case 'O'`: an empty line above.
unfoldable pub open_above : TextBuffer → TextBuffer
unfolding snapshot insert_at
open_above b = record (snapshot b) { lines = insert_at b.lines b.row []; col = 0; modified = true }

abbrev line_end : TextBuffer → TextBuffer
line_end b = record b { col = length (current b) }

-- The keys of normal mode that need a second stroke: d, y and g.
unfoldable pub double_key : ℕ → Vim → Vim
double_key k v =
    if k == b'd'
    then (if v.pending == b'd'
        then record v { buffer = delete_line v.buffer; pending = 0 }
        else record v { pending = b'd' })
    else if k == b'y'
    then (if v.pending == b'y'
        then record v { buffer = record (v.buffer) { yank = current v.buffer }; pending = 0 }
        else record v { pending = b'y' })
    else if k == b'g'
    then (if v.pending == b'g'
        then record v { buffer = record (v.buffer) { row = 0; col = 0 }; pending = 0 }
        else record v { pending = b'g' })
    else record v { pending = 0 }

unfoldable pub normal_byte : ℕ → Vim → Vim
unfolding double_key open_above
normal_byte k v =
    let b = v.buffer in
    if k == b'i'
    then record v { inserting = true }
    else if k == b'a'
    then record v {
      buffer = if ltb b.col (length (current b)) then record b { col = b.col + 1 } else b;
      inserting = true;
    }
    else if k == b'o'
    then record v { buffer = newline (line_end b); inserting = true }
    else if k == b'O'
    then record v { buffer = open_above b; inserting = true }
    else if k == b'h'
    then edit v (record b { col = b.col - 1 })
    else if k == b'j'
    then edit v (record b { row = b.row + 1 })
    else if k == b'k'
    then edit v (record b { row = b.row - 1 })
    else if k == b'l'
    then edit v (record b { col = b.col + 1 })
    else if k == b'0'
    then edit v (record b { col = 0 })
    else if k == b'$'
    then edit v (line_end b)
    else if k == b'x'
    then edit v (delete_rune b)
    else if k == b'u'
    then edit v (restore_undo b)
    else if k == b'p'
    then edit v (paste_line b)
    else if k == b'G'
    then edit v (record b { row = length b.lines - 1; col = 0 })
    else if k == b':' || k == b'/'
    then v
    else double_key k v

unfoldable pub normal_key : Key → Vim → Vim
unfolding normal_byte move
normal_key (byte k) v = let w = normal_byte k v in record w { buffer = clamp w.buffer }
normal_key (seq s) v = edit v (clamp (move s v.buffer))
normal_key (wide r) v = record v { buffer = clamp v.buffer; pending = 0 }

unfoldable pub vim_key : Key → Vim → Vim
unfolding insert_key normal_key
vim_key k v = if v.inserting then insert_key k v else normal_key k v

unfoldable pub nano_keys : List Key → TextBuffer → TextBuffer
nano_keys [] b = b
nano_keys (k ∷ ks) b = nano_keys ks (nano_key k b)
