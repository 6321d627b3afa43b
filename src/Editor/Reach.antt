-- ===== src/Editor/Reach.antt =====
-- One key of vim, and all keys of nano, leave the cursor inside the text.
use zent_loop.Common.{
  if◌then◌else◌, if_rule, ℕ, ◌<◌, List, [], ◌∷◌, ◌++◌, Bytes, arith, length, nat_eq,
}
use zent_loop.Editor.Slices.{length-insert_at}
use zent_loop.Editor.{
  TextBuffer, current, new_text_buffer, split_lines, drop_empty_last, replace_cr, replace_crlf,
  newline, backspace,
}
use zent_loop.Editor.Keys.{
  is_enter, is_erase, Key, byte, seq, wide, Vim, insert_byte, insert_key, normal_key, vim_key,
  nano_key, nano_keys, type_byte, open_above,
}
use zent_loop.Editor.Cursor.{
  IsValid, clamp-IsValid, insert_rune-IsValid, newline-IsValid, backspace-IsValid,
}

drop_empty_last_pos : (ls : List Bytes) → 0 < length ls → 0 < length (drop_empty_last ls)
unfolding drop_empty_last
drop_empty_last_pos [] h = absurd (omega arith)
drop_empty_last_pos (l ∷ []) h = omega arith
drop_empty_last_pos (l ∷ m ∷ []) h = ground arith
drop_empty_last_pos (l ∷ m ∷ n ∷ ls) h = omega arith

split_lines_pos : (b v : Bytes) → 0 < length (split_lines b v)
unfolding split_lines
split_lines_pos b [] = omega arith
split_lines_pos b (c ∷ v) = ground (arith, split_lines_pos (b ++ c ∷ []) v)

pub new_text_buffer-IsValid : (content : Bytes) → IsValid (new_text_buffer content)
unfolding new_text_buffer
new_text_buffer-IsValid content = record {
  row_in =
      drop_empty_last_pos (split_lines [] (replace_cr (replace_crlf content)))
        (split_lines_pos [] (replace_cr (replace_crlf content)));
  col_in = omega arith;
}

type_byte-IsValid : (k : ℕ) (b : TextBuffer) → IsValid b → IsValid (type_byte k b)
unfolding type_byte
type_byte-IsValid k b v = ground (arith, insert_rune-IsValid k b v)

insert_byte-IsValid : (k : ℕ) (b : TextBuffer) → IsValid b → IsValid (insert_byte k b)
unfolding insert_byte
insert_byte-IsValid k b v =
    if_rule IsValid (is_enter k) (newline b) (if is_erase k then backspace b else type_byte k b)
      (λ _. newline-IsValid b v)
      λ _.
        if_rule IsValid (is_erase k) (backspace b) (type_byte k b) (λ _. backspace-IsValid b v)
          (λ _. type_byte-IsValid k b v)

line_end-IsValid : (b : TextBuffer) → IsValid b → IsValid (record b { col = length (current b) })
line_end-IsValid b v = record { row_in = v.row_in; col_in = omega arith }

open_above-IsValid : (b : TextBuffer) → IsValid b → IsValid (open_above b)
unfolding open_above
open_above-IsValid b v = record {
  row_in =
      rw (length-insert_at b.lines b.row [] (omega (arith, v.row_in))) (omega (arith, v.row_in));
  col_in = omega arith;
}

insert_key-IsValid : (k : Key) (v : Vim) → IsValid v.buffer → IsValid (insert_key k v).buffer
unfolding insert_key
insert_key-IsValid (byte k) v h = insert_byte-IsValid k v.buffer h
insert_key-IsValid (seq []) v h = h
insert_key-IsValid (seq (c ∷ s)) v h = clamp-IsValid _
insert_key-IsValid (wide r) v h = insert_rune-IsValid r v.buffer h

normal_key-IsValid : (k : Key) (v : Vim) → IsValid (normal_key k v).buffer
unfolding normal_key
normal_key-IsValid (byte k) v = clamp-IsValid _
normal_key-IsValid (seq s) v = clamp-IsValid _
normal_key-IsValid (wide r) v = clamp-IsValid _

pub vim_key-IsValid : (k : Key) (v : Vim) → IsValid v.buffer → IsValid (vim_key k v).buffer
unfolding vim_key
vim_key-IsValid k v h =
    if_rule (λ (w : Vim). IsValid w.buffer) v.inserting _ _ (λ _. insert_key-IsValid k v h)
      (λ _. normal_key-IsValid k v)

nano_key-IsValid : (k : Key) (b : TextBuffer) → IsValid (nano_key k b)
unfolding nano_key
nano_key-IsValid (byte k) b = clamp-IsValid _
nano_key-IsValid (seq s) b = clamp-IsValid _
nano_key-IsValid (wide r) b = clamp-IsValid _

nano_keys-IsValid : (ks : List Key) (b : TextBuffer) → IsValid b → IsValid (nano_keys ks b)
unfolding nano_keys
nano_keys-IsValid [] b h = h
nano_keys-IsValid (k ∷ ks) b h = nano_keys-IsValid ks (nano_key k b) (nano_key-IsValid k b)

-- Whatever file is opened and whatever keys follow, the nano cursor stands on a line of the buffer and
-- at most one place behind the line's last rune.
pub nano_session-IsValid :
    (file : Bytes) (ks : List Key) → IsValid (nano_keys ks (new_text_buffer file))
nano_session-IsValid file ks = nano_keys-IsValid ks _ (new_text_buffer-IsValid file)
