-- ===== src/Editor/Examples.antt =====
-- Tests of the buffer, and its theorems at concrete texts and keys.
use zent_loop.Common.{
  List, [], ◌∷◌, some, join, trim_space, trim_left, trim_right, is_space, encode, bytes_eq, insert,
  lookup, has_prefix, codes, ◌≡◌, refl, ◌⊎◌, bytes_beq,
}
use zent_loop.Editor.{
  clamp, delete_line, delete_rune, TextBuffer, new_text_buffer, insert_rune, newline, restore_undo,
  content,
}
use zent_loop.Editor.Keys.{Key, byte, seq, vim_key}
use zent_loop.Editor.Cursor.{IsValid}
use zent_loop.Editor.Reach.{new_text_buffer-IsValid}
use zent_loop.Editor.Session.{vim_session-IsValid}
use zent_loop.Editor.Commands.{Session, start_vim, run_virtual_vim}
use zent_loop.Files.{World, set_virtual_file, virtual_storage_bytes, limit_to}
use zent_loop.Editor.Undo.{cut, apply, restore_undo-apply}

abbrev two_lines : TextBuffer
two_lines = new_text_buffer (codes "ab\ncd\n")

-- `x` at the end of a line, `dd`, `u`, `o`, typing and Escape, and a search
abbrev keys : List Key
keys =
    byte b'$'
    ∷ byte b'x'
    ∷ byte b'd'
    ∷ byte b'd'
    ∷ byte b'u'
    ∷ byte b'o'
    ∷ byte b'z'
    ∷ seq []
    ∷ byte b'/'
    ∷ byte b'd'
    ∷ byte b'\r'
    ∷ []

-- `:%d` and `:w`
abbrev commands : List Key
commands = byte b':' ∷ byte b'%' ∷ byte b'd' ∷ byte b'\r' ∷ byte b':' ∷ byte b'w' ∷ byte b'\r' ∷ []

abbrev machine : World
machine = record {
  cwd = codes "/root";
  home_dir = codes "/root";
  files = [];
  dirs = [];
  file_meta = [];
  file_modes = [];
  file_attrs = [];
}

abbrev session : List Key → Session
session ks = run_virtual_vim (λ v w. w) 5 ks (start_vim (codes "ab\ncd\n") (codes "/tmp/a") machine)

typed_line : (session keys).vim.buffer.lines ≡ codes "ab" ∷ codes "z" ∷ codes "cd" ∷ []
unfolding run_virtual_vim new_text_buffer bytes_beq vim_key insert_rune clamp newline restore_undo
    delete_line delete_rune has_prefix
typed_line = refl

-- The search stands on the `d` of the last line.
searched : ((session keys).vim.buffer.row ≡ 2) × ((session keys).vim.buffer.col ≡ 1)
unfolding run_virtual_vim new_text_buffer bytes_beq vim_key insert_rune clamp newline restore_undo
    delete_line delete_rune has_prefix
searched = (refl, refl)

cleared_and_written : lookup (codes "/tmp/a") (session commands).world.files ≡ some (codes "\n")
unfolding run_virtual_vim new_text_buffer bytes_beq vim_key clamp lookup set_virtual_file encode
    has_prefix trim_space trim_left trim_right is_space content join virtual_storage_bytes limit_to
    insert
cleared_and_written = refl

vim_session-IsValid_example :
    IsValid
      (run_virtual_vim
        (λ v w. w)
        5
        keys
        (start_vim (codes "ab\ncd\n") (codes "/tmp/a") machine)).vim.buffer
vim_session-IsValid_example =
    vim_session-IsValid (λ v w. w) 5 (codes "ab\ncd\n") (codes "/tmp/a") machine keys

restore_undo-apply_example :
    (apply cut two_lines ≡ two_lines)
    ⊎ ((restore_undo (apply cut two_lines)).lines ≡ two_lines.lines)
restore_undo-apply_example =
    restore_undo-apply cut two_lines (new_text_buffer-IsValid (codes "ab\ncd\n"))
