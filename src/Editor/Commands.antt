-- ===== src/Editor/Commands.antt =====
-- `runVirtualVim` of internal/server/trap_ssh_editor.go as a whole: the keys of Editor.Keys, the command
-- line (`readVirtualEditorCommand`) with its commands, the search, and the write to the files of the
-- machine. What a shell command (`:!`) does to the machine is a parameter; the screen is left out.
use zent_loop.Common.{
  ℕ, suc, ◌+◌, List, [], ◌∷◌, ◌++◌, Bool, true, false, not, ◌&&◌, ◌||◌, Bytes, Option, none, some,
  codes, ◌==◌, nat_eq, bytes_eq, length, ◌-◌, if◌then◌else◌, take, drop, has_prefix, trim_space,
  encode,
}
use zent_loop.Files.{World, resolve, set_virtual_file}
use zent_loop.Editor.{TextBuffer, new_text_buffer, snapshot, clamp, content}
use zent_loop.Editor.Keys.{Key, byte, seq, wide, Vim, vim_key, is_printable, is_erase, is_enter}

-- The variables of the loop. A command that is being typed is its prefix (`:` or `/`) and what was typed;
-- after a shell command one byte is awaited.
pub record Session : Type 0 where
  pub vim : Vim
  pub world : World
  pub name : Bytes
  pub typed : Option (ℕ × Bytes)
  pub awaiting : Bool
  pub ended : Bool

-- The beginning of `runVirtualVim`, for a file of which the code points are given.
abbrev pub start_vim : List ℕ → Bytes → World → Session
start_vim text name w = record {
  vim = record { buffer = new_text_buffer text; inserting = false; pending = 0 };
  world = w;
  name = name;
  typed = none;
  awaiting = false;
  ended = false;
}

abbrev pub with_buffer : Session → TextBuffer → Session
with_buffer s b = record s { vim = record (s.vim) { buffer = b } }

abbrev pub settled : Session → Session
settled s = with_buffer s (clamp s.vim.buffer)

-- strings.Index on the code points of a line
unfoldable pub index_of : Bytes → Bytes → Option ℕ
index_of query [] = if query == [] then some 0 else none
index_of query (c ∷ line) =
    let later : Option ℕ = elim (index_of query line) [ none ↦ none | some i ↦ some (suc i) ] in
    if has_prefix (c ∷ line) query then some 0 else later

-- The loop of the search, from a row on.
unfoldable pub find_from : Bytes → ℕ → List Bytes → Option (ℕ × ℕ)
unfolding index_of
find_from query row [] = none
find_from query row (line ∷ lines) = elim (index_of query line) [
  | none ↦ find_from query (row + 1) lines
  | some col ↦ some (row, col)
]

-- `case '/'`
unfoldable pub search : Bytes → Session → Session
unfolding find_from
search query s =
    let b = s.vim.buffer in
    let found : Session = elim (find_from query b.row (drop b.row b.lines)) [
      | none ↦ s
      | some (row, col) ↦ with_buffer s (record b { row = row; col = col })
    ] in
    if query == [] then s else found

-- `writeFile`
unfoldable pub write_file : ℕ → Bytes → Session → Bool × Session
write_file now dst s =
    let b = s.vim.buffer in
    let (stored, w) = set_virtual_file dst (encode (content b)) now s.world in
    let saved = record (with_buffer s (record b { modified = false })) { name = dst; world = w } in
    if dst == []
    then (false, s)
    else if stored
    then (true, saved)
    else (false, record s { world = w })

abbrev pub quit : Session → Session
quit s = record s { ended = true }

-- `%d`
unfoldable pub clear_buffer : TextBuffer → TextBuffer
unfolding snapshot
clear_buffer b = record (snapshot b) { lines = [] ∷ []; row = 0; col = 0; modified = true }

module _ (execute : Bytes → World → World) (now : ℕ) where
  -- `case ':'`, from the trimmed command on; `set` and what is no command change the screen only.
  unfoldable pub run_command : Bytes → Session → Session
  unfolding write_file clear_buffer
  run_command cmd s =
      let b = s.vim.buffer in
      let (written, after) = write_file now s.name s in
      if cmd == codes "q"
      then (if b.modified then s else quit s)
      else if cmd == codes "q!"
      then quit s
      else if (cmd == codes "w") || (cmd == codes "w!")
      then after
      else if has_prefix cmd (codes "w ")
      then (write_file now (resolve (trim_space (drop 2 cmd)) s.world) s).1
      else if (cmd == codes "wq") || (cmd == codes "wq!") || (cmd == codes "x")
      then (if not b.modified then quit s else if written then quit after else after)
      else if has_prefix cmd (codes "!")
      then record s { world = execute (trim_space (drop 1 cmd)) s.world; awaiting = true }
      else if cmd == codes "%d"
      then with_buffer s (clear_buffer b)
      else s

  -- One byte of `readVirtualEditorCommand`, and what follows the last one.
  unfoldable pub prompt_byte : ℕ → ℕ × Bytes → Session → Session
  unfolding run_command search
  prompt_byte k (prefix, text) s =
      let closed = record s { typed = none } in
      if is_enter k
      then settled
          (if prefix == b':' then run_command (trim_space text) closed else search text closed)
      else if k == 27 || k == 3
      then (if prefix == b':' then closed else settled closed)
      else if is_erase k
      then record s { typed = some (prefix, take (length text - 1) text) }
      else if is_printable k
      then record s { typed = some (prefix, text ++ k ∷ []) }
      else s

  -- One round of the loop, or one byte of what it awaits. Nothing is read after the end.
  unfoldable pub session_byte : ℕ → Session → Session
  unfolding prompt_byte vim_key
  session_byte k s =
      let opened = record s { typed = some (k, []) } in
      let edited = record s { vim = vim_key (byte k) s.vim } in
      if s.ended
      then s
      else if s.awaiting
      then settled (record s { awaiting = false })
      else elim s.typed [
        | some t ↦ prompt_byte k t s
        | none ↦ if not s.vim.inserting && (k == b':' || k == b'/') then opened else edited
      ]

  unfoldable pub session_bytes : Bytes → Session → Session
  unfolding session_byte
  session_bytes [] s = s
  session_bytes (k ∷ ks) s = session_bytes ks (session_byte k s)

  -- The loop reads bytes one by one while a command is typed or a byte is awaited.
  abbrev pub reads_bytes : Session → Bool
  reads_bytes s = s.ended || s.awaiting || elim s.typed [ none ↦ false | some t ↦ true ]

  -- There an escape sequence is read from its Escape on, and a wide character, of which no byte is
  -- printable, as two such bytes.
  unfoldable pub session_key : Key → Session → Session
  unfolding session_bytes vim_key
  session_key (byte k) s = session_byte k s
  session_key (seq q) s =
      if reads_bytes s then session_bytes (27 ∷ q) s else record s { vim = vim_key (seq q) s.vim }
  session_key (wide r) s =
      if reads_bytes s
      then session_bytes (128 ∷ 128 ∷ []) s
      else record s { vim = vim_key (wide r) s.vim }

  -- runVirtualVim
  unfoldable pub run_virtual_vim : List Key → Session → Session
  unfolding session_key
  run_virtual_vim [] s = s
  run_virtual_vim (k ∷ ks) s = run_virtual_vim ks (session_key k s)
