-- ===== src/Editor/Session.antt =====
-- Whatever is typed in vim, commands and searches included, the cursor stays inside the text.
use zent_loop.Common.{
  ℕ, List, [], ◌∷◌, not, ◌&&◌, ◌||◌, Bytes, Option, none, ◌==◌, nat_eq, bytes_eq, if_rule,
  Option-cases, inl, inr,
}
use zent_loop.Files.{World}
use zent_loop.Editor.Keys.{Key, byte, seq, wide, vim_key, is_enter, is_erase, is_printable}
use zent_loop.Editor.Cursor.{IsValid, clamp-IsValid}
use zent_loop.Editor.Reach.{new_text_buffer-IsValid, vim_key-IsValid}
use zent_loop.Editor.Commands.{
  Session, settled, prompt_byte, session_byte, session_bytes, reads_bytes, session_key,
  run_virtual_vim, start_vim,
}

unfoldable pub Inside : Session → Type 0
Inside s = IsValid s.vim.buffer

settled-Inside : (s : Session) → Inside (settled s)
unfolding Inside
settled-Inside s = clamp-IsValid s.vim.buffer

typed-Inside : (s : Session) (t : Option (ℕ × Bytes)) → Inside s → Inside (record s { typed = t })
unfolding Inside
typed-Inside s t v = v

keyed-Inside : (k : Key) (s : Session) → Inside s → Inside (record s { vim = vim_key k s.vim })
unfolding Inside
keyed-Inside k s v = vim_key-IsValid k s.vim v

module _ (execute : Bytes → World → World) (now : ℕ) where
  prompt_byte-Inside :
      (k prefix : ℕ) (text : Bytes) (s : Session)
      → Inside s
      → Inside (prompt_byte execute now k (prefix, text) s)
  unfolding prompt_byte
  prompt_byte-Inside k prefix text s v =
      let closed = typed-Inside s none v in
      if_rule Inside (is_enter k) _ _ (λ _. settled-Inside _)
        (λ _.
          if_rule Inside (k == 27 || k == 3) _ _
            (λ _. if_rule Inside (prefix == b':') _ _ (λ _. closed) (λ _. settled-Inside _))
            (λ _.
              if_rule Inside (is_erase k) _ _ (λ _. typed-Inside s _ v)
                (λ _. if_rule Inside (is_printable k) _ _ (λ _. typed-Inside s _ v) (λ _. v))))

  session_byte-Inside : (k : ℕ) (s : Session) → Inside s → Inside (session_byte execute now k s)
  unfolding session_byte
  session_byte-Inside k s v =
      if_rule Inside s.ended _ _ (λ _. v)
        (λ _.
          if_rule Inside s.awaiting _ _ (λ _. settled-Inside _)
            (λ _. elim (Option-cases s.typed) [
              | inr ((prefix, text), e) ↦ rw e (prompt_byte-Inside k prefix text s v)
              | inl e ↦ rw e (
                  if_rule Inside (not s.vim.inserting && (k == b':' || k == b'/')) _ _
                    (λ _. typed-Inside s _ v) (λ _. keyed-Inside (byte k) s v))
            ]))

  session_bytes-Inside :
      (ks : Bytes) (s : Session) → Inside s → Inside (session_bytes execute now ks s)
  unfolding session_bytes
  session_bytes-Inside [] s v = v
  session_bytes-Inside (k ∷ ks) s v =
      session_bytes-Inside ks (session_byte execute now k s) (session_byte-Inside k s v)

  session_key-Inside : (k : Key) (s : Session) → Inside s → Inside (session_key execute now k s)
  unfolding session_key
  session_key-Inside (byte k) s v = session_byte-Inside k s v
  session_key-Inside (seq q) s v =
      if_rule Inside (reads_bytes execute now s) _ _ (λ _. session_bytes-Inside (27 ∷ q) s v)
        (λ _. keyed-Inside (seq q) s v)
  session_key-Inside (wide r) s v =
      if_rule Inside (reads_bytes execute now s) _ _
        (λ _. session_bytes-Inside (128 ∷ 128 ∷ []) s v) (λ _. keyed-Inside (wide r) s v)

  run_virtual_vim-Inside :
      (ks : List Key) (s : Session) → Inside s → Inside (run_virtual_vim execute now ks s)
  unfolding run_virtual_vim
  run_virtual_vim-Inside [] s v = v
  run_virtual_vim-Inside (k ∷ ks) s v =
      run_virtual_vim-Inside ks (session_key execute now k s) (session_key-Inside k s v)

  -- Whatever file in UTF-8 is opened in vim, given by its code points, and whatever is typed then,
  -- inserted text, commands and searches, and whatever a shell command does to the machine: the cursor
  -- stands on a line of the buffer and at most one place behind the line's last rune.
  pub vim_session-IsValid :
      (text : List ℕ) (name : Bytes) (w : World) (ks : List Key)
      → IsValid (run_virtual_vim execute now ks (start_vim text name w)).vim.buffer
  unfolding Inside
  vim_session-IsValid text name w ks =
      run_virtual_vim-Inside ks (start_vim text name w) (new_text_buffer-IsValid text)
