-- ===== src/Shell/Words/Quoting.antt =====
-- What `virtualWords` makes of quoted words.
use mathlib.Core.List.{map}
use zent_loop.Common.{append-cons-ne-nil, ap, ◌∙◌}
use zent_loop.Common.{
  ℕ, List, [], ◌∷◌, ◌++◌, append_assoc, append-nil, Bytes, ◌≡◌, ◌≢◌, refl, ◌==◌, ◌||◌, nat_eq,
  if◌then◌else◌, trim_space, is_space, arith, All, join, last_or, last_or-append, true, false,
  trim_space_of_ends, trim_left, trim_right,
}
use zent_loop.Shell.Words.{bare, double, escapable, flush, scan_words, virtual_words}

-- A word written between double quotes, as a client's shell does it.
abbrev pub escape_byte : ℕ → Bytes
escape_byte c = if c == b'$' || c == b'`' || c == b'"' || c == b'\\' then b'\\' ∷ c ∷ [] else c ∷ []

abbrev pub escape_word : Bytes → Bytes
escape_word [] = []
escape_word (c ∷ w) = escape_byte c ++ escape_word w

abbrev pub double_quote : Bytes → Bytes
double_quote w = b'"' ∷ (escape_word w ++ b'"' ∷ [])

abbrev pub command_line : List Bytes → Bytes
command_line ws = join (map double_quote ws) (b' ' ∷ [])

scan_close : (b r : Bytes) → scan_words double b (b'"' ∷ r) ≡ scan_words bare b r
unfolding scan_words
scan_close b [] = refl
scan_close b (c ∷ r) = refl

scan_open : (b r : Bytes) → r ≢ [] → scan_words bare b (b'"' ∷ r) ≡ scan_words double b r
unfolding scan_words
scan_open b [] h = absurd (h refl)
scan_open b (c ∷ r) h = refl

scan_blank : (b r : Bytes) → scan_words bare b (b' ' ∷ r) ≡ flush b (scan_words bare [] r)
unfolding scan_words
scan_blank b [] = refl
scan_blank b (c ∷ r) = refl

scan_plain :
    (c : ℕ) (b v : Bytes)
    → (c == b'"') ≡ false
    → (c == b'\\') ≡ false
    → scan_words double b (c ∷ v) ≡ scan_words double (b ++ c ∷ []) v
unfolding scan_words
scan_plain c b [] h k = rw h
scan_plain c b (n ∷ v) h k = rw (h, k)

scan_slash :
    (c : ℕ) (b v : Bytes)
    → escapable c ≡ true
    → scan_words double b (b'\\' ∷ c ∷ v) ≡ scan_words double (b ++ c ∷ []) v
unfolding scan_words
scan_slash c b v h = rw h

scan_escaped :
    (c : ℕ) (b v : Bytes)
    → scan_words double b (escape_byte c ++ v) ≡ scan_words double (b ++ c ∷ []) v
unfolding escapable
scan_escaped c b v = ground (arith, scan_plain c b v, scan_slash c b v)

scan_word :
    (w b r : Bytes) → scan_words double b (escape_word w ++ b'"' ∷ r) ≡ scan_words bare (b ++ w) r
scan_word [] b r = rw append-nil (scan_close b r)
scan_word (c ∷ w) b r =
    rw (append_assoc (escape_byte c), scan_escaped c b, scan_word w (b ++ c ∷ []) r)
      (rw (append_assoc b (c ∷ []) w))

scan_quoted : (w r : Bytes) → scan_words bare [] (double_quote w ++ r) ≡ scan_words bare w r
scan_quoted w r = rw (append_assoc (escape_word w) (b'"' ∷ []) r) (
    scan_open [] (escape_word w ++ b'"' ∷ r) (append-cons-ne-nil (escape_word w) b'"' r)
    ∙ scan_word w [] r)

flush_word : (w : Bytes) (rest : List Bytes) → w ≢ [] → flush w rest ≡ w ∷ rest
unfolding flush
flush_word [] rest h = absurd (h refl)
flush_word (c ∷ w) rest h = refl

scan_line :
    (w : Bytes) (ws : List Bytes)
    → All (λ x. x ≢ []) (w ∷ ws)
    → scan_words bare [] (command_line (w ∷ ws)) ≡ w ∷ ws
unfolding join
scan_line w [] h =
    rw (← append-nil (double_quote w)) (scan_quoted w [] ∙ unfold scan_words in flush_word w [] h.0)
scan_line w (x ∷ ws) h =
    scan_quoted w (b' ' ∷ command_line (x ∷ ws))
    ∙ scan_blank w (command_line (x ∷ ws))
    ∙ flush_word w _ h.0
    ∙ ap (◌∷◌ w) (scan_line x ws h.1)

last-command_line : (w : Bytes) (ws : List Bytes) (d : ℕ) → last_or (command_line (w ∷ ws)) d ≡ b'"'
unfolding join last_or
last-command_line w [] d = last_or-append (escape_word w) b'"' b'"' []
last-command_line w (x ∷ ws) d =
    last_or-append (double_quote w) b' ' d (command_line (x ∷ ws)) ∙ last-command_line x ws b' '

trim_line :
    (w : Bytes) (ws : List Bytes) → trim_space (command_line (w ∷ ws)) ≡ command_line (w ∷ ws)
unfolding join is_space last_or
trim_line w [] = trim_space_of_ends b'"' _ refl (rw (last-command_line w [] 0))
trim_line w (x ∷ ws) = trim_space_of_ends b'"' _ refl (rw (last-command_line w (x ∷ ws) 0))

-- Words that are quoted with double quotes, with a backslash before `$`, a backtick, a double quote
-- and a backslash, and joined by single spaces are read back as those words, whatever bytes they
-- hold, if none of them is empty.
pub virtual_words-command_line :
    (ws : List Bytes) → All (λ w. w ≢ []) ws → virtual_words (command_line ws) ≡ ws
unfolding virtual_words
virtual_words-command_line [] h =
    unfold join trim_space trim_left trim_right scan_words flush in refl
virtual_words-command_line (w ∷ ws) h = rw (trim_line w ws) (scan_line w ws h)
