-- ===== src/Shell/Words.antt =====
-- `virtualWords` of internal/server/trap_ssh_shell.go: a command line cut into words.
pub mod Quoting
use zent_loop.Common.{
  ℕ, List, [], ◌∷◌, ◌++◌, Bool, ◌||◌, Bytes, codes, ◌≡◌, refl, ◌==◌, nat_eq, if◌then◌else◌,
  trim_space, trim_left, trim_right, is_space, arith, ◌≢◌, All,
}

-- The variable `quote`: 0, '\'' or '"'.
pub data Quote : Type 0 where
  bare single double : Quote

-- The bytes that a backslash keeps inside double quotes.
unfoldable pub escapable : ℕ → Bool
escapable n = n == b'$' || n == b'`' || n == b'"' || n == b'\\' || n == b'\n'

unfoldable pub flush : Bytes → List Bytes → List Bytes
flush [] rest = rest
flush (c ∷ b) rest = (c ∷ b) ∷ rest

abbrev pub is_blank : ℕ → Bool
is_blank c = c == b' ' || c == b'\t'

-- `b` is the word so far; the result is what is still appended to `out`.
unfoldable pub scan_words : Quote → Bytes → Bytes → List Bytes
unfolding flush escapable
scan_words q b [] = flush b []
scan_words single b (c ∷ v) =
    let closed = scan_words bare b v in
    let more = scan_words single (b ++ c ∷ []) v in if c == b'\'' then closed else more
scan_words double b (c ∷ []) =
    let closed = flush b [] in
    let more = flush (b ++ c ∷ []) [] in if c == b'"' then closed else more
scan_words double b (c ∷ n ∷ v) =
    let closed = scan_words bare b (n ∷ v) in
    let escaped = scan_words double (b ++ n ∷ []) v in
    let slash = scan_words double (b ++ b'\\' ∷ []) (n ∷ v) in
    let more = scan_words double (b ++ c ∷ []) (n ∷ v) in
    if c == b'"'
    then closed
    else if c == b'\\'
    then (if escapable n then escaped else slash)
    else more
scan_words bare b (c ∷ []) =
    if c == b'\'' || c == b'"'
    then flush b []
    else if is_blank c
    then flush b []
    else flush (b ++ c ∷ []) []
scan_words bare b (c ∷ n ∷ v) =
    let opened = scan_words single b (n ∷ v) in
    let opened_double = scan_words double b (n ∷ v) in
    let escaped = scan_words bare (b ++ n ∷ []) v in
    let blank = scan_words bare [] (n ∷ v) in
    let more = scan_words bare (b ++ c ∷ []) (n ∷ v) in
    if c == b'\''
    then opened
    else if c == b'"'
    then opened_double
    else if c == b'\\'
    then escaped
    else if is_blank c
    then flush b blank
    else more

unfoldable pub virtual_words : Bytes → List Bytes
unfolding scan_words
virtual_words v = scan_words bare [] (trim_space v)
