-- ===== src/Shell/Split.antt =====
-- `splitOutsideQuotes`, `balancedVirtualDelims` and `unwrapVirtualGroup` of
-- internal/server/trap_ssh_shell.go: where a command line may be cut. Both loops range over the code
-- points of the text; the scans below are on those.
pub mod Lossless
pub mod Groups
use zent_loop.Common.{
  ℕ, List, [], ◌∷◌, ◌++◌, Bool, true, false, not, ◌&&◌, ◌||◌, ◌+◌, ◌-◌, Bytes, Option, none, some,
  ◌==◌, nat_eq, leb, length, if◌then◌else◌, trim_space, take, drop, has_suffix, last_or, runes,
  encode,
}

-- The variables of the scan: the open quote (0: none), the pending backslash, the open delimiters.
pub record Scan : Type 0 where
  pub quote : ℕ
  pub escaped : Bool
  pub paren : ℕ
  pub brace : ℕ

abbrev pub start : Scan
start = record { quote = 0; escaped = false; paren = 0; brace = 0 }

abbrev pub is_quote : ℕ → Bool
is_quote r = r == b'\'' || r == b'"'

-- The `switch` on delimiters; a depth does not go below 0.
unfoldable pub count_delim : Scan → ℕ → Scan
count_delim s r =
    if r == b'('
    then record s { paren = s.paren + 1 }
    else if r == b')'
    then record s { paren = s.paren - 1 }
    else if r == b'{'
    then record s { brace = s.brace + 1 }
    else if r == b'}'
    then record s { brace = s.brace - 1 }
    else s

-- One round of the loop of `splitOutsideQuotes`, as far as the scan's variables go.
unfoldable pub advance : Scan → ℕ → Scan
unfolding count_delim
advance s r =
    if s.escaped
    then record s { escaped = false }
    else if r == b'\\'
    then record s { escaped = true }
    else if not (s.quote == 0)
    then (if r == s.quote then record s { quote = 0 } else s)
    else if is_quote r
    then record s { quote = r }
    else count_delim s r

-- The round reaches the comparison with `delim`, and cuts there.
unfoldable pub cuts : ℕ → Scan → ℕ → Bool
unfolding count_delim
cuts delim s r =
    let t = count_delim s r in
    not s.escaped
    && not (r == b'\\')
    && (s.quote == 0)
    && not (is_quote r)
    && (r == delim)
    && (t.paren == 0)
    && (t.brace == 0)

-- `b` is the part so far; the result is what is still appended to `out`.
unfoldable pub split_scan : ℕ → Scan → List ℕ → List ℕ → List (List ℕ)
unfolding advance cuts
split_scan delim s b [] = b ∷ []
split_scan delim s b (r ∷ v) =
    let cut = b ∷ split_scan delim (advance s r) [] v in
    let more = split_scan delim (advance s r) (b ++ r ∷ []) v in
    if cuts delim s r then cut else more

-- The parts as they are written.
unfoldable pub encode_all : List (List ℕ) → List Bytes
unfolding encode
encode_all [] = []
encode_all (p ∷ ps) = encode p ∷ encode_all ps

unfoldable pub split_outside_quotes : Bytes → ℕ → List Bytes
unfolding split_scan encode_all runes
split_outside_quotes v delim = encode_all (split_scan delim start [] (runes v))

-- `balancedVirtualDelims` returns false as soon as a depth falls below 0.
unfoldable pub count_balanced : Scan → ℕ → Option Scan
count_balanced s r =
    if r == b'('
    then some (record s { paren = s.paren + 1 })
    else if r == b')'
    then (if s.paren == 0 then none else some (record s { paren = s.paren - 1 }))
    else if r == b'{'
    then some (record s { brace = s.brace + 1 })
    else if r == b'}'
    then (if s.brace == 0 then none else some (record s { brace = s.brace - 1 }))
    else some s

unfoldable pub advance_balanced : Scan → ℕ → Option Scan
unfolding count_balanced
advance_balanced s r =
    if s.escaped
    then some (record s { escaped = false })
    else if r == b'\\'
    then some (record s { escaped = true })
    else if not (s.quote == 0)
    then some (if r == s.quote then record s { quote = 0 } else s)
    else if is_quote r
    then some (record s { quote = r })
    else count_balanced s r

unfoldable pub balanced_scan : Scan → List ℕ → Bool
unfolding advance_balanced
balanced_scan s [] = (s.paren == 0) && (s.brace == 0) && (s.quote == 0)
balanced_scan s (r ∷ v) = elim (advance_balanced s r) [ none ↦ false | some t ↦ balanced_scan t v ]

unfoldable pub balanced_delims : Bytes → Bool
unfolding balanced_scan runes
balanced_delims v = balanced_scan start (runes v)

-- strings.TrimSuffix with one byte
unfoldable pub trim_last : ℕ → Bytes → Bytes
trim_last c [] = []
trim_last c (x ∷ []) = if x == c then [] else x ∷ []
trim_last c (x ∷ y ∷ v) = x ∷ trim_last c (y ∷ v)

-- raw[1 : len(raw)-1]
abbrev pub inside : Bytes → Bytes
inside raw = take (length raw - 2) (drop 1 raw)

unfoldable pub unwrap_trimmed : Bytes → Option Bytes
unfolding balanced_delims trim_last
unwrap_trimmed [] = none
unwrap_trimmed (c ∷ raw) =
    let inner = inside (c ∷ raw) in
    if not (leb 2 (length (c ∷ raw)))
    then none
    else if (c == b'(') && (last_or raw c == b')') && balanced_delims inner
    then some (trim_space inner)
    else if (c == b'{') && (last_or raw c == b'}') && balanced_delims inner
    then some (trim_space (trim_last b';' (trim_space inner)))
    else none

unfoldable pub unwrap_group : Bytes → Option Bytes
unfolding unwrap_trimmed
unwrap_group raw = unwrap_trimmed (trim_space raw)
