-- ===== src/Store/Paths.antt =====
-- `normalizePath` of internal/store/store.go: numbers and tokens in a path are replaced. Texts are ASCII.
use zent_loop.Common.{
  ℕ, Bool, true, not, ◌&&◌, ◌||◌, List, [], ◌∷◌, ◌++◌, Bytes, bytes_eq, nat_eq, ltb, leb, ◌==◌,
  if◌then◌else◌, length, take, codes, join, push_first,
}

abbrev pub is_digit_byte : ℕ → Bool
is_digit_byte r = leb b'0' r && leb r b'9'

abbrev pub is_hex_byte : ℕ → Bool
is_hex_byte r = is_digit_byte r || (leb b'a' r && leb r b'f') || (leb b'A' r && leb r b'F')

unfoldable pub only : (ℕ → Bool) → Bytes → Bool
only p [] = true
only p (c ∷ v) = p c && only p v

-- isHex, isDigits
unfoldable pub is_hex : Bytes → Bool
unfolding only
is_hex v = only is_hex_byte v && not (v == [])

unfoldable pub is_digits : Bytes → Bool
unfolding only
is_digits v = only is_digit_byte v && not (v == [])

-- strings.Split at a slash
unfoldable pub split_slashes : Bytes → List Bytes
split_slashes [] = [] ∷ []
split_slashes (c ∷ v) =
    let rest = split_slashes v in if c == b'/' then [] ∷ rest else push_first c rest

-- The three bytes of `…`.
abbrev pub ellipsis : Bytes
ellipsis = 226 ∷ 128 ∷ 166 ∷ []

unfoldable pub normal_part : Bytes → Bytes
unfolding is_hex is_digits
normal_part p =
    if leb 8 (length p) && is_hex p
    then codes ":token"
    else if leb 3 (length p) && is_digits p
    then codes ":id"
    else if ltb 48 (length p)
    then take 47 p ++ ellipsis
    else p

unfoldable pub normal_parts : List Bytes → List Bytes
unfolding normal_part
normal_parts [] = []
normal_parts (p ∷ ps) = normal_part p ∷ normal_parts ps

unfoldable pub normalize_path : Bytes → Bytes
unfolding split_slashes normal_parts
normalize_path path =
    let out = join (normal_parts (split_slashes path)) (codes "/") in
    if path == [] then codes "/" else if ltb 160 (length out) then take 159 out ++ ellipsis else out
