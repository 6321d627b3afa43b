-- ===== src/Files/Paths.antt =====
-- Go's `path.Clean`, `path.Join` and `utf8.ValidString`, which the virtual file system uses.
use mathlib.Core.List.{reverse}
use zent_loop.Common.{
  ℕ, not, length, drop, Bool, true, false, ◌&&◌, ◌||◌, List, [], ◌∷◌, ◌++◌, Bytes, bytes_eq, nat_eq,
  codes, Option, none, some, leb, ◌==◌, if◌then◌else◌, has_prefix, join, bytes_beq,
}

abbrev add_byte : ℕ → List Bytes → List Bytes
add_byte c [] = (c ∷ []) ∷ []
add_byte c (part ∷ parts) = (c ∷ part) ∷ parts

-- The parts between the slashes.
unfoldable pub path_parts : Bytes → List Bytes
path_parts [] = [] ∷ []
path_parts (c ∷ v) = let rest = path_parts v in if c == b'/' then [] ∷ rest else add_byte c rest

-- `..` drops the last part of the path, if there is one to drop.
abbrev up : Bool → List Bytes → List Bytes
up rooted [] = if rooted then [] else codes ".." ∷ []
up rooted (last ∷ parts) = if last == codes ".." then codes ".." ∷ last ∷ parts else parts

unfoldable pub walk : Bool → List Bytes → List Bytes → List Bytes
unfolding bytes_beq
walk rooted done [] = done
walk rooted done (part ∷ parts) =
    walk rooted
      (if (part == []) || (part == codes ".")
        then done
        else if part == codes ".."
        then up rooted done
        else part ∷ done)
      parts

-- path.Clean
unfoldable pub clean : Bytes → Bytes
unfolding walk path_parts has_prefix join bytes_beq
clean v =
    let rooted = has_prefix v (codes "/") in
    let kept = join (reverse (walk rooted [] (path_parts v))) (codes "/") in
    if rooted then codes "/" ++ kept else if kept == [] then codes "." else kept

-- path.Join of two elements
unfoldable pub join_paths : Bytes → Bytes → Bytes
unfolding clean
join_paths [] [] = []
join_paths [] v = clean v
join_paths (c ∷ u) [] = clean (c ∷ u)
join_paths (c ∷ u) (d ∷ v) = clean ((c ∷ u) ++ b'/' ∷ d ∷ v)

-- What may follow a first byte: the ranges of the bytes that complete the character.
abbrev rest_of : ℕ → Option (List (ℕ × ℕ))
rest_of c =
    let tail : ℕ × ℕ = (128, 191) in
    if leb c 127
    then some []
    else if leb 194 c && leb c 223
    then some (tail ∷ [])
    else if c == 224
    then some ((160, 191) ∷ tail ∷ [])
    else if c == 237
    then some ((128, 159) ∷ tail ∷ [])
    else if leb 225 c && leb c 239
    then some (tail ∷ tail ∷ [])
    else if c == 240
    then some ((144, 191) ∷ tail ∷ tail ∷ [])
    else if leb 241 c && leb c 243
    then some (tail ∷ tail ∷ tail ∷ [])
    else if c == 244
    then some ((128, 143) ∷ tail ∷ tail ∷ [])
    else none

abbrev follow : Bool → List (ℕ × ℕ) → Option (List (ℕ × ℕ))
follow true wanted = some wanted
follow false wanted = none

abbrev next_wanted : List (ℕ × ℕ) → ℕ → Option (List (ℕ × ℕ))
next_wanted [] c = rest_of c
next_wanted (range ∷ wanted) c = follow (leb range.0 c && leb c range.1) wanted

unfoldable pub valid_from : Option (List (ℕ × ℕ)) → Bytes → Bool
valid_from none v = false
valid_from (some []) [] = true
valid_from (some (range ∷ wanted)) [] = false
valid_from (some wanted) (c ∷ v) = valid_from (next_wanted wanted c) v

-- utf8.ValidString
unfoldable pub valid_string : Bytes → Bool
unfolding valid_from
valid_string v = valid_from (some []) v

-- The path up to its last slash, and what stands behind it.
unfoldable pub dir_part : Bytes → Bytes
dir_part [] = []
dir_part (c ∷ v) =
    let rest = dir_part v in if (c == b'/') || not (length rest == 0) then c ∷ rest else []

unfoldable pub strip_slashes : Bytes → Bytes
strip_slashes [] = []
strip_slashes (c ∷ v) =
    let rest = strip_slashes v in if (c == b'/') && (length rest == 0) then [] else c ∷ rest

-- path.Dir
unfoldable pub dir_of : Bytes → Bytes
unfolding dir_part clean
dir_of v = clean (dir_part v)

abbrev name_or_root : Bytes → Bytes
name_or_root [] = codes "/"
name_or_root (c ∷ v) = c ∷ v

-- path.Base
unfoldable pub base_of : Bytes → Bytes
unfolding dir_part strip_slashes
base_of [] = codes "."
base_of (c ∷ v) =
    let path = strip_slashes (c ∷ v) in name_or_root (drop (length (dir_part path)) path)
