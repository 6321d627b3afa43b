-- ===== src/Common/Text.antt =====
-- The functions of Go's `strings` package that the program uses, on lists of bytes. The text is
-- ASCII: `TrimSpace` and `ToLower` treat a byte above 127 as a letter without case.
use zent_loop.Common.Tests.{Bytes, leb, bytes_beq, ◌==◌, nat_eq, if◌then◌else◌}
use zent_loop.Common.Lists.{length, drop}
use Prim.Native.Nat.{ℕ, suc, ◌+◌, ◌-◌}
use mathlib.Core.Logic.{◌≢◌}
use mathlib.Core.Path.{◌≡◌, refl, ap}
use mathlib.Core.Bool.{Bool, true, false, ◌&&◌, ◌||◌}
use mathlib.Core.Option
use mathlib.Core.Option.{Option, none, some}
use mathlib.Core.List.{List, [], ◌∷◌, ◌++◌, map}
use native.Mathlib.Omega.{arith}

unfoldable pub is_space : ℕ → Bool
is_space c = (leb 9 c && leb c 13) || c == 32

unfoldable pub trim_left : Bytes → Bytes
trim_left [] = []
trim_left (c ∷ v) = let rest = trim_left v in if is_space c then rest else c ∷ v

-- A space stays only where something stays behind it.
unfoldable pub hang : ℕ → Bytes → Bytes
hang c [] = if is_space c then [] else c ∷ []
hang c (d ∷ v) = c ∷ d ∷ v

unfoldable pub trim_right : Bytes → Bytes
unfolding hang
trim_right [] = []
trim_right (c ∷ v) = hang c (trim_right v)

-- strings.TrimSpace
unfoldable pub trim_space : Bytes → Bytes
trim_space v = trim_right (trim_left v)

-- strings.HasPrefix, strings.TrimPrefix
unfoldable pub has_prefix : Bytes → Bytes → Bool
has_prefix v [] = true
has_prefix [] (d ∷ p) = false
has_prefix (c ∷ v) (d ∷ p) = (c == d) && has_prefix v p

unfoldable pub trim_prefix : Bytes → Bytes → Bytes
trim_prefix v p = if has_prefix v p then drop (length p) v else v

-- strings.HasSuffix
unfoldable pub has_suffix : Bytes → Bytes → Bool
unfolding bytes_beq
has_suffix v p = leb (length p) (length v) && bytes_beq (drop (length v - length p) v) p

-- strings.Index, strings.Contains
unfoldable pub index : Bytes → Bytes → Option ℕ
unfolding has_prefix
index [] p = if has_prefix [] p then some 0 else none
index (c ∷ v) p =
    let later = Option.map suc (index v p) in if has_prefix (c ∷ v) p then some 0 else later

unfoldable pub contains : Bytes → Bytes → Bool
unfolding has_prefix
contains [] p = has_prefix [] p
contains (c ∷ v) p = has_prefix (c ∷ v) p || contains v p

-- strings.ToLower
unfoldable pub lower_byte : ℕ → ℕ
lower_byte c = if leb 65 c && leb c 90 then c + 32 else c

unfoldable pub to_lower : Bytes → Bytes
unfolding lower_byte
to_lower = map lower_byte

-- strings.Join
unfoldable pub join : List Bytes → Bytes → Bytes
join [] sep = []
join (p ∷ []) sep = p
join (p ∷ q ∷ ps) sep = p ++ (sep ++ join (q ∷ ps) sep)

pub join-cons :
    (p : Bytes) (ps : List Bytes) (sep : Bytes)
    → ps ≢ []
    → join (p ∷ ps) sep ≡ p ++ (sep ++ join ps sep)
unfolding join
join-cons p [] sep h = absurd (h refl)
join-cons p (q ∷ ps) sep h = refl

-- The last byte, with `d` for the empty text.
unfoldable pub last_or : Bytes → ℕ → ℕ
last_or [] d = d
last_or (c ∷ v) d = last_or v c

-- Text that neither begins nor ends with a space is its own trim.
pub trim_right_of_last :
    (c : ℕ) (v : Bytes) → is_space (last_or v c) ≡ false → trim_right (c ∷ v) ≡ c ∷ v
unfolding trim_right last_or
trim_right_of_last c [] h = ground arith
trim_right_of_last c (d ∷ v) h = ap (hang c) (trim_right_of_last d v h)

pub trim_space_of_ends :
    (c : ℕ) (v : Bytes)
    → is_space c ≡ false
    → is_space (last_or v c) ≡ false
    → trim_space (c ∷ v) ≡ c ∷ v
unfolding trim_space trim_left
trim_space_of_ends c v h k = rw h (trim_right_of_last c v k)

pub last_or-append : (v : Bytes) (c d : ℕ) (w : Bytes) → last_or (v ++ c ∷ w) d ≡ last_or w c
unfolding last_or
last_or-append [] c d w = refl
last_or-append (x ∷ v) c d w = last_or-append v c x w
