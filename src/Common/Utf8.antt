-- ===== src/Common/Utf8.antt =====
-- Texts as sequences of code points, the way Go's `range`, `[]rune(v)` and `WriteRune` read and write
-- them: a byte that begins no character is read as U+FFFD.
use mathlib.Core.Bool.{Bool, true, ◌&&◌, ◌||◌}
use mathlib.Core.List.{List, [], ◌∷◌, ◌++◌, append_assoc}
use mathlib.Core.Path.{◌≡◌, refl, ap, sym}
use native.Mathlib.Omega.{arith}
use Prim.Native.Nat.{ℕ, zero, suc, ◌+◌, ◌-◌, ◌*◌, ◌/◌, ◌%◌, ◌≤◌}
use zent_loop.Common.Tests.{Bytes, ◌==◌, nat_eq, ltb, leb, if◌then◌else◌}
use zent_loop.Common.Lists.{length, All}

-- utf8.RuneError
abbrev pub rune_error : ℕ
rune_error = 0xfffd

abbrev pub between : ℕ → ℕ → ℕ → Bool
between lo hi c = leb lo c && leb c hi

-- A byte that goes on with a character.
abbrev pub is_next : ℕ → Bool
is_next = between 128 191

-- The first byte decides between which bounds the second one lies.
abbrev pub is_second : ℕ → ℕ → Bool
is_second c d =
    if c == 224
    then between 160 191 d
    else if c == 237
    then between 128 159 d
    else if c == 240
    then between 144 191 d
    else if c == 244
    then between 128 143 d
    else is_next d

-- The characters of two, three and four bytes. The result is a code point and how many bytes behind
-- the first it takes.
abbrev pub two_bytes : ℕ → Bytes → ℕ × ℕ
two_bytes c [] = (rune_error, 0)
two_bytes c (d ∷ v) = if is_next d then ((c - 192) * 64 + (d - 128), 1) else (rune_error, 0)

abbrev pub three_bytes : ℕ → Bytes → ℕ × ℕ
three_bytes c [] = (rune_error, 0)
three_bytes c (d ∷ []) = (rune_error, 0)
three_bytes c (d ∷ e ∷ v) =
    if is_second c d && is_next e
    then ((c - 224) * 4096 + (d - 128) * 64 + (e - 128), 2)
    else (rune_error, 0)

abbrev pub four_bytes : ℕ → Bytes → ℕ × ℕ
four_bytes c [] = (rune_error, 0)
four_bytes c (d ∷ []) = (rune_error, 0)
four_bytes c (d ∷ e ∷ []) = (rune_error, 0)
four_bytes c (d ∷ e ∷ f ∷ v) =
    if is_second c d && is_next e && is_next f
    then ((c - 240) * 262144 + (d - 128) * 4096 + (e - 128) * 64 + (f - 128), 3)
    else (rune_error, 0)

-- The character that begins with `c`, before `v`.
unfoldable pub rune_at : ℕ → Bytes → ℕ × ℕ
rune_at c v =
    if ltb c 128
    then (c, 0)
    else if between 194 223 c
    then two_bytes c v
    else if between 224 239 c
    then three_bytes c v
    else if between 240 244 c
    then four_bytes c v
    else (rune_error, 0)

-- The code points of a text of which the first bytes are passed over.
unfoldable pub runes_from : ℕ → Bytes → List ℕ
unfolding rune_at
runes_from n [] = []
runes_from (suc n) (c ∷ v) = runes_from n v
runes_from zero (c ∷ v) = (rune_at c v).0 ∷ runes_from (rune_at c v).1 v

-- []rune(v), and the values of `range v`
unfoldable pub runes : Bytes → List ℕ
unfolding runes_from
runes v = runes_from 0 v

abbrev pub error_bytes : Bytes
error_bytes = 0xef ∷ 0xbf ∷ 0xbd ∷ []

-- WriteRune
unfoldable pub encode_rune : ℕ → Bytes
encode_rune r =
    if ltb r 128
    then r ∷ []
    else if ltb r 2048
    then (192 + r / 64) ∷ (128 + r % 64) ∷ []
    else if between 0xd800 0xdfff r || ltb 0x10ffff r
    then error_bytes
    else if ltb r 65536
    then (224 + r / 4096) ∷ (128 + r / 64 % 64) ∷ (128 + r % 64) ∷ []
    else (240 + r / 262144) ∷ (128 + r / 4096 % 64) ∷ (128 + r / 64 % 64) ∷ (128 + r % 64) ∷ []

-- string(rs)
unfoldable pub encode : List ℕ → Bytes
unfolding encode_rune
encode [] = []
encode (r ∷ rs) = encode_rune r ++ encode rs

-- A text with U+FFFD for each byte that belongs to no character: strings.ToValidUTF8, byte by byte.
abbrev pub to_valid : Bytes → Bytes
to_valid v = encode (runes v)

pub encode-append : (rs ss : List ℕ) → encode (rs ++ ss) ≡ encode rs ++ encode ss
unfolding encode
encode-append [] ss = refl
encode-append (r ∷ rs) ss =
    rw (encode-append rs ss) (sym (append_assoc (encode_rune r) (encode rs) (encode ss)))

-- A text of ASCII characters is valid.
pub to_valid-ascii : (v : Bytes) → All (λ c. ltb c 128 ≡ true) v → to_valid v ≡ v
unfolding runes runes_from encode encode_rune rune_at
to_valid-ascii [] all = refl
to_valid-ascii (c ∷ v) all = rw (all.0, all.0) (ap (λ w. c ∷ w) (to_valid-ascii v all.1))

-- The characters of a text do not depend on an ASCII character behind it.
module _ (x : ℕ) (ascii : ltb x 128 ≡ true) where
  rune_at-append : (c : ℕ) (v : Bytes) → rune_at c (v ++ x ∷ []) ≡ rune_at c v
  unfolding rune_at
  rune_at-append c [] = ground arith
  rune_at-append c (d ∷ []) = ground arith
  rune_at-append c (d ∷ e ∷ []) = ground arith
  rune_at-append c (d ∷ e ∷ f ∷ v) = refl

  rune_at-fits : (c : ℕ) (v : Bytes) → (rune_at c v).1 ≤ length v
  unfolding rune_at
  rune_at-fits c [] = ground arith
  rune_at-fits c (d ∷ []) = ground arith
  rune_at-fits c (d ∷ e ∷ []) = ground arith
  rune_at-fits c (d ∷ e ∷ f ∷ v) = ground arith

  runes_from-append :
      (n : ℕ) (v : Bytes) → n ≤ length v → runes_from n (v ++ x ∷ []) ≡ runes_from n v ++ x ∷ []
  unfolding runes_from rune_at
  runes_from-append zero [] fits = rw ascii refl
  runes_from-append (suc n) [] fits = absurd (omega arith)
  runes_from-append (suc n) (c ∷ v) fits = runes_from-append n v (omega arith)
  runes_from-append zero (c ∷ v) fits =
      let same = rune_at-append c v in
      rw (ap (λ (p : ℕ × ℕ). p.0) same, ap (λ (p : ℕ × ℕ). p.1) same)
        (ap (λ rs. (rune_at c v).0 ∷ rs) (runes_from-append (rune_at c v).1 v (rune_at-fits c v)))

  pub runes-append : (v : Bytes) → runes (v ++ x ∷ []) ≡ runes v ++ x ∷ []
  unfolding runes
  runes-append v = runes_from-append 0 v (omega arith)
