-- ===== src/Sftp/Framing.antt =====
-- What was encoded is read back.
use mathlib.Core.Option.{some-injective}
use zent_loop.Common.{
  ℕ, ◌+◌, ◌*◌, ◌/◌, ◌%◌, ◌^◌, ◌≤◌, ◌<◌, false, ◌||◌, [], ◌∷◌, ◌++◌, Bytes, nat_eq, some, ltb, ◌==◌,
  length, take, drop, ◌≡◌, refl, arith, inl, inr, Bool-cases, Option-cases, length-take,
  length-drop, length-append, append_assoc,
}
use zent_loop.Sftp.Wire.{
  put_u32, put_string, get_u32, get_u64, get_string, text_of, read_packet, write_packet,
}

pub get_u32-put_u32 :
    (v : ℕ) (rest : Bytes) → v < 2 ^ 32 → get_u32 (put_u32 v ++ rest) ≡ some (v, rest)
unfolding get_u32 put_u32
get_u32-put_u32 v rest h =
    let whole : v / 2 ^ 24 % 256 * 2 ^ 24
          + v / 2 ^ 16 % 256 * 2 ^ 16
          + v / 2 ^ 8 % 256 * 2 ^ 8
          + v % 256
        ≡ v =
      omega arith in
    rw whole refl

pub take-append : (v rest : Bytes) → take (length v) (v ++ rest) ≡ v
take-append [] rest = refl
take-append (c ∷ v) rest = rw (take-append v rest) refl

drop-append : (v rest : Bytes) → drop (length v) (v ++ rest) ≡ rest
drop-append [] rest = refl
drop-append (c ∷ v) rest = drop-append v rest

text_of-append : (v rest : Bytes) → text_of (length v) (v ++ rest) ≡ some (v, rest)
text_of-append v rest =
    let enough : ltb (length (v ++ rest)) (length v) ≡ false =
      ground (arith, length-append v rest) in
    rw (enough, take-append v rest, drop-append v rest) refl

small : (n : ℕ) → n < 2 ^ 32 → n % 2 ^ 32 ≡ n
small n h = omega arith

-- The prefix is read, and leaves the text and what follows.
length_read :
    (v rest : Bytes)
    → length v < 2 ^ 32
    → get_u32 ((put_u32 (length v % 2 ^ 32) ++ v) ++ rest) ≡ some (length v, v ++ rest)
length_read v rest h =
    rw (small (length v) h, append_assoc (put_u32 (length v)) v rest)
      (get_u32-put_u32 (length v) (v ++ rest) h)

pub get_string-put_string :
    (v rest : Bytes) → length v < 2 ^ 32 → get_string (put_string v ++ rest) ≡ some (v, rest)
unfolding get_string put_string
get_string-put_string v rest h = rw (length_read v rest h) (text_of-append v rest)

-- A packet of at least one byte and at most a mebibyte that was written is what is read next, with
-- the rest of the stream behind it.
pub read_packet-write_packet :
    (p rest : Bytes)
    → 1 ≤ length p
    → length p ≤ 2 ^ 20
    → read_packet (write_packet p ++ rest) ≡ some (p, rest)
unfolding read_packet write_packet
read_packet-write_packet p rest some_byte fits =
    let allowed : ((length p == 0) || ltb (2 ^ 20) (length p)) ≡ false = ground arith in
    rw (length_read p rest (omega arith), allowed) (text_of-append p rest)

-- What is read, and what is left, is not longer than what it was read from.
text_of-short :
    (n : ℕ) (v : Bytes) (x : Bytes × Bytes)
    → text_of n v ≡ some x
    → (length x.0 ≤ length v) × (length x.1 ≤ length v) × (length x.0 ≤ n)
text_of-short n v x e = elim (Bool-cases (ltb (length v) n)) [
  | inl short ↦ cc (rw short at e)
  | inr long ↦ rw (← some-injective _ _ (rw long at e)) (
    omega (arith, length-take n v),
    omega (arith, length-drop n v),
    omega (arith, length-take n v),
  )
]

-- A number takes four bytes.
pub get_u32-short : (v : Bytes) (x : ℕ × Bytes) → get_u32 v ≡ some x → length x.1 + 4 ≡ length v
unfolding get_u32
get_u32-short (a ∷ b ∷ c ∷ d ∷ v) x e = rw (← some-injective _ _ e) (omega arith)
get_u32-short (a ∷ b ∷ c ∷ []) x e = cc
get_u32-short (a ∷ b ∷ []) x e = cc
get_u32-short (a ∷ []) x e = cc
get_u32-short [] x e = cc

pub get_string-short :
    (v : Bytes) (x : Bytes × Bytes)
    → get_string v ≡ some x
    → (length x.0 ≤ length v) × (length x.1 ≤ length v)
unfolding get_string
get_string-short v x e = elim (Option-cases (get_u32 v)) [
  | inl gone ↦ cc (rw gone at e)
  | inr (y, found) ↦
      let short = text_of-short y.0 y.1 x (rw found at e) in
      (
        omega (arith, short.0, get_u32-short v y found),
        omega (arith, short.1, get_u32-short v y found),
      )
]

pub get_u64-short : (v : Bytes) (x : ℕ × Bytes) → get_u64 v ≡ some x → length x.1 ≤ length v
unfolding get_u64
get_u64-short v x e = elim (Option-cases (get_u32 v)) [
  | inl gone ↦ cc (rw gone at e)
  | inr (y, found) ↦ elim (Option-cases (get_u32 y.1)) [
    | inl gone ↦ cc (rw (found, gone) at e)
    | inr (z, low) ↦
        rw (← some-injective _ _ (rw (found, low) at e))
          (omega (arith, get_u32-short v y found, get_u32-short y.1 z low))
  ]
]

-- A packet leaves a stream that is shorter by four bytes at least.
pub read_packet-short :
    (v : Bytes) (x : Bytes × Bytes)
    → read_packet v ≡ some x
    → (length x.0 ≤ 2 ^ 20) × (length x.1 < length v)
unfolding read_packet
read_packet-short v x e = elim (Option-cases (get_u32 v)) [
  | inl gone ↦ cc (rw gone at e)
  | inr (y, found) ↦ elim (Bool-cases ((y.0 == 0) || ltb (2 ^ 20) y.0)) [
    | inl refused ↦ cc (rw (found, refused) at e)
    | inr allowed ↦
        let short = text_of-short y.0 y.1 x (rw (found, allowed) at e) in
        let few : y.0 ≤ 2 ^ 20 = ground arith in
        (omega (arith, short.2, few), omega (arith, short.1, get_u32-short v y found))
  ]
]
