-- ===== src/Sftp.antt =====
-- `runVirtualSFTP` of internal/server/trap_ssh_sftp.go: its state, and its replies. Sftp.Handles has
-- the requests about open files, Sftp.Tree those about names, Sftp.Session the choice between them and
-- the loop. Sizes and offsets are 64-bit numbers in two's complement.
pub mod Wire
pub mod Framing
pub mod Handles
pub mod Tree
pub mod Session
pub mod Replies
pub mod Panics
pub mod Requests
pub mod Loop
pub mod Sending
pub mod Writing
mod Examples
use zent_loop.Common.{
  ℕ, zero, suc, ◌+◌, ◌-◌, ◌*◌, ◌/◌, ◌%◌, ◌^◌, Bool, true, false, not, ◌&&◌, ◌||◌, List, [], ◌∷◌,
  ◌++◌, Bytes, nat_eq, bytes_eq, Option, none, some, ltb, leb, ◌==◌, if◌then◌else◌, length, take,
  drop, codes, Map, lookup, insert, remove,
}
use Prim.Native.Nat.{bit_and, bit_or}
use Wire.{put_u32, put_u64, put_string}
use zent_loop.Files.{World, FileMeta, dir_or, mode_or}

pub record Handle : Type 0 where
  pub path : Bytes
  pub dir : Bool
  pub write : Bool
  pub read : Bool
  pub listed : Bool
  pub content : Bytes
  pub total : ℕ
  -- what was fed to the hasher, if there is one
  pub hashed : Option Bytes
  pub next_offset : ℕ

-- What closing a written file records: the size, the digest and the kind of what was sent, and whether
-- it counts as a payload.
pub record Upload : Type 0 where
  pub path : Bytes
  pub total : ℕ
  pub sum : Bytes
  pub kind : Bytes
  pub is_payload : Bool

pub record Sftp : Type 0 where
  pub world : World
  pub handles : Map Bytes Handle
  pub next_handle : ℕ
  pub uploads : List Upload

-- What the program reads elsewhere: the virtual clock, the clock in seconds, the files that are made on
-- reading, and sha256.
pub record Env : Type 0 where
  pub now : ℕ
  pub unix : ℕ
  pub dynamic : Bytes → Option Bytes
  pub sum256 : Bytes → Bytes

-- A request is replied to, or it ends the session, or it panics.
pub data Outcome : Type 0 where
  replied : Bytes → Sftp → Outcome
  closed crashed : Outcome

-- The decimal digits of a number (`%d`); the fuel is the number itself.
unfoldable pub decimal_from : ℕ → ℕ → Bytes
decimal_from zero n = []
decimal_from (suc fuel) n =
    let high = decimal_from fuel (n / 10) in
    if ltb n 10 then (b'0' + n) ∷ [] else high ++ (b'0' + n % 10) ∷ []

unfoldable pub decimal : ℕ → Bytes
unfolding decimal_from
decimal n = decimal_from (suc n) n

-- Signed 64-bit numbers.
abbrev pub is_negative : ℕ → Bool
is_negative a = leb (2 ^ 63) a

abbrev pub flip_sign : ℕ → ℕ
flip_sign a = (a + 2 ^ 63) % 2 ^ 64

abbrev pub signed_lt : ℕ → ℕ → Bool
signed_lt a b = ltb (flip_sign a) (flip_sign b)

abbrev pub add64 : ℕ → ℕ → ℕ
add64 a b = (a + b) % 2 ^ 64

abbrev pub sub64 : ℕ → ℕ → ℕ
sub64 a b = (a + (2 ^ 64 - b)) % 2 ^ 64

-- sftpReplyStatus, without the frame
unfoldable pub status_reply : ℕ → ℕ → Bytes → Bytes
unfolding put_u32 put_string
status_reply id code message =
    101 ∷ put_u32 id ++ put_u32 code ++ put_string message ++ put_string []

abbrev pub ok_reply : ℕ → Bytes
ok_reply id = status_reply id 0 (codes "OK")

abbrev pub eof_reply : ℕ → Bytes
eof_reply id = status_reply id 1 (codes "EOF")

abbrev pub missing_reply : ℕ → Bytes
missing_reply id = status_reply id 2 (codes "No such file")

abbrev pub failure_reply : ℕ → Bytes
failure_reply id = status_reply id 4 (codes "Failure")

abbrev pub full_reply : ℕ → Bytes
full_reply id = status_reply id 4 (codes "No space left on device")

abbrev pub meta_or : Option FileMeta → FileMeta
meta_or none = record { size = 0; mod_time = 0; kind = [] }
meta_or (some m) = m

abbrev pub second : ℕ
second = 1_000_000_000

-- sftpAttrsForWorld: flags, size, permissions and twice the time
unfoldable pub attrs_for_world : Env → World → Bytes → Bytes
unfolding put_u32 put_u64
attrs_for_world env w target =
    let meta = meta_or (lookup target w.file_meta) in
    let is_dir = dir_or (lookup target w.dirs) in
    let mode = if is_dir then 493 else mode_or (lookup target w.file_modes) in
    let size = if is_dir then 4096 else meta.size in
    let kind = if is_dir then 16384 else 32768 in
    let ts = if meta.mod_time == 0 then env.unix % 2 ^ 32 else meta.mod_time / second % 2 ^ 32 in
    put_u32 13
    ++ put_u64 size
    ++ put_u32 (bit_or (bit_and mode 4095) kind)
    ++ put_u32 ts
    ++ put_u32 ts
