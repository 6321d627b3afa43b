-- ===== src/Sftp/Wire.antt =====
-- The encoding of SFTP packets (internal/server/trap_ssh_sftp.go): numbers with the high byte first,
-- texts behind their length, packets behind theirs. What is read is returned with what is left: the
-- slice behind `off`.
use zent_loop.Common.{
  ℕ, ◌+◌, ◌*◌, ◌/◌, ◌%◌, ◌^◌, ◌||◌, [], ◌∷◌, ◌++◌, Bytes, nat_eq, Option, none, some, ltb, ◌==◌,
  if◌then◌else◌, length, take, drop, ◌>>=◌,
}

-- sftpPutU32: binary.BigEndian.PutUint32
unfoldable pub put_u32 : ℕ → Bytes
put_u32 v = v / 2 ^ 24 % 256 ∷ v / 2 ^ 16 % 256 ∷ v / 2 ^ 8 % 256 ∷ v % 256 ∷ []

-- sftpPutU64
unfoldable pub put_u64 : ℕ → Bytes
put_u64 v = put_u32 (v / 2 ^ 32) ++ put_u32 (v % 2 ^ 32)

-- sftpPutString
unfoldable pub put_string : Bytes → Bytes
put_string v = put_u32 (length v % 2 ^ 32) ++ v

-- sftpGetU32
unfoldable pub get_u32 : Bytes → Option (ℕ × Bytes)
get_u32 (a ∷ b ∷ c ∷ d ∷ rest) = some (a * 2 ^ 24 + b * 2 ^ 16 + c * 2 ^ 8 + d, rest)
get_u32 rest = none

-- sftpGetU64
unfoldable pub get_u64 : Bytes → Option (ℕ × Bytes)
get_u64 v = do
  (high, low_rest) ← get_u32 v
  (low, rest) ← get_u32 low_rest
  some (high * 2 ^ 32 + low, rest)

abbrev pub text_of : ℕ → Bytes → Option (Bytes × Bytes)
text_of n rest = if ltb (length rest) n then none else some (take n rest, drop n rest)

-- sftpGetString
unfoldable pub get_string : Bytes → Option (Bytes × Bytes)
get_string v = do (n, rest) ← get_u32 v; text_of n rest

-- sftpReadPacket: the packet and the stream behind it. A stream that ends too soon is an error.
abbrev pub packet_of : ℕ → Bytes → Option (Bytes × Bytes)
packet_of n rest = if (n == 0) || ltb (2 ^ 20) n then none else text_of n rest

unfoldable pub read_packet : Bytes → Option (Bytes × Bytes)
read_packet stream = do (n, rest) ← get_u32 stream; packet_of n rest

-- sftpWritePacket
unfoldable pub write_packet : Bytes → Bytes
write_packet payload = put_u32 (length payload % 2 ^ 32) ++ payload
