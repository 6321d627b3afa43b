-- ===== src/Sftp/Handles.antt =====
-- The requests about open files: open, write, read, close.
use Prim.Native.Nat.{bit_and}
use zent_loop.Common.{
  ℕ, zero, suc, ◌+◌, ◌-◌, ◌*◌, ◌^◌, Bool, true, false, not, ◌&&◌, ◌||◌, [], ◌∷◌, ◌++◌, Bytes,
  nat_eq, bytes_eq, Option, none, some, ltb, ◌==◌, if◌then◌else◌, length, take, drop, codes, lookup,
  insert, remove, ◌>>=◌, or_else, has_prefix, trim_space, to_lower, contains,
}
use zent_loop.Files.{
  World, resolve, virtual_read_file, set_virtual_file, infer_virtual_file_kind,
  max_virtual_file_bytes, content_or, is_missing,
}
use zent_loop.Files.Paths.{clean, base_of, dir_part}
use zent_loop.Sftp.{
  Handle, Upload, Sftp, Env, Outcome, replied, crashed, decimal, is_negative, signed_lt, add64,
  sub64, ok_reply, eof_reply, missing_reply, failure_reply, full_reply, meta_or,
}
use zent_loop.Sftp.Wire.{put_u32, put_string, get_u32, get_u64, get_string}

abbrev pub max_upload_bytes : ℕ
max_upload_bytes = 64 * 2 ^ 20

abbrev pub has_bits : ℕ → ℕ → Bool
has_bits flags mask = not (bit_and flags mask == 0)

-- A request that cannot be read is a failure.
abbrev pub or_failure : ℕ → Sftp → Option Outcome → Outcome
or_failure id s o = or_else o (replied (failure_reply id) s)

abbrev pub handle_reply : ℕ → Bytes → Bytes
handle_reply id name = 102 ∷ put_u32 id ++ put_string name

abbrev pub new_handle : Bytes → Bool → Bool → Bytes → Handle
new_handle target write read content = record {
  path = target;
  dir = false;
  write = write;
  read = read;
  listed = false;
  content = content;
  total = length content;
  hashed = if write then some [] else none;
  next_offset = 0;
}

-- The file is there, or the request may create it.
abbrev pub open_file : ℕ → Bytes → Bool → Bool → Option Bytes → Sftp → Outcome
open_file id target write read found s =
    let name = b'f' ∷ decimal s.next_handle in
    let counted : Sftp = record s { next_handle = s.next_handle + 1 } in
    if is_missing found && not write
    then replied (missing_reply id) counted
    else replied (handle_reply id name) (record counted {
      handles = insert name (new_handle target write read (content_or found)) s.handles;
    })

unfoldable pub open_at : Env → ℕ → Bytes → ℕ → Sftp → Outcome
open_at env id p flags s =
    let target = resolve p s.world in
    let write = has_bits flags 30 in
    let read = has_bits flags 1 in
    if write && has_bits flags 16
    then open_file id target write read (some [])
        (record s { world = (set_virtual_file target [] env.now s.world).1 })
    else open_file id target write read (virtual_read_file env.dynamic target s.world) s

unfoldable pub open_request : Env → ℕ → Bytes → Sftp → Outcome
unfolding open_at
open_request env id body s =
    or_failure id s
      (do (p, r) ← get_string body; (flags, r2) ← get_u32 r; some (open_at env id p flags s))

-- `h.data` with the bytes from `offset` on overwritten; it is long enough.
abbrev pub overwrite : Bytes → ℕ → Bytes → Bytes
overwrite v offset w = take offset v ++ w ++ drop (offset + length w) v

unfoldable pub zeros : ℕ → Bytes
zeros zero = []
zeros (suc n) = 0 ∷ zeros n

-- `v` grown to `need` bytes, if it is shorter
unfoldable pub grow : Bytes → ℕ → Bytes
unfolding zeros
grow v need = if signed_lt (length v) need then v ++ zeros (need - length v) else v

-- The first `n` bytes of `text` written over `v` at `offset`, or `none` where slicing `v` panics.
unfoldable pub put_in : Bytes → ℕ → ℕ → Bytes → Option Bytes
put_in v offset n text =
    if not (signed_lt 0 n)
    then some v
    else if is_negative offset || ltb (length v) (offset + n)
    then none
    else some (overwrite v offset (take n text))

-- The bytes that the file keeps of a write below the limit.
unfoldable pub patch : Bytes → ℕ → Bytes → Option Bytes
patch v offset text =
    let over = signed_lt max_virtual_file_bytes (add64 offset (length text)) in
    let need = if over then max_virtual_file_bytes else add64 offset (length text) in
    let n = if over then sub64 max_virtual_file_bytes offset else length text in
    put_in (grow v need) offset n text

abbrev pub hash_next : Handle → ℕ → Bytes → Handle
hash_next h offset text = elim h.hashed [
  | none ↦ h
  | some fed ↦
      if offset == h.next_offset
      then record h { hashed = some (fed ++ text); next_offset = add64 h.next_offset (length text) }
      else h
]

abbrev pub raise_total : ℕ → Handle → Handle
raise_total end h = if signed_lt h.total end then record h { total = end } else h

-- The kept part of the file and the digest of a write of `text` at `offset`.
unfoldable pub write_handle : ℕ → Bytes → Handle → Option Handle
write_handle offset text h =
    let end = add64 offset (length text) in
    let counted = λ (content : Bytes).
      raise_total end (hash_next (record h { content = content }) offset text) in
    if signed_lt offset max_virtual_file_bytes
    then elim (patch h.content offset text) [ none ↦ none | some content ↦ some (counted content) ]
    else some (counted h.content)

abbrev pub write_outcome : ℕ → Bytes → Option Handle → Sftp → Outcome
write_outcome id name none s = crashed
write_outcome id name (some h) s =
    replied (ok_reply id) (record s { handles = insert name h s.handles })

unfoldable pub write_at : ℕ → Bytes → ℕ → Bytes → Option Handle → Sftp → Outcome
write_at id name offset text none s = replied (failure_reply id) s
write_at id name offset text (some h) s =
    if not h.write
    then replied (failure_reply id) s
    else if signed_lt max_upload_bytes (add64 offset (length text))
    then replied (full_reply id) s
    else write_outcome id name (write_handle offset text h) s

unfoldable pub write_request : ℕ → Bytes → Sftp → Outcome
unfolding write_at
write_request id body s = or_failure id s (do
  (name, r) ← get_string body
  (offset, r2) ← get_u64 r
  (text, r3) ← get_string r2
  some (write_at id name offset text (lookup name s.handles) s))

unfoldable pub read_at : ℕ → ℕ → ℕ → Option Handle → Sftp → Outcome
read_at id offset n none s = replied (failure_reply id) s
read_at id offset n (some h) s =
    if not h.read
    then replied (failure_reply id) s
    else if not (signed_lt offset (length h.content))
    then replied (eof_reply id) s
    else if is_negative offset
    then crashed
    else replied (103 ∷ put_u32 id ++ put_string (take n (drop offset h.content))) s

unfoldable pub read_request : ℕ → Bytes → Sftp → Outcome
unfolding read_at
read_request id body s = or_failure id s (do
  (name, r) ← get_string body
  (offset, r2) ← get_u64 r
  (n, r3) ← get_u32 r2
  some (read_at id offset n (lookup name s.handles) s))

-- isStealthPayloadPath: a hidden file
unfoldable pub is_stealth_payload_path : Bytes → Bool
unfolding dir_part
is_stealth_payload_path v =
    let p = trim_space v in
    let base = drop (length (dir_part p)) p in
    not (p == [])
    && has_prefix base (codes ".")
    && not (base == codes ".")
    && not (base == codes "..")

unfoldable pub is_virtual_payload_staging_path : Bytes → Bool
unfolding clean base_of
is_virtual_payload_staging_path v =
    let target = clean v in
    let base = base_of target in
    (has_prefix target (codes "/dev/shm/")
      || has_prefix target (codes "/tmp/")
      || has_prefix target (codes "/var/tmp/"))
    && not (base == [])
    && not (base == codes ".")
    && not (base == codes "..")

abbrev pub digest_of : Env → Handle → Bytes
digest_of env h = elim h.hashed [
  | none ↦ env.sum256 h.content
  | some fed ↦ if h.next_offset == h.total then env.sum256 fed else env.sum256 h.content
]

unfoldable pub upload_of : Env → Handle → Upload
unfolding is_stealth_payload_path is_virtual_payload_staging_path
upload_of env h =
    let kind = infer_virtual_file_kind h.path h.content in
    let payload_kind = (kind == codes "script") || contains (to_lower kind) (codes "elf") in
    record {
      path = h.path;
      total = h.total;
      sum = digest_of env h;
      kind = kind;
      is_payload =
          payload_kind
          && (is_virtual_payload_staging_path h.path || is_stealth_payload_path h.path);
    }

abbrev pub with_size : Bytes → ℕ → World → World
with_size target size w = record w {
  file_meta =
      insert target (record (meta_or (lookup target w.file_meta)) { size = size }) w.file_meta;
}

abbrev pub drop_handle : Bytes → World → Sftp → Sftp
drop_handle name w s = record s { world = w; handles = remove name s.handles }

-- A file that was open for writing is stored when it is closed.
abbrev pub store_handle : Env → ℕ → Bytes → Handle → Bool × World → Sftp → Outcome
store_handle env id name h (false, w) s = replied (full_reply id) (drop_handle name w s)
store_handle env id name h (true, w) s =
    replied (ok_reply id) (record (drop_handle name (with_size h.path h.total w) s) {
      uploads = upload_of env h ∷ s.uploads;
    })

unfoldable pub close_at : Env → ℕ → Bytes → Option Handle → Sftp → Outcome
unfolding upload_of
close_at env id name none s = replied (failure_reply id) s
close_at env id name (some h) s =
    if h.write
    then store_handle env id name h (set_virtual_file h.path h.content env.now s.world) s
    else replied (ok_reply id) (drop_handle name s.world s)

unfoldable pub close_request : Env → ℕ → Bytes → Sftp → Outcome
unfolding close_at
close_request env id body s =
    or_failure id s
      (do (name, r) ← get_string body; some (close_at env id name (lookup name s.handles) s))
