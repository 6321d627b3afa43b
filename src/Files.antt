-- ===== src/Files.antt =====
-- The virtual file system of the SSH trap (internal/server/trap_ssh_shell.go and
-- internal/server/trap_ssh_os_reality.go): its files, directories, modes and attributes, with their
-- limits. `now` is the virtual clock.
pub mod Paths
pub mod Limits
pub mod Bounds
pub mod Contents
mod Examples
use zent_loop.Common.{
  ℕ, zero, suc, ◌+◌, ◌-◌, ◌*◌, Bool, true, false, not, ◌&&◌, ◌||◌, List, [], ◌∷◌, ◌++◌, Bytes,
  bytes_eq, nat_eq, codes, Option, none, some, ltb, leb, ◌==◌, if◌then◌else◌, Map, lookup, insert,
  remove, length, take, has_prefix, has_suffix, trim_prefix, trim_space, to_lower, contains,
  bytes_beq,
}
use Paths.{clean, join_paths, valid_string}

abbrev pub max_virtual_files : ℕ
max_virtual_files = 512

abbrev pub max_virtual_dirs : ℕ
max_virtual_dirs = 256

abbrev pub max_virtual_file_bytes : ℕ
max_virtual_file_bytes = 16 * 1024

abbrev pub max_virtual_total_bytes : ℕ
max_virtual_total_bytes = 512 * 1024

pub record FileMeta : Type 0 where
  pub size : ℕ
  pub mod_time : ℕ
  pub kind : Bytes

-- The fields of `virtualSSHWorld` that the file operations use.
pub record World : Type 0 where
  pub cwd : Bytes
  pub home_dir : Bytes
  pub files : Map Bytes Bytes
  pub dirs : Map Bytes Bool
  pub file_meta : Map Bytes FileMeta
  pub file_modes : Map Bytes ℕ
  pub file_attrs : Map Bytes Bytes

-- What Go reads for a key that is missing.
abbrev pub content_or : Option Bytes → Bytes
content_or none = []
content_or (some v) = v

abbrev pub dir_or : Option Bool → Bool
dir_or none = false
dir_or (some d) = d

abbrev pub mode_or : Option ℕ → ℕ
mode_or none = 0
mode_or (some m) = m

abbrev pub is_missing : Option Bytes → Bool
is_missing none = true
is_missing (some v) = false

unfoldable pub virtual_file_immutable : Bytes → World → Bool
unfolding clean contains
virtual_file_immutable target w =
    contains (content_or (lookup (clean target) w.file_attrs)) (codes "i")

unfoldable pub virtual_storage_bytes : Map Bytes Bytes → ℕ
virtual_storage_bytes [] = 0
virtual_storage_bytes ((k, v) ∷ m) = length v + virtual_storage_bytes m

-- Bytes are dropped from the end until the rest is UTF-8; the fuel is the length.
unfoldable pub drop_broken : ℕ → Bytes → Bytes
unfolding valid_string
drop_broken zero v = v
drop_broken (suc fuel) v =
    let shorter = drop_broken fuel (take (length v - 1) v) in
    if not (length v == 0) && not (valid_string v) then shorter else v

unfoldable pub limit_to : ℕ → Bytes → Bytes
unfolding drop_broken
limit_to n v = if leb (length v) n then v else drop_broken n (take n v)

unfoldable pub limit_virtual_content : Bytes → Bytes
limit_virtual_content v = limit_to max_virtual_file_bytes v

unfoldable pub can_store_virtual_content : Bytes → Bytes → World → Bool
can_store_virtual_content target stored w =
    leb
      (virtual_storage_bytes w.files - length (content_or (lookup target w.files)) + length stored)
      max_virtual_total_bytes

unfoldable pub infer_virtual_file_kind : Bytes → Bytes → Bytes
unfolding has_suffix has_prefix to_lower
infer_virtual_file_kind name content =
    let lower = to_lower name in
    if has_suffix lower (codes ".tar.gz") || has_suffix lower (codes ".tgz")
    then codes "tar-gzip"
    else if has_suffix lower (codes ".gz") || has_prefix content (31 ∷ 139 ∷ [])
    then codes "gzip"
    else if has_suffix lower (codes ".zip") || has_prefix content (codes "PK" ++ 3 ∷ 4 ∷ [])
    then codes "zip"
    else if has_suffix lower (codes ".json")
    then codes "json"
    else if has_suffix lower (codes ".html") || has_suffix lower (codes ".htm")
    then codes "html"
    else if has_suffix lower (codes ".csv")
    then codes "csv"
    else if has_suffix lower (codes ".sh")
        || has_suffix lower (codes ".bash")
        || has_prefix content (codes "#!/bin/sh")
        || has_prefix content (codes "#!/bin/bash")
    then codes "shell"
    else if has_suffix lower (codes ".deb")
    then codes "deb"
    else if has_suffix lower (codes ".rpm")
    then codes "rpm"
    else if has_suffix lower (codes ".so")
        || has_suffix lower (codes ".bin")
        || has_prefix content (127 ∷ codes "ELF")
    then codes "elf"
    else codes "text"

-- A mode that was never set, or set to zero, becomes 0644.
abbrev pub with_mode : Bytes → Map Bytes ℕ → Map Bytes ℕ
with_mode target modes =
    if mode_or (lookup target modes) == 0 then insert target 420 modes else modes

-- The write itself: `whole` is the text that was to be written, of which `stored` is kept.
abbrev pub store_file : Bytes → Bytes → Bytes → ℕ → World → World
store_file target stored whole now w = record w {
  files = insert target stored w.files;
  file_meta =
      insert target
        (record {
          size = length whole;
          mod_time = now;
          kind = infer_virtual_file_kind target stored;
        })
        w.file_meta;
  file_modes = with_mode target w.file_modes;
}

-- Both writers, from their common first check on: `whole` is the text that the file is to have.
abbrev pub write_file : Bytes → Bytes → ℕ → World → Bool × World
write_file target whole now w =
    let stored = limit_virtual_content whole in
    if virtual_file_immutable target w
    then (false, w)
    else if is_missing (lookup target w.files) && leb max_virtual_files (length w.files)
    then (false, w)
    else if not (can_store_virtual_content target stored w)
    then (false, w)
    else (true, store_file target stored whole now w)

unfoldable pub set_virtual_file : Bytes → Bytes → ℕ → World → Bool × World
unfolding clean virtual_file_immutable limit_virtual_content can_store_virtual_content
set_virtual_file name content now w = write_file (clean name) content now w

unfoldable pub append_virtual_file : Bytes → Bytes → ℕ → World → Bool × World
unfolding clean virtual_file_immutable limit_virtual_content can_store_virtual_content
append_virtual_file name content now w =
    let target = clean name in
    write_file target (content_or (lookup target w.files) ++ content) now w

unfoldable pub set_virtual_dir : Bytes → World → Bool × World
set_virtual_dir target w =
    if dir_or (lookup target w.dirs)
    then (true, w)
    else if leb max_virtual_dirs (length w.dirs)
    then (false, w)
    else (true, record w { dirs = insert target true w.dirs })

unfoldable pub delete_virtual_file : Bytes → World → World
delete_virtual_file target w = record w {
  files = remove target w.files;
  file_meta = remove target w.file_meta;
  file_modes = remove target w.file_modes;
  file_attrs = remove target w.file_attrs;
}

unfoldable pub resolve : Bytes → World → Bytes
unfolding clean join_paths trim_space has_prefix trim_prefix
resolve name w =
    let v = trim_space name in
    if (v == []) || (v == codes ".")
    then w.cwd
    else if v == codes "~"
    then w.home_dir
    else if has_prefix v (codes "~/")
    then clean (join_paths w.home_dir (trim_prefix v (codes "~/")))
    else if has_prefix v (codes "/")
    then clean v
    else clean (join_paths w.cwd v)

-- `dynamic` is `virtualDynamicFile`: the files below /proc and the like that are made on reading.
abbrev read_static : Option Bytes → Option Bytes → Option Bytes
read_static (some content) stored = some content
read_static none stored = stored

unfoldable pub virtual_read_file : (Bytes → Option Bytes) → Bytes → World → Option Bytes
unfolding resolve
virtual_read_file dynamic name w =
    let target = resolve name w in
    if target == codes "/dev/null"
    then some []
    else read_static (dynamic target) (lookup target w.files)
