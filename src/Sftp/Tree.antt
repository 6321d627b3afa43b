-- ===== src/Sftp/Tree.antt =====
-- The requests about names: attributes, rename, remove, directories and their listing.
use Prim.Native.Nat.{bit_and}
use zent_loop.Common.{
  sort_names, ℕ, ◌+◌, ◌%◌, ◌^◌, Bool, true, false, not, ◌&&◌, ◌||◌, List, [], ◌∷◌, ◌++◌, Bytes,
  nat_eq, bytes_eq, Option, none, some, ◌==◌, if◌then◌else◌, length, Map, lookup, insert, remove,
  ◌>>=◌, or_else,
}
use zent_loop.Files.{
  World, resolve, virtual_read_file, set_virtual_file, set_virtual_dir, delete_virtual_file,
  is_missing, dir_or, mode_or, content_or,
}
use zent_loop.Files.Paths.{dir_of, base_of, join_paths}
use zent_loop.Sftp.{
  Handle, Sftp, Env, Outcome, replied, decimal, ok_reply, eof_reply, missing_reply, failure_reply,
  meta_or, attrs_for_world,
}
use zent_loop.Sftp.Wire.{put_u32, put_string, get_u32, get_u64, get_string}
use zent_loop.Sftp.Handles.{or_failure, has_bits, handle_reply, new_handle}

-- A request whose only argument is a path.
abbrev pub on_path : (ℕ → Bytes → Sftp → Outcome) → ℕ → Bytes → Sftp → Outcome
on_path f id body s =
    or_failure id s (do (p, r) ← get_string body; some (f id (resolve p s.world) s))

unfoldable pub realpath_at : Env → ℕ → Bytes → Sftp → Outcome
unfolding attrs_for_world
realpath_at env id target s =
    replied
      (104 ∷ put_u32 id
        ++ put_u32 1
        ++ put_string target
        ++ put_string target
        ++ attrs_for_world env s.world target)
      s

unfoldable pub stat_at : Env → ℕ → Bytes → Sftp → Outcome
unfolding attrs_for_world
stat_at env id target s =
    if is_missing (virtual_read_file env.dynamic target s.world)
      && not (dir_or (lookup target s.world.dirs))
    then replied (missing_reply id) s
    else replied (105 ∷ put_u32 id ++ attrs_for_world env s.world target) s

unfoldable pub remove_at : Env → ℕ → Bytes → Sftp → Outcome
remove_at env id target s =
    if is_missing (virtual_read_file env.dynamic target s.world)
    then replied (missing_reply id) s
    else replied (ok_reply id) (record s { world = delete_virtual_file target s.world })

unfoldable pub mkdir_at : ℕ → Bytes → Sftp → Outcome
mkdir_at id target s =
    let (good, w) = set_virtual_dir target s.world in
    replied (if good then ok_reply id else failure_reply id) (record s { world = w })

unfoldable pub rmdir_at : ℕ → Bytes → Sftp → Outcome
rmdir_at id target s =
    if dir_or (lookup target s.world.dirs)
    then replied (ok_reply id)
        (record s { world = record s.world { dirs = remove target s.world.dirs } })
    else replied (missing_reply id) s

-- The file moves with its size, time, kind, mode and attributes.
abbrev pub move_file : Bytes → Bytes → World → World → World
move_file old new before w = delete_virtual_file old (record w {
  file_meta = insert new (meta_or (lookup old before.file_meta)) w.file_meta;
  file_modes = insert new (mode_or (lookup old before.file_modes)) w.file_modes;
  file_attrs = insert new (content_or (lookup old before.file_attrs)) w.file_attrs;
})

abbrev pub moved : ℕ → Bytes → Bytes → Bool × World → Sftp → Outcome
moved id old new (true, w) s =
    replied (ok_reply id) (record s { world = move_file old new s.world w })
moved id old new (false, w) s = replied (missing_reply id) (record s { world = w })

abbrev pub rename_found : Env → ℕ → Bytes → Bytes → Option Bytes → Sftp → Outcome
rename_found env id old new none s = replied (missing_reply id) s
rename_found env id old new (some content) s =
    moved id old new (set_virtual_file new content env.now s.world) s

unfoldable pub rename_at : Env → ℕ → Bytes → Bytes → Sftp → Outcome
rename_at env id old new s =
    rename_found env id old new (virtual_read_file env.dynamic old s.world) s

unfoldable pub rename_request : Env → ℕ → Bytes → Sftp → Outcome
unfolding rename_at
rename_request env id body s = or_failure id s (do
  (old, r) ← get_string body
  (new, r2) ← get_string r
  some (rename_at env id (resolve old s.world) (resolve new s.world) s))

-- A number that is skipped; where it is missing, nothing is skipped.
abbrev pub skip : (Bytes → Option (ℕ × Bytes)) → Bytes → Bytes
skip get v = or_else (get v >>= λ (n, rest). some rest) v

abbrev pub skip_if : Bool → Bytes → (Bytes → Bytes) → Bytes
skip_if true v f = f v
skip_if false v f = v

-- The permissions that the attributes ask for: behind the size and the two owners, where flagged.
abbrev pub asked_mode : ℕ → Bytes → Option ℕ
asked_mode flags r =
    let behind_size = skip_if (has_bits flags 1) r (skip get_u64) in
    let behind_owners =
      skip_if (has_bits flags 2) behind_size (λ v. skip get_u32 (skip get_u32 v)) in
    if has_bits flags 4 then get_u32 behind_owners >>= (λ (perm, rest). some perm) else none

abbrev pub set_mode : Bytes → Option ℕ → World → World
set_mode target none w = w
set_mode target (some perm) w = record w {
  file_modes = insert target (bit_and perm 4095) w.file_modes;
}

unfoldable pub setstat_at : Env → ℕ → Bytes → ℕ → Bytes → Sftp → Outcome
setstat_at env id target flags r s =
    let no_file = is_missing (virtual_read_file env.dynamic target s.world) in
    let set : Sftp = record s { world = set_mode target (asked_mode flags r) s.world } in
    if no_file
    then replied (if dir_or (lookup target s.world.dirs) then ok_reply id else missing_reply id) s
    else replied (ok_reply id) set

unfoldable pub setstat_request : Env → ℕ → Bytes → Sftp → Outcome
unfolding setstat_at
setstat_request env id body s = or_failure id s (do
  (p, r) ← get_string body
  (flags, r2) ← get_u32 r
  some (setstat_at env id (resolve p s.world) flags r2 s))

unfoldable pub opendir_at : ℕ → Bytes → Sftp → Outcome
opendir_at id target s =
    let name = b'd' ∷ decimal s.next_handle in
    let handle : Handle = record (new_handle target false false []) { dir = true } in
    if dir_or (lookup target s.world.dirs)
    then replied (handle_reply id name)
        (record s { handles = insert name handle s.handles; next_handle = s.next_handle + 1 })
    else replied (missing_reply id) s

unfoldable pub names_below {ℓ} : {V : Type ℓ} → Bytes → Bool → Map Bytes V → List Bytes
unfolding dir_of base_of
names_below dir strict [] = []
names_below dir strict ((p, v) ∷ m) =
    let others = names_below dir strict m in
    if (dir_of p == dir) && not (strict && (p == dir)) then base_of p ∷ others else others

unfoldable pub list_names : Env → World → Bytes → List Bytes → Bytes
unfolding attrs_for_world join_paths
list_names env w dir [] = []
list_names env w dir (name ∷ names) =
    put_string name
    ++ put_string name
    ++ attrs_for_world env w (join_paths dir name)
    ++ list_names env w dir names

unfoldable pub readdir_at : Env → ℕ → Bytes → Option Handle → Sftp → Outcome
unfolding names_below sort_names list_names
readdir_at env id name none s = replied (eof_reply id) s
readdir_at env id name (some h) s =
    if not h.dir || h.listed
    then replied (eof_reply id) s
    else let names =
        sort_names
          (names_below h.path true s.world.dirs ++ names_below h.path false s.world.files) in
      replied
        (104 ∷ put_u32 id ++ put_u32 (length names % 2 ^ 32) ++ list_names env s.world h.path names)
        (record s { handles = insert name (record h { listed = true }) s.handles })

unfoldable pub readdir_request : Env → ℕ → Bytes → Sftp → Outcome
unfolding readdir_at
readdir_request env id body s =
    or_failure id s
      (do (name, r) ← get_string body; some (readdir_at env id name (lookup name s.handles) s))
