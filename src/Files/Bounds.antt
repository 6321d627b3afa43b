-- ===== src/Files/Bounds.antt =====
-- The limits on the number and the sizes of files and directories.
use zent_loop.Common.{
  ℕ, ◌+◌, ◌≤◌, true, false, ◌&&◌, List, [], ◌∷◌, ◌++◌, Bytes, bytes_eq, nat_eq, Map, lookup, insert,
  remove, leb, ◌==◌, length, ◌≡◌, arith, inl, inr, Bool-cases, if_rule, Distinct, insert-Distinct,
  remove-Distinct, length-insert-le, length-remove-le,
}
use zent_loop.Files.{
  World, content_or, is_missing, dir_or, virtual_storage_bytes, limit_virtual_content,
  can_store_virtual_content, write_file, store_file, set_virtual_file, append_virtual_file,
  set_virtual_dir, delete_virtual_file, max_virtual_files, max_virtual_dirs, max_virtual_file_bytes,
  max_virtual_total_bytes, virtual_file_immutable,
}
use zent_loop.Files.Paths.{clean}
use zent_loop.Files.Limits.{limit_virtual_content_lem}

-- No file keeps more than 16 KiB.
abbrev pub Short : Map Bytes Bytes → Type 0
Short [] = Unit
Short ((k, v) ∷ m) = (length v ≤ max_virtual_file_bytes) × Short m

abbrev pub IsValid : World → Type 0
IsValid w =
    Distinct w.files
    × (length w.files ≤ max_virtual_files)
    × Short w.files
    × (virtual_storage_bytes w.files ≤ max_virtual_total_bytes)
    × (length w.dirs ≤ max_virtual_dirs)

insert-Short :
    (k v : Bytes) (m : Map Bytes Bytes)
    → length v ≤ max_virtual_file_bytes
    → Short m
    → Short (insert k v m)
unfolding insert
insert-Short k v [] h short = (h, tt)
insert-Short k v ((j, x) ∷ m) h short =
    if_rule Short (j == k) ((k, v) ∷ m) ((j, x) ∷ insert k v m) (λ _. (h, short.1))
      (λ _. (short.0, insert-Short k v m h short.1))

remove-Short : (k : Bytes) (m : Map Bytes Bytes) → Short m → Short (remove k m)
unfolding remove
remove-Short k [] short = tt
remove-Short k ((j, x) ∷ m) short =
    if_rule Short (j == k) (remove k m) ((j, x) ∷ remove k m) (λ _. remove-Short k m short.1)
      (λ _. (short.0, remove-Short k m short.1))

storage-insert :
    (k v : Bytes) (m : Map Bytes Bytes)
    → virtual_storage_bytes (insert k v m) + length (content_or (lookup k m))
      ≡ virtual_storage_bytes m + length v
unfolding virtual_storage_bytes insert lookup
storage-insert k v [] = omega arith
storage-insert k v ((j, x) ∷ m) = ground (arith, storage-insert k v m)

storage-lookup :
    (k : Bytes) (m : Map Bytes Bytes) → length (content_or (lookup k m)) ≤ virtual_storage_bytes m
unfolding virtual_storage_bytes lookup
storage-lookup k [] = omega arith
storage-lookup k ((j, x) ∷ m) = ground (arith, storage-lookup k m)

storage-remove-le :
    (k : Bytes) (m : Map Bytes Bytes) → virtual_storage_bytes (remove k m) ≤ virtual_storage_bytes m
unfolding virtual_storage_bytes remove
storage-remove-le k [] = omega arith
storage-remove-le k ((j, x) ∷ m) = ground (arith, storage-remove-le k m)

length-insert_of_present :
    (k v : Bytes) (m : Map Bytes Bytes)
    → is_missing (lookup k m) ≡ false
    → length (insert k v m) ≡ length m
unfolding lookup insert
length-insert_of_present k v [] h = cc
length-insert_of_present k v ((j, x) ∷ m) h = ground (arith, length-insert_of_present k v m)

store_file-IsValid :
    (target whole : Bytes) (now : ℕ) (w : World)
    → (is_missing (lookup target w.files) && leb max_virtual_files (length w.files)) ≡ false
    → can_store_virtual_content target (limit_virtual_content whole) w ≡ true
    → IsValid w
    → IsValid (store_file target (limit_virtual_content whole) whole now w)
unfolding can_store_virtual_content
store_file-IsValid target whole now w room fits (distinct, few, short, total, dirs) =
    let stored = limit_virtual_content whole in
    (
      insert-Distinct target stored w.files distinct,
      ground (
        arith,
        length-insert_of_present target stored w.files,
        length-insert-le target stored w.files,
      ),
      insert-Short target stored w.files (limit_virtual_content_lem whole).0 short,
      ground (arith, storage-insert target stored w.files, storage-lookup target w.files),
      dirs,
    )

pub write_file-IsValid :
    (target whole : Bytes) (now : ℕ) (w : World)
    → IsValid w
    → IsValid (write_file target whole now w).1
write_file-IsValid target whole now w v = elim (Bool-cases (virtual_file_immutable target w)) [
  | inl fixed ↦ rw fixed v
  | inr free ↦
      elim (Bool-cases
        (is_missing (lookup target w.files) && leb max_virtual_files (length w.files))) [
          | inl full ↦ rw (free, full) v
          | inr room ↦
              elim (Bool-cases (can_store_virtual_content target (limit_virtual_content whole) w)) [
                | inl fits ↦
                    rw (free, room, fits) (store_file-IsValid target whole now w room fits v)
                | inr over ↦ rw (free, room, over) v
              ]
        ]
]

pub set_virtual_dir-IsValid :
    (target : Bytes) (w : World) → IsValid w → IsValid (set_virtual_dir target w).1
unfolding set_virtual_dir
set_virtual_dir-IsValid target w v = elim (Bool-cases (dir_or (lookup target w.dirs))) [
  | inl there ↦ rw there v
  | inr new ↦ elim (Bool-cases (leb max_virtual_dirs (length w.dirs))) [
    | inl full ↦ rw (new, full) v
    | inr room ↦
        rw (new, room) (v.0, v.1, v.2, v.3, ground (arith, length-insert-le target true w.dirs))
  ]
]

-- The operations that change files or directories.
pub data Change : Type 0 where
  set_file append_file : Bytes → Bytes → ℕ → Change
  make_dir delete_file : Bytes → Change

unfoldable pub apply : Change → World → World
unfolding set_virtual_file append_virtual_file set_virtual_dir delete_virtual_file
apply (set_file name content now) w = (set_virtual_file name content now w).1
apply (append_file name content now) w = (append_virtual_file name content now w).1
apply (make_dir target) w = (set_virtual_dir target w).1
apply (delete_file target) w = delete_virtual_file target w

unfoldable pub apply_all : List Change → World → World
unfolding apply
apply_all [] w = w
apply_all (change ∷ changes) w = apply_all changes (apply change w)

pub apply-IsValid : (change : Change) (w : World) → IsValid w → IsValid (apply change w)
unfolding apply
apply-IsValid (set_file name content now) w v = write_file-IsValid (clean name) content now w v
apply-IsValid (append_file name content now) w v =
    write_file-IsValid (clean name) (content_or (lookup (clean name) w.files) ++ content) now w v
apply-IsValid (make_dir target) w v = set_virtual_dir-IsValid target w v
apply-IsValid (delete_file target) w v = (
  remove-Distinct target w.files v.0,
  omega (arith, length-remove-le target w.files),
  remove-Short target w.files v.2,
  omega (arith, storage-remove-le target w.files),
  v.4,
)

-- Whatever files and directories are written, appended to, made and deleted in whatever order, in a
-- world within its limits there are never more than 512 files and 256 directories, none of the files keeps more than 16 KiB, and all
-- of them together no more than 512 KiB.
pub apply_all-IsValid :
    (changes : List Change) (w : World) → IsValid w → IsValid (apply_all changes w)
unfolding apply_all
apply_all-IsValid [] w v = v
apply_all-IsValid (change ∷ changes) w v =
    apply_all-IsValid changes (apply change w) (apply-IsValid change w v)
