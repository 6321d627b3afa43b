-- ===== src/Files/Examples.antt =====
-- Tests of the virtual file system, and its theorems at concrete files.
use zent_loop.Common.{
  [], ◌∷◌, ◌++◌, bytes_eq, codes, some, ◌≡◌, refl, true, false, arith, lookup, insert,
}
use zent_loop.Files.{World, set_virtual_file, append_virtual_file, limit_to, virtual_storage_bytes}
use zent_loop.Files.Paths.{clean, valid_string}
use zent_loop.Files.Bounds.{
  IsValid, set_file, append_file, make_dir, delete_file, apply_all, apply_all-IsValid,
}
use zent_loop.Files.Contents.{Outcome, set_virtual_file_lem, append-set_virtual_file}

cleaned : clean (codes "/a//b/../c/./d/") ≡ codes "/a/c/d"
unfolding clean
cleaned = refl

cleaned_up : clean (codes "../x/../..") ≡ codes "../.."
unfolding clean
cleaned_up = refl

-- A euro sign, and one without its last byte.
euro : valid_string (226 ∷ 130 ∷ 172 ∷ []) ≡ true
unfolding valid_string
euro = refl

half_euro : valid_string (226 ∷ 130 ∷ []) ≡ false
unfolding valid_string
half_euro = refl

cut_euro : limit_to 3 (b'a' ∷ 226 ∷ 130 ∷ 172 ∷ []) ≡ b'a' ∷ []
unfolding limit_to
cut_euro = refl

abbrev empty_world : World
empty_world = record {
  cwd = codes "/root";
  home_dir = codes "/root";
  files = [];
  dirs = [];
  file_meta = [];
  file_modes = [];
  file_attrs = [];
}

empty_world-IsValid : IsValid empty_world
unfolding virtual_storage_bytes
empty_world-IsValid = (tt, omega arith, tt, omega arith, omega arith)

apply_all-IsValid_example : IsValid (
    apply_all
      (set_file (codes "/tmp/a") (codes "one") 1
        ∷ append_file (codes "/tmp/a") (codes "two") 2
        ∷ make_dir (codes "/tmp/d")
        ∷ delete_file (codes "/tmp/a")
        ∷ [])
      empty_world)
apply_all-IsValid_example =
    apply_all-IsValid
      (set_file (codes "/tmp/a") (codes "one") 1
        ∷ append_file (codes "/tmp/a") (codes "two") 2
        ∷ make_dir (codes "/tmp/d")
        ∷ delete_file (codes "/tmp/a")
        ∷ [])
      empty_world empty_world-IsValid

set_virtual_file_lem_example :
    Outcome
      (clean (codes "/tmp/a"))
      (codes "one")
      1
      empty_world
      (set_virtual_file (codes "/tmp/a") (codes "one") 1 empty_world)
set_virtual_file_lem_example = set_virtual_file_lem (codes "/tmp/a") (codes "one") 1 empty_world

set_granted : (set_virtual_file (codes "/tmp/a") (codes "one") 1 empty_world).0 ≡ true
unfolding set_virtual_file lookup virtual_storage_bytes limit_to
set_granted = refl

append_granted :
    (append_virtual_file
      (codes "/tmp/a")
      (codes "two")
      2
      (set_virtual_file (codes "/tmp/a") (codes "one") 1 empty_world).1).0
    ≡ true
unfolding set_virtual_file append_virtual_file lookup insert virtual_storage_bytes limit_to
append_granted = refl

append-set_virtual_file_example :
    lookup
      (clean (codes "/tmp/a"))
      (append_virtual_file
        (codes "/tmp/a")
        (codes "two")
        2
        (set_virtual_file (codes "/tmp/a") (codes "one") 1 empty_world).1).1.files
    ≡ some (codes "one" ++ codes "two")
append-set_virtual_file_example =
    append-set_virtual_file (codes "/tmp/a") (codes "one") (codes "two") 1 2 empty_world set_granted
      append_granted (omega arith)
