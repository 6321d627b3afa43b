-- ===== src/Files/Contents.antt =====
-- What a written file reads as, and what a refused write leaves.
use zent_loop.Common.{
  ℕ, ◌≤◌, Bool, true, false, ◌&&◌, ◌++◌, Bytes, bytes_eq, nat_eq, Map, lookup, some, leb, ◌==◌,
  if◌then◌else◌, length, ◌≡◌, refl, arith, inl, inr, Bool-cases, lookup-insert, lookup-insert_self,
  bytes_beq_iff, length-append, ◌∙◌,
}
use zent_loop.Files.{
  World, content_or, is_missing, limit_virtual_content, can_store_virtual_content, write_file,
  store_file, set_virtual_file, append_virtual_file, max_virtual_files, max_virtual_file_bytes,
  virtual_file_immutable, mode_or, with_mode, infer_virtual_file_kind,
}
use zent_loop.Files.Paths.{clean}
use zent_loop.Files.Limits.{limit_of_short}

-- The text `whole` was written to `target`: the file keeps what the limit leaves of it, its size and
-- time are recorded, it has a mode, and no other file is touched.
abbrev pub Written : Bytes → Bytes → ℕ → World → World → Type 0
Written target whole now w t =
    let stored = limit_virtual_content whole in
    (lookup target t.file_meta
      ≡ some (record {
        size = length whole;
        mod_time = now;
        kind = infer_virtual_file_kind target stored;
      }))
    × ((mode_or (lookup target t.file_modes) == 0) ≡ false)
    × ((other : Bytes)
        → lookup other t.files ≡ (if target == other then some stored else lookup other w.files))

with_mode-set :
    (target : Bytes) (modes : Map Bytes ℕ)
    → (mode_or (lookup target (with_mode target modes)) == 0) ≡ false
with_mode-set target modes = elim (Bool-cases (mode_or (lookup target modes) == 0)) [
  | inl unset ↦ rw (unset, lookup-insert_self) (ground arith)
  | inr mode ↦ rw (mode, mode) refl
]

store_file-Written :
    (target whole : Bytes) (now : ℕ) (w : World)
    → Written target whole now w (store_file target (limit_virtual_content whole) whole now w)
store_file-Written target whole now w = (
  lookup-insert_self target _ w.file_meta,
  with_mode-set target w.file_modes,
  λ other. lookup-insert other target _ w.files,
)

-- Either the file is written, or nothing changes at all.
unfoldable pub Outcome : Bytes → Bytes → ℕ → World → Bool × World → Type 0
Outcome target whole now w (true, t) = Written target whole now w t
Outcome target whole now w (false, t) = t ≡ w

write_file-Outcome :
    (target whole : Bytes) (now : ℕ) (w : World)
    → Outcome target whole now w (write_file target whole now w)
unfolding Outcome
write_file-Outcome target whole now w = elim (Bool-cases (virtual_file_immutable target w)) [
  | inl fixed ↦ rw fixed refl
  | inr free ↦
      elim (Bool-cases
        (is_missing (lookup target w.files) && leb max_virtual_files (length w.files))) [
          | inl full ↦ rw (free, full) refl
          | inr room ↦
              elim (Bool-cases (can_store_virtual_content target (limit_virtual_content whole) w)) [
                | inl fits ↦ rw (free, room, fits) (store_file-Written target whole now w)
                | inr over ↦ rw (free, room, over) refl
              ]
        ]
]

-- Writing a text to a file under the cleaned name: it succeeds, and then every name reads as before but
-- this one, which reads as what the limit leaves of the text, with its size, time and kind on record
-- and a mode; or it fails, and the file system is as it was.
pub set_virtual_file_lem :
    (name content : Bytes) (now : ℕ) (w : World)
    → Outcome (clean name) content now w (set_virtual_file name content now w)
unfolding set_virtual_file
set_virtual_file_lem name content now w = write_file-Outcome (clean name) content now w

-- Appending a text does what writing the old text with the new one behind it would do: the file then
-- reads as what the limit leaves of both, or the file system is as it was.
pub append_virtual_file_lem :
    (name content : Bytes) (now : ℕ) (w : World)
    → Outcome
        (clean name)
        (content_or (lookup (clean name) w.files) ++ content)
        now
        w
        (append_virtual_file name content now w)
unfolding append_virtual_file
append_virtual_file_lem name content now w =
    write_file-Outcome (clean name) (content_or (lookup (clean name) w.files) ++ content) now w

Outcome-granted :
    (target whole : Bytes) (now : ℕ) (w : World) (r : Bool × World)
    → Outcome target whole now w r
    → r.0 ≡ true
    → lookup target r.1.files ≡ some (limit_virtual_content whole)
unfolding Outcome
Outcome-granted target whole now w (true, t) written h =
    rw (written.2 target) (ground (arith, bytes_beq_iff target target))
Outcome-granted target whole now w (false, t) same h = cc

-- A text that is appended to a file that was just written reads after what was written, if both fit in
-- a file together.
pub append-set_virtual_file :
    (name a b : Bytes) (now later : ℕ) (w : World)
    → (set_virtual_file name a now w).0 ≡ true
    → (append_virtual_file name b later (set_virtual_file name a now w).1).0 ≡ true
    → length (a ++ b) ≤ max_virtual_file_bytes
    → lookup
        (clean name)
        (append_virtual_file name b later (set_virtual_file name a now w).1).1.files
      ≡ some (a ++ b)
append-set_virtual_file name a b now later w set appended fits =
    let mid = (set_virtual_file name a now w).1 in
    let first = Outcome-granted (clean name) a now w _ (set_virtual_file_lem name a now w) set in
    let short : limit_virtual_content a ≡ a = limit_of_short a (omega (arith, length-append a b)) in
    let held : content_or (lookup (clean name) mid.files) ≡ a = rw (first, short) refl in
    let second =
      Outcome-granted (clean name) (content_or (lookup (clean name) mid.files) ++ b) later mid _
        (append_virtual_file_lem name b later mid) appended in
    second ∙ rw (held, limit_of_short (a ++ b) fits) refl
