-- ===== src/Retention.antt =====
-- The event logs and their retention (internal/store/retention.go). A log is the bytes of its file, or
-- none where there is no file, and what the store holds to write to it. The outcome of every call of
-- the file system is an input.
pub mod Lines
pub mod Compact
pub mod Budget
pub mod Shares
mod Examples
use zent_loop.Common.{
  ℕ, zero, suc, ◌+◌, ◌-◌, ◌*◌, ◌/◌, ◌%◌, ◌^◌, ◌≤◌, Bool, true, false, not, ◌&&◌, ◌||◌, List, [],
  ◌∷◌, ◌++◌, Bytes, nat_eq, Option, none, some, ltb, leb, ◌==◌, if◌then◌else◌, length, take, drop,
  push_first,
}

-- The store holds no file for the log, none after it closed it, an open one, or one whose closing
-- failed: that one can be used no more (its next sync fails, if it is tried), but the store keeps it.
pub data Active : Type 0 where
  absent closed opened broken : Active

pub record Log : Type 0 where
  pub content : Option Bytes
  pub active : Active

-- Which calls succeed: on the open file, on the log, on the copy, and the last opening.
pub record Io : Type 0 where
  pub sync_active : Bool
  pub close_active : Bool
  pub stat : Bool
  pub open_source : Bool
  pub seek : Bool
  pub open_temporary : Bool
  pub copy : Bool
  pub sync_copy : Bool
  pub close_copy : Bool
  pub rename : Bool
  pub reopen : Bool

-- Opening with O_CREATE makes a file that is not there.
abbrev pub created : Option Bytes → Option Bytes
created none = some []
created (some v) = some v

abbrev pub opened_again : Bool → Log → Bool × Log
opened_again true f = (true, record { content = created f.content; active = opened })
opened_again false f = (false, f)

-- `reopen` of both compactions
abbrev pub reopen_if : Active → Io → Log → Bool × Log
reopen_if absent io f = (true, f)
reopen_if closed io f = opened_again io.reopen f
reopen_if opened io f = opened_again io.reopen f
reopen_if broken io f = opened_again io.reopen f

abbrev pub reopen_log : Io → Log → Bool × Log
reopen_log io f = reopen_if f.active io f

-- An error after the file was closed.
abbrev pub give_up : Io → Log → Bool × Log
give_up io f = (false, (reopen_log io f).1)

-- `(*active).Sync()` and `(*active).Close()`
abbrev pub sync_and_close : Io → Log → (Log → Bool × Log) → Bool × Log
sync_and_close io f next =
    if not io.sync_active
    then (false, f)
    else if not io.close_active
    then (false, record f { active = broken })
    else next (record f { active = closed })

-- A file that the store holds is synced and closed first.
abbrev pub release_if : Active → Io → Log → (Log → Bool × Log) → Bool × Log
release_if opened io f next = sync_and_close io f next
release_if broken io f next = sync_and_close io f next
release_if absent io f next = next f
release_if closed io f next = next f

abbrev pub release : Io → Log → (Log → Bool × Log) → Bool × Log
release io f next = release_if f.active io f next

-- bufio.ScanLines, without the removal of a carriage return
unfoldable pub scan_lines : Bytes → List Bytes
scan_lines [] = []
scan_lines (c ∷ v) = let rest = scan_lines v in if c == 10 then [] ∷ rest else push_first c rest

unfoldable pub drop_cr : Bytes → Bytes
drop_cr [] = []
drop_cr (c ∷ v) = let rest = drop_cr v in if (c == 13) && (length v == 0) then [] else c ∷ rest

-- The largest line that the scanner takes, with its line feed.
abbrev pub max_line : ℕ
max_line = 2 * 1024 * 1024

-- A line has a time that is not before the cutoff. 0 is the zero time; a line without a time, or that
-- is no JSON, has none.
abbrev pub is_live : ℕ → Option ℕ → Bool
is_live cutoff none = false
is_live cutoff (some at) = not (at == 0) && not (ltb at cutoff)

abbrev pub before : Bytes → Option Bytes → Option Bytes
before line none = none
before line (some w) = some (line ++ 10 ∷ w)

-- What is copied of the lines, or an error where a line is too long.
unfoldable pub copy_lines : (Bytes → Option ℕ) → ℕ → List Bytes → Option Bytes
unfolding drop_cr
copy_lines stamp cutoff [] = some []
copy_lines stamp cutoff (raw ∷ raws) =
    let line = drop_cr raw in
    let rest = copy_lines stamp cutoff raws in
    if leb max_line (length raw)
    then none
    else if is_live cutoff (stamp line)
    then before line rest
    else rest

abbrev pub replace_log : Io → Log → Option Bytes → Bool × Log
replace_log io f none = give_up io f
replace_log io f (some w) =
    if not io.copy || not io.sync_copy || not io.close_copy || not io.rename
    then give_up io f
    else reopen_log io (record f { content = some w })

abbrev pub compact_from : Io → (Bytes → Option ℕ) → ℕ → Log → Option Bytes → Bool × Log
compact_from io stamp cutoff f none = reopen_log io f
compact_from io stamp cutoff f (some v) =
    if not io.open_source || not io.open_temporary
    then give_up io f
    else replace_log io f (copy_lines stamp cutoff (scan_lines v))

-- compactJSONL
unfoldable pub compact_jsonl : Io → (Bytes → Option ℕ) → ℕ → Log → Bool × Log
unfolding scan_lines copy_lines
compact_jsonl io stamp cutoff f = release io f (λ g. compact_from io stamp cutoff g g.content)

-- What follows the first line feed.
unfoldable pub next_line : Bytes → Bytes
next_line [] = []
next_line (c ∷ v) = let rest = next_line v in if c == 10 then v else rest

-- The newest lines that fit: the end of the file without the line that was cut.
unfoldable pub tail_lines : ℕ → Bytes → Bytes
unfolding next_line
tail_lines max v = next_line (drop (length v - max) v)

abbrev pub size_of : Option Bytes → ℕ
size_of none = 0
size_of (some v) = length v

abbrev pub tail_from : Io → ℕ → Bytes → Log → Bool × Log
tail_from io max v f =
    if not io.open_source || not io.seek || not io.open_temporary
    then give_up io f
    else replace_log io f (some (tail_lines max v))

abbrev pub tail_of_content : Io → ℕ → Log → Option Bytes → Bool × Log
tail_of_content io max f none = (true, f)
tail_of_content io max f (some v) =
    if not io.stat
    then (false, f)
    else if leb (length v) max || (max == 0)
    then (true, f)
    else release io f (tail_from io max v)

-- compactJSONLTail
unfoldable pub compact_jsonl_tail : Io → ℕ → Log → Bool × Log
unfolding tail_lines
compact_jsonl_tail io max f = tail_of_content io max f f.content
