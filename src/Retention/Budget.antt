-- ===== src/Retention/Budget.antt =====
-- Cutting the logs down to a budget (`compactJSONLStorageBudget`), and the sweep (`pruneExpired`).
use zent_loop.Common.{
  ℕ, ◌+◌, ◌-◌, ◌*◌, ◌/◌, ◌%◌, ◌^◌, Bool, true, false, not, ◌||◌, List, [], ◌∷◌, Bytes, nat_eq,
  Option, ltb, leb, ◌==◌, if◌then◌else◌,
}
use zent_loop.Retention.{Log, Io, size_of, compact_jsonl, compact_jsonl_tail}

abbrev pub storage_pressure_crit_bytes : ℕ
storage_pressure_crit_bytes = 2 ^ 30

abbrev pub storage_pressure_target_total_bytes : ℕ
storage_pressure_target_total_bytes = 768 * 2 ^ 20

abbrev pub at_least_one : ℕ → ℕ
at_least_one n = if ltb n 1 then 1 else n

abbrev pub at_most : ℕ → ℕ → ℕ
at_most size n = if ltb size n then size else n

-- The share of a file of what is left of the target. The product is a signed 64-bit number; a negative
-- one gives no more than 0. What is left of the target may be negative in the program, from shares
-- that were raised to 1: then it is 0 here, which gives the same share.
unfoldable pub share_of : ℕ → ℕ → ℕ → ℕ
share_of target size total =
    let product = target * size % 2 ^ 64 in
    let part = if leb (2 ^ 63) product then 0 else product / total in
    at_most size (if ltb 0 total then at_least_one part else 1)

abbrev pub total_size : List Log → ℕ
total_size [] = 0
total_size (f ∷ files) = size_of f.content + total_size files

abbrev pub logs : List (Io × Log) → List Log
logs [] = []
logs ((io, f) ∷ files) = f ∷ logs files

-- The loop over the files; the first error ends it.
unfoldable pub cut_files : ℕ → ℕ → List (Io × Log) → Bool × List Log
unfolding share_of
cut_files target total [] = (true, [])
cut_files target total ((io, f) ∷ files) =
    let size = size_of f.content in
    let share = share_of target size total in
    let cut = compact_jsonl_tail io share f in
    let others = cut_files (target - share) (total - size) files in
    let skipped = cut_files target total files in
    if size == 0
    then (skipped.0, f ∷ skipped.1)
    else if cut.0
    then (others.0, cut.1 ∷ others.1)
    else (false, cut.1 ∷ logs files)

-- compactJSONLStorageBudget
unfoldable pub compact_jsonl_storage_budget : ℕ → List (Io × Log) → Bool × List Log
unfolding cut_files
compact_jsonl_storage_budget target files =
    let total = total_size (logs files) in
    if (target == 0) || leb total target then (true, logs files) else cut_files target total files

-- The first loop of the sweep: every log is compacted, up to the first error.
unfoldable pub compact_all : (Bytes → Option ℕ) → ℕ → List (Io × Log) → Bool × List Log
compact_all stamp cutoff [] = (true, [])
compact_all stamp cutoff ((io, f) ∷ files) =
    let done = compact_jsonl io stamp cutoff f in
    let others = compact_all stamp cutoff files in
    if done.0 then (others.0, done.1 ∷ others.1) else (false, done.1 ∷ logs files)

abbrev pub with_ios : List Io → List Log → List (Io × Log)
with_ios (io ∷ ios) (f ∷ files) = (io, f) ∷ with_ios ios files
with_ios ios files = []

-- The logs in `pruneExpired`. `ios` are the outcomes of the calls of the second step.
unfoldable pub prune_expired : (Bytes → Option ℕ) → ℕ → List Io → List (Io × Log) → Bool × List Log
unfolding compact_all compact_jsonl_storage_budget
prune_expired stamp cutoff ios files =
    let (good, compacted) = compact_all stamp cutoff files in
    if not good
    then (false, compacted)
    else if leb storage_pressure_crit_bytes (total_size compacted)
    then compact_jsonl_storage_budget storage_pressure_target_total_bytes (with_ios ios compacted)
    else (true, compacted)
