-- ===== src/Retention/Examples.antt =====
-- Tests of the retention, and its theorems at concrete logs.
use zent_loop.Common.{
  ℕ, ◌≤◌, true, false, List, [], ◌∷◌, ◌++◌, Bytes, codes, keep, length, Option, none, some, ◌≡◌,
  ◌⊎◌, refl, arith, last_or,
}
use zent_loop.Retention.{
  opened, broken, Log, is_live, scan_lines, copy_lines, compact_jsonl, tail_lines,
}
use zent_loop.Retention.Lines.{
  fine, log_text, StartsLine, has_no_feed, compact_jsonl-log_text, tail_lines_lem,
}
use zent_loop.Retention.Compact.{Safe, open_log, compact_jsonl-Safe}
use zent_loop.Retention.Budget.{
  share_of, compact_jsonl_storage_budget, storage_pressure_target_total_bytes,
}
use zent_loop.Retention.Shares.{Reduced, all_fine, compact_jsonl_storage_budget_lem}

-- The time of a line is its length.
abbrev stamp : Bytes → Option ℕ
stamp line = some (length line)

abbrev lines : List Bytes
lines = codes "a" ∷ codes "bcd" ∷ codes "ef" ∷ []

compact_jsonl-log_text_example :
    compact_jsonl fine stamp 2 (record { content = some (log_text lines); active = opened }) ≡ (
      true,
      record {
        content = some (log_text (keep (λ line. is_live 2 (stamp line)) lines));
        active = opened;
      },
    )
unfolding has_no_feed last_or
compact_jsonl-log_text_example = compact_jsonl-log_text stamp 2 lines opened (
  (refl, omega arith, omega arith),
  ((refl, omega arith, omega arith), ((refl, omega arith, omega arith), tt)),
)

compact_jsonl-Safe_example :
    Safe
      (record fine { rename = false })
      (λ v. copy_lines stamp 2 (scan_lines v))
      (some (codes "abc"))
      (compact_jsonl (record fine { rename = false }) stamp 2 (open_log (some (codes "abc"))))
compact_jsonl-Safe_example =
    compact_jsonl-Safe (record fine { rename = false }) stamp 2 (some (codes "abc")) refl

-- The log is left with a file that is closed, although the store takes it for open.
close_fails :
    (compact_jsonl (record fine { close_active = false }) stamp 2 (open_log (some (codes "abc")))).1
    ≡ record { content = some (codes "abc"); active = broken }
unfolding compact_jsonl
close_fails = refl

tail_lines_lem_example :
    (length (tail_lines 4 (log_text lines)) ≤ 4)
    × ((tail_lines 4 (log_text lines) ≡ [])
        ⊎ ((pre : Bytes) × (log_text lines ≡ pre ++ tail_lines 4 (log_text lines))
            × StartsLine pre))
tail_lines_lem_example = tail_lines_lem 4 (log_text lines)

-- The last line fits into the bytes that are asked for, and is dropped all the same.
line_dropped : tail_lines 2 (97 ∷ 10 ∷ 98 ∷ 10 ∷ []) ≡ []
unfolding tail_lines
line_dropped = refl

-- With a log of twelve gigabytes the product is negative, and one byte is left of the log.
share_overflows : share_of storage_pressure_target_total_bytes 12_000_000_000 12_000_000_000 ≡ 1
unfolding share_of
share_overflows = refl

abbrev files : List Log
files = open_log (some (codes "abcdef")) ∷ open_log none ∷ []

compact_jsonl_storage_budget_lem_example :
    Reduced 3 2 (compact_jsonl_storage_budget 3 (all_fine files))
compact_jsonl_storage_budget_lem_example =
    compact_jsonl_storage_budget_lem 3 files (omega arith) (omega arith)
