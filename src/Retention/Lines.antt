-- ===== src/Retention/Lines.antt =====
-- Compaction line by line, and the end of a log.
use zent_loop.Common.{
  ℕ, suc, ◌-◌, ◌≤◌, ◌<◌, Bool, true, false, not, ◌&&◌, List, [], ◌∷◌, ◌++◌, Bytes, nat_eq, Option,
  some, leb, ◌==◌, length, take, drop, keep, All, last_or, Bool-cases, if_rule, ◌≡◌, ◌≢◌, refl, ap,
  sym, ◌∙◌, arith, ◌⊎◌, inl, inr, length-drop, take-append-drop, append_assoc,
}
use zent_loop.Retention.{
  Active, absent, closed, opened, broken, Io, scan_lines, drop_cr, max_line, is_live, copy_lines,
  compact_jsonl, next_line, tail_lines,
}

-- Every call of the file system succeeds.
abbrev pub fine : Io
fine = record {
  sync_active = true;
  close_active = true;
  stat = true;
  open_source = true;
  seek = true;
  open_temporary = true;
  copy = true;
  sync_copy = true;
  close_copy = true;
  rename = true;
  reopen = true;
}

abbrev pub opened_if : Active → Active
opened_if absent = absent
opened_if a = opened

-- The lines of a log, each with its line feed.
unfoldable pub log_text : List Bytes → Bytes
log_text [] = []
log_text (line ∷ lines) = line ++ 10 ∷ log_text lines

unfoldable pub has_no_feed : Bytes → Bool
has_no_feed [] = true
has_no_feed (c ∷ v) = not (c == 10) && has_no_feed v

-- A line that the program writes: it is short, and has no line feed and no carriage return at its end.
abbrev pub IsLine : Bytes → Type 0
IsLine line = (has_no_feed line ≡ true) × (last_or line 0 ≢ 13) × (length line < max_line)

scan_lines-line :
    (line rest : Bytes)
    → has_no_feed line ≡ true
    → scan_lines (line ++ 10 ∷ rest) ≡ line ∷ scan_lines rest
unfolding scan_lines has_no_feed
scan_lines-line [] rest h = refl
scan_lines-line (c ∷ line) rest h =
    let no_feed : (c == 10) ≡ false = ground arith in
    let others : has_no_feed line ≡ true = ground arith in
    rw (no_feed, scan_lines-line line rest others) refl

scan_lines-nil : scan_lines [] ≡ []
unfolding scan_lines
scan_lines-nil = refl

scan_lines-log_text : (lines : List Bytes) → All IsLine lines → scan_lines (log_text lines) ≡ lines
unfolding log_text
scan_lines-log_text [] all = scan_lines-nil
scan_lines-log_text (line ∷ lines) all =
    scan_lines-line line (log_text lines) all.0.0
    ∙ ap (λ t. line ∷ t) (scan_lines-log_text lines all.1)

drop_cr_lem : (line : Bytes) (d : ℕ) → last_or line d ≢ 13 → drop_cr line ≡ line
unfolding drop_cr last_or
drop_cr_lem [] d h = refl
drop_cr_lem (c ∷ []) d h = let other : (c == 13) ≡ false = ground arith in rw other refl
drop_cr_lem (c ∷ e ∷ v) d h =
    let not_last : ((c == 13) && (length (e ∷ v) == 0)) ≡ false = ground arith in
    rw not_last (ap (λ t. c ∷ t) (drop_cr_lem (e ∷ v) d h))

copy_lines-IsLine :
    (stamp : Bytes → Option ℕ) (cutoff : ℕ) (lines : List Bytes)
    → All IsLine lines
    → copy_lines stamp cutoff lines
      ≡ some (log_text (keep (λ line. is_live cutoff (stamp line)) lines))
unfolding copy_lines log_text keep
copy_lines-IsLine stamp cutoff [] all = refl
copy_lines-IsLine stamp cutoff (line ∷ lines) all =
    let same = drop_cr_lem line 0 all.0.1 in
    let fits : leb max_line (length line) ≡ false = ground arith in
    let ih = copy_lines-IsLine stamp cutoff lines all.1 in
    elim (Bool-cases (is_live cutoff (stamp line))) [
      | inl live ↦ rw (fits, same, ih, live) refl
      | inr old ↦ rw (fits, same, ih, old) refl
    ]

copied :
    (stamp : Bytes → Option ℕ) (cutoff : ℕ) (lines : List Bytes)
    → All IsLine lines
    → copy_lines stamp cutoff (scan_lines (log_text lines))
      ≡ some (log_text (keep (λ line. is_live cutoff (stamp line)) lines))
copied stamp cutoff lines all =
    ap (copy_lines stamp cutoff) (scan_lines-log_text lines all)
    ∙ copy_lines-IsLine stamp cutoff lines all

-- A log of lines is compacted and no call of the file system fails: what is left is the lines that
-- have a time that is not before the cutoff, whole and in their order, and the log is open again if it
-- is written to.
pub compact_jsonl-log_text :
    (stamp : Bytes → Option ℕ) (cutoff : ℕ) (lines : List Bytes) (active : Active)
    → All IsLine lines
    → compact_jsonl fine stamp cutoff (record { content = some (log_text lines); active = active })
      ≡ (
        true,
        record {
          content = some (log_text (keep (λ line. is_live cutoff (stamp line)) lines));
          active = opened_if active;
        },
      )
unfolding compact_jsonl
compact_jsonl-log_text stamp cutoff lines absent all = rw (copied stamp cutoff lines all) refl
compact_jsonl-log_text stamp cutoff lines closed all = rw (copied stamp cutoff lines all) refl
compact_jsonl-log_text stamp cutoff lines opened all = rw (copied stamp cutoff lines all) refl
compact_jsonl-log_text stamp cutoff lines broken all = rw (copied stamp cutoff lines all) refl

-- Where a line begins: at the start of the log, or behind a line feed.
abbrev pub StartsLine : Bytes → Type 0
StartsLine pre = last_or pre 10 ≡ 10

next_line_lem :
    (v : Bytes)
    → (next_line v ≡ [])
      ⊎ ((pre : Bytes) × (v ≡ pre ++ next_line v) × ((d : ℕ) → last_or pre d ≡ 10))
unfolding next_line last_or
next_line_lem [] = inl refl
next_line_lem (c ∷ v) = elim (Bool-cases (c == 10)) [
  | inl feed ↦ let same : c ≡ 10 = ground arith in rw feed (inr (c ∷ [], refl, λ d. same))
  | inr other ↦ rw other (elim (next_line_lem v) [
    | inl nothing ↦ inl nothing
    | inr (pre, e, feed) ↦ inr (c ∷ pre, ap (λ t. c ∷ t) e, λ d. feed c)
  ])
]

last_or-behind :
    (u pre : Bytes) (d : ℕ) → ((d : ℕ) → last_or pre d ≡ 10) → last_or (u ++ pre) d ≡ 10
unfolding last_or
last_or-behind [] pre d feed = feed d
last_or-behind (c ∷ u) pre d feed = last_or-behind u pre c feed

length-next_line : (v : Bytes) → length (next_line v) ≤ length v
unfolding next_line
length-next_line [] = omega arith
length-next_line (c ∷ v) =
    if_rule (λ (r : Bytes). length r ≤ suc (length v)) (c == 10) _ _ (λ _. omega arith)
      (λ _. omega (arith, length-next_line v))

-- Cutting a log to its end leaves at most the bytes that are asked for: nothing, or the end of the log
-- from the beginning of one of its lines on.
pub tail_lines_lem :
    (max : ℕ) (v : Bytes)
    → (length (tail_lines max v) ≤ max)
      × ((tail_lines max v ≡ []) ⊎ ((pre : Bytes) × (v ≡ pre ++ tail_lines max v) × StartsLine pre))
unfolding tail_lines last_or
tail_lines_lem max v =
    let end = drop (length v - max) v in
    (
      omega (arith, length-next_line end, length-drop (length v - max) v),
      elim (next_line_lem end) [
        | inl nothing ↦ inl nothing
        | inr (pre, e, feed) ↦ inr (
          take (length v - max) v ++ pre,
          sym (take-append-drop (length v - max) v)
              ∙ ap (λ t. take (length v - max) v ++ t) e
              ∙ sym (append_assoc (take (length v - max) v) pre (next_line end)),
          last_or-behind (take (length v - max) v) pre 10 feed,
        )
      ],
    )
