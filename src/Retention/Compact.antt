-- ===== src/Retention/Compact.antt =====
-- What compaction leaves behind when a call of the file system fails.
use zent_loop.Common.{
  ℕ, Bool, true, false, not, ◌||◌, Bytes, nat_eq, Option, none, some, leb, ◌==◌, length, if_rule,
  ◌≡◌, refl, arith, ◌⊎◌, inl, inr,
}
use zent_loop.Retention.{
  closed, opened, broken, Log, Io, created, reopen_log, release, give_up, replace_log, scan_lines,
  copy_lines, compact_jsonl, compact_from, tail_lines, compact_jsonl_tail, tail_from,
}

-- The content is as before (made, if there was no file), or it is the whole of the compacted one.
abbrev pub Whole : (Bytes → Option Bytes) → Option Bytes → Option Bytes → Type 0
Whole compacted content after =
    ((after ≡ content) ⊎ (after ≡ created content))
    ⊎ ((v : Bytes) × (w : Bytes) × (content ≡ some v) × (compacted v ≡ some w) × (after ≡ some w))

-- The log is open and its content whole; or the closing of the file failed: then that is reported, the
-- content is as before, and the store is left with a file that it can use no more.
abbrev pub Safe : Io → (Bytes → Option Bytes) → Option Bytes → Bool × Log → Type 0
Safe io compacted content r =
    ((r.1.active ≡ opened) × Whole compacted content r.1.content)
    ⊎ ((io.close_active ≡ false) × (r.0 ≡ false) × (r.1.active ≡ broken) × (r.1.content ≡ content))

abbrev pub open_log : Option Bytes → Log
open_log content = record { content = content; active = opened }

abbrev closed_log : Option Bytes → Log
closed_log content = record { content = content; active = closed }

module _ (io : Io) (works : io.reopen ≡ true) (compacted : Bytes → Option Bytes) where
  reopen-Safe :
      (content : Option Bytes) → Safe io compacted content (reopen_log io (closed_log content))
  reopen-Safe content = rw works (inl (refl, inl (inr refl)))

  give_up-Safe :
      (content : Option Bytes) → Safe io compacted content (give_up io (closed_log content))
  give_up-Safe content = rw works (inl (refl, inl (inr refl)))

  replace-Safe :
      (v : Bytes) (o : Option Bytes)
      → compacted v ≡ o
      → Safe io compacted (some v) (replace_log io (closed_log (some v)) o)
  replace-Safe v none e = give_up-Safe (some v)
  replace-Safe v (some w) e =
      if_rule (Safe io compacted (some v))
        (not io.copy || not io.sync_copy || not io.close_copy || not io.rename) _ _
        (λ _. give_up-Safe (some v)) (λ _. rw works (inl (refl, inr (v, w, refl, e, refl))))

  release-Safe :
      (content : Option Bytes) (next : Log → Bool × Log)
      → Safe io compacted content (next (closed_log content))
      → Safe io compacted content (release io (open_log content) next)
  release-Safe content next safe =
      let P = Safe io compacted content in
      if_rule P (not io.sync_active) _ _ (λ _. inl (refl, inl (inl refl)))
        (λ _.
          if_rule P (not io.close_active) _ _ (λ fails. inr (ground arith, refl, refl, refl))
            (λ _. safe))

-- Whatever calls of the file system fail, as long as the log can be opened again: after a compaction an
-- open log is open, and its content is as before or the whole of the compacted one, never a part; only
-- where closing the file itself fails is the store left with a file that it can use no more, and then the
-- failure is reported and the content is as before.
pub compact_jsonl-Safe :
    (io : Io) (stamp : Bytes → Option ℕ) (cutoff : ℕ) (content : Option Bytes)
    → io.reopen ≡ true
    → Safe io
        (λ v. copy_lines stamp cutoff (scan_lines v))
        content
        (compact_jsonl io stamp cutoff (open_log content))
unfolding compact_jsonl
compact_jsonl-Safe io stamp cutoff none works =
    let compacted = λ (v : Bytes). copy_lines stamp cutoff (scan_lines v) in
    release-Safe io works compacted none (λ g. compact_from io stamp cutoff g g.content)
      (reopen-Safe io works compacted none)
compact_jsonl-Safe io stamp cutoff (some v) works =
    let compacted = λ (v : Bytes). copy_lines stamp cutoff (scan_lines v) in
    let kept = compacted v in
    release-Safe io works compacted (some v) (λ g. compact_from io stamp cutoff g g.content)
      (if_rule (Safe io compacted (some v)) (not io.open_source || not io.open_temporary)
        (give_up io (closed_log (some v))) (replace_log io (closed_log (some v)) kept)
        (λ _. give_up-Safe io works compacted (some v))
        (λ _. replace-Safe io works compacted v kept refl))

-- The same of a log that is cut to its end.
pub compact_jsonl_tail-Safe :
    (io : Io) (max : ℕ) (content : Option Bytes)
    → io.reopen ≡ true
    → Safe io (λ v. some (tail_lines max v)) content (compact_jsonl_tail io max (open_log content))
unfolding compact_jsonl_tail
compact_jsonl_tail-Safe io max none works = (inl (refl, inl (inl refl)))
compact_jsonl_tail-Safe io max (some v) works =
    let compacted = λ (v : Bytes). some (tail_lines max v) in
    let P = Safe io compacted (some v) in
    if_rule P (not io.stat) _ _ (λ _. (inl (refl, inl (inl refl))))
      (λ _.
        if_rule P (leb (length v) max || (max == 0)) _ _ (λ _. (inl (refl, inl (inl refl))))
          (λ _. release-Safe io works compacted (some v) (tail_from io max v) (
            if_rule P (not io.open_source || not io.seek || not io.open_temporary)
              (give_up io (closed_log (some v)))
              (replace_log io (closed_log (some v)) (compacted v))
              (λ _. give_up-Safe io works compacted (some v))
              (λ _. replace-Safe io works compacted v (compacted v) refl))))
