-- ===== src/Shell/Split/Groups.antt =====
-- A balanced group is one part of a split.
use zent_loop.Common.{
  sym, ℕ, [], ◌∷◌, ◌++◌, ◌+◌, append_assoc, Bytes, none, some, ◌≡◌, ◌≢◌, true, false, arith,
  Option-cases, inl, inr, ap, ◌∙◌, List, refl, runes, runes_from, rune_at, runes-append, encode,
  to_valid,
}
use zent_loop.Shell.Split.{
  Scan, start, cuts, advance, advance_balanced, balanced_scan, balanced_delims, split_scan,
  split_outside_quotes, encode_all,
}

-- The same scan inside one more parenthesis.
abbrev deeper : Scan → Scan
deeper s = record s { paren = s.paren + 1 }

advance-deeper :
    (s t : Scan) (r : ℕ) → advance_balanced s r ≡ some t → advance (deeper s) r ≡ deeper t
unfolding advance advance_balanced
advance-deeper s t r h = ground arith

not-cuts-deeper :
    (delim : ℕ) (s t : Scan) (r : ℕ)
    → advance_balanced s r ≡ some t
    → cuts delim (deeper s) r ≡ false
unfolding cuts advance_balanced
not-cuts-deeper delim s t r h = ground arith

-- The delimiter of a split is not the one that closes the group.
split_scan-close :
    (delim : ℕ) (s : Scan) (b : List ℕ)
    → delim ≢ b')'
    → split_scan delim s b (b')' ∷ []) ≡ (b ++ b')' ∷ []) ∷ []
unfolding split_scan
split_scan-close delim s b h = ground arith

split_scan-step :
    (delim : ℕ) (s : Scan) (b : List ℕ) (r : ℕ) (v : List ℕ)
    → cuts delim s r ≡ false
    → split_scan delim s b (r ∷ v) ≡ split_scan delim (advance s r) (b ++ r ∷ []) v
unfolding split_scan
split_scan-step delim s b r v h = rw h

balanced_scan-step :
    (s t : Scan) (r : ℕ) (v : List ℕ)
    → advance_balanced s r ≡ some t
    → balanced_scan s (r ∷ v) ≡ balanced_scan t v
unfolding balanced_scan
balanced_scan-step s t r v e = rw (e, balanced_scan)

balanced_scan-fail :
    (s : Scan) (r : ℕ) (v : List ℕ) → advance_balanced s r ≡ none → balanced_scan s (r ∷ v) ≡ false
unfolding balanced_scan
balanced_scan-fail s r v e = rw (e, balanced_scan)

split_scan-inside :
    (delim : ℕ) (s : Scan) (b v : List ℕ)
    → delim ≢ b')'
    → balanced_scan s v ≡ true
    → split_scan delim (deeper s) b (v ++ b')' ∷ []) ≡ (b ++ (v ++ b')' ∷ [])) ∷ []
split_scan-inside delim s b [] h k = split_scan-close delim (deeper s) b h
split_scan-inside delim s b (r ∷ v) h k = elim (Option-cases (advance_balanced s r)) [
  | inl e ↦ cc (k, balanced_scan-fail s r v e)
  | inr (t, e) ↦
      split_scan-step delim (deeper s) b r _ (not-cuts-deeper delim s t r e)
      ∙ rw (advance-deeper s t r e) (
          split_scan-inside delim t (b ++ r ∷ []) v h (sym (balanced_scan-step s t r v e) ∙ k)
          ∙ ap (λ x. x ∷ []) (append_assoc b (r ∷ []) (v ++ b')' ∷ [])))
]

split_scan-open :
    (delim : ℕ) (v : List ℕ)
    → split_scan delim start [] (b'(' ∷ v) ≡ split_scan delim (deeper start) (b'(' ∷ []) v
unfolding split_scan
split_scan-open delim v = ground arith

-- The code points of a text in parentheses.
runes-group :
    (inner : Bytes) → runes (b'(' ∷ (inner ++ b')' ∷ [])) ≡ b'(' ∷ (runes inner ++ b')' ∷ [])
unfolding runes runes_from rune_at
runes-group inner = ap (λ rs. b'(' ∷ rs) (runes-append b')' refl inner)

-- A parenthesised group whose inside passes `balancedVirtualDelims` is one part of a split: no
-- delimiter inside it cuts it, if the delimiter is not the closing parenthesis. The part is the group
-- itself, with U+FFFD for each byte of it that is not UTF-8.
pub split-group :
    (inner : Bytes) (delim : ℕ)
    → delim ≢ b')'
    → balanced_delims inner ≡ true
    → split_outside_quotes (b'(' ∷ (inner ++ b')' ∷ [])) delim
      ≡ to_valid (b'(' ∷ (inner ++ b')' ∷ [])) ∷ []
unfolding split_outside_quotes balanced_delims encode_all
split-group inner delim h k =
    let rs = runes inner in
    ap (λ w. encode_all (split_scan delim start [] w)) (runes-group inner)
    ∙ ap encode_all
        (split_scan-open delim (rs ++ b')' ∷ []) ∙ split_scan-inside delim start (b'(' ∷ []) rs h k)
    ∙ ap (λ w. encode w ∷ []) (sym (runes-group inner))
