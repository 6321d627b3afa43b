-- ===== src/Shell/Split/Lossless.antt =====
-- `splitOutsideQuotes` loses no character.
use zent_loop.Common.{
  join-cons, ℕ, [], ◌∷◌, ◌++◌, append_assoc, append-nil, Bytes, ◌≡◌, ◌≢◌, sym, join, arith,
  Bool-cases, inl, inr, true, ap, ◌∙◌, List, refl, runes, encode, encode-append, to_valid,
}
use zent_loop.Shell.Split.{Scan, start, cuts, advance, split_scan, split_outside_quotes, encode_all}

cuts-delim : (delim : ℕ) (s : Scan) (r : ℕ) → cuts delim s r ≡ true → r ≡ delim
unfolding cuts
cuts-delim delim s r h = ground arith

split_scan-ne-nil : (delim : ℕ) (s : Scan) (b v : List ℕ) → split_scan delim s b v ≢ []
unfolding split_scan
split_scan-ne-nil delim s b [] = cc
split_scan-ne-nil delim s b (r ∷ v) =
    ground (arith, split_scan-ne-nil delim (advance s r) (b ++ r ∷ []) v)

join-split_scan :
    (delim : ℕ) (s : Scan) (b v : List ℕ) → join (split_scan delim s b v) (delim ∷ []) ≡ b ++ v
unfolding split_scan
join-split_scan delim s b [] = unfold join in sym (append-nil b)
join-split_scan delim s b (r ∷ v) = elim (Bool-cases (cuts delim s r)) [
  | inl cut ↦ rw cut (
      join-cons b _ _ (split_scan-ne-nil delim (advance s r) [] v)
      ∙ ap (λ t. b ++ (delim ∷ t)) (join-split_scan delim (advance s r) [] v)
      ∙ ap (λ d. b ++ (d ∷ v)) (sym (cuts-delim delim s r cut)))
  | inr more ↦
      rw more (join-split_scan delim (advance s r) (b ++ r ∷ []) v ∙ append_assoc b (r ∷ []) v)
]

cons-ne-nil : (p : List ℕ) (ps : List (List ℕ)) → p ∷ ps ≢ []
cons-ne-nil p ps = cc

join-encode_all :
    (ps : List (List ℕ)) (sep : List ℕ) → join (encode_all ps) (encode sep) ≡ encode (join ps sep)
unfolding encode_all encode join
join-encode_all [] sep = refl
join-encode_all (p ∷ []) sep = refl
join-encode_all (p ∷ q ∷ ps) sep =
    join-cons (encode p) (encode_all (q ∷ ps)) (encode sep) (cons-ne-nil (encode q) (encode_all ps))
    ∙ ap (λ w. encode p ++ (encode sep ++ w)) (join-encode_all (q ∷ ps) sep)
    ∙ sym (
        ap encode (join-cons p (q ∷ ps) sep (cons-ne-nil q ps))
        ∙ encode-append p (sep ++ join (q ∷ ps) sep)
        ∙ ap (λ w. encode p ++ w) (encode-append sep (join (q ∷ ps) sep)))

-- The parts of a split, joined by the delimiter, are the text again, whatever the text, with U+FFFD for
-- each byte of it that is not UTF-8.
pub join-split_outside_quotes :
    (v : Bytes) (delim : ℕ) → join (split_outside_quotes v delim) (encode (delim ∷ [])) ≡ to_valid v
unfolding split_outside_quotes
join-split_outside_quotes v delim =
    join-encode_all (split_scan delim start [] (runes v)) (delim ∷ [])
    ∙ ap encode (join-split_scan delim start [] (runes v))
