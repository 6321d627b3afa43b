-- ===== src/Editor/File.antt =====
-- Opening a file and writing it back.
use zent_loop.Common.{
  bytes_beq, List, [], ◌∷◌, ◌++◌, append-nil, append_assoc, Bytes, ◌≡◌, ◌≢◌, refl, sym, ap, ◌∙◌,
  arith, false, All, join, join-cons, Bool-cases, inl, inr, ◌==◌, nat_eq, bytes_eq, nat_beq_iff,
}
use zent_loop.Editor.{
  new_text_buffer, replace_crlf, replace_cr, split_lines, drop_empty_last, content,
}

-- No carriage return.
abbrev pub IsUnix : Bytes → Type 0
IsUnix = All (λ c. (c == b'\r') ≡ false)

replace_crlf_unix : (v : Bytes) → IsUnix v → replace_crlf v ≡ v
unfolding replace_crlf
replace_crlf_unix [] h = refl
replace_crlf_unix (c ∷ []) h = refl
replace_crlf_unix (c ∷ d ∷ v) h = rw (h.0) (ap (◌∷◌ c) (replace_crlf_unix (d ∷ v) h.1))

replace_cr_unix : (v : Bytes) → IsUnix v → replace_cr v ≡ v
unfolding replace_cr
replace_cr_unix [] h = refl
replace_cr_unix (c ∷ v) h = rw (h.0) (ap (◌∷◌ c) (replace_cr_unix v h.1))

split_lines-ne-nil : (b v : Bytes) → split_lines b v ≢ []
unfolding split_lines
split_lines-ne-nil b [] = cc
split_lines-ne-nil b (c ∷ v) = ground (arith, split_lines-ne-nil (b ++ c ∷ []) v)

join-split_lines : (b v : Bytes) → join (split_lines b v) (b'\n' ∷ []) ≡ b ++ v
unfolding split_lines
join-split_lines b [] = unfold join in sym (append-nil b)
join-split_lines b (c ∷ v) = elim (Bool-cases (c == b'\n')) [
  | inl cut ↦ rw cut (
      join-cons b _ _ (split_lines-ne-nil [] v)
      ∙ ap (λ t. b ++ (b'\n' ∷ t)) (join-split_lines [] v)
      ∙ ap (λ d. b ++ (d ∷ v)) (sym ((nat_beq_iff c b'\n').0 cut)))
  | inr more ↦ rw more (join-split_lines (b ++ c ∷ []) v ∙ append_assoc b (c ∷ []) v)
]

-- A newline at the end makes one more line, an empty one.
split_lines-newline : (b v : Bytes) → split_lines b (v ++ b'\n' ∷ []) ≡ split_lines b v ++ [] ∷ []
unfolding split_lines
split_lines-newline b [] = refl
split_lines-newline b (c ∷ v) =
    ground (arith, split_lines-newline [] v, split_lines-newline (b ++ c ∷ []) v)

drop_empty_last-append :
    (l : Bytes) (ls : List Bytes) → drop_empty_last ((l ∷ ls) ++ [] ∷ []) ≡ l ∷ ls
unfolding drop_empty_last bytes_beq
drop_empty_last-append l [] = refl
drop_empty_last-append l (m ∷ []) = ap (◌∷◌ l) (drop_empty_last-append m [])
drop_empty_last-append l (m ∷ n ∷ ls) = ap (◌∷◌ l) (drop_empty_last-append m (n ∷ ls))

drop_empty_last-lines : (ls : List Bytes) → ls ≢ [] → drop_empty_last (ls ++ [] ∷ []) ≡ ls
drop_empty_last-lines [] h = absurd (h refl)
drop_empty_last-lines (l ∷ ls) h = drop_empty_last-append l ls

-- A text file that ends in a newline and holds no carriage return is written back byte for byte, if
-- no key changes it.
pub content-new_text_buffer :
    (v : Bytes)
    → IsUnix (v ++ b'\n' ∷ [])
    → content (new_text_buffer (v ++ b'\n' ∷ [])) ≡ v ++ b'\n' ∷ []
unfolding content new_text_buffer
content-new_text_buffer v h =
    rw (replace_crlf_unix (v ++ b'\n' ∷ []) h, replace_cr_unix (v ++ b'\n' ∷ []) h)
      (rw
        (
          split_lines-newline [] v,
          drop_empty_last-lines (split_lines [] v) (split_lines-ne-nil [] v),
        )
        (ap (λ t. t ++ b'\n' ∷ []) (join-split_lines [] v)))
