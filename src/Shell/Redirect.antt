-- ===== src/Shell/Redirect.antt =====
-- `findVirtualRedirect` of internal/server/trap_ssh_shell.go: where a command line is redirected.
use zent_loop.Common.{
  ℕ, suc, ◌+◌, Bool, true, false, not, ◌&&◌, ◌||◌, [], ◌∷◌, ◌++◌, Bytes, nat_eq, Option, none, some,
  leb, ◌==◌, if◌then◌else◌, length, ◌≡◌, refl, ap, arith, ◌⊎◌, inl, inr, Bool-cases, if_rule,
}

-- The byte before is a digit: `2>` redirects another stream.
abbrev is_digit : ℕ → Bool
is_digit c = leb b'0' c && leb c b'9'

-- How many bytes of the operator stand here.
abbrev operator_width : ℕ → Bool → Bytes → ℕ
operator_width op doubled [] = 1
operator_width op doubled (c ∷ v) = if doubled && (c == op) then 2 else 1

-- `quote` is the open quote (0: none), `before` the byte before (0 at the start), `i` the position. The
-- result is the position of the operator and its width.
unfoldable pub find_from : ℕ → Bool → ℕ → Bool → ℕ → ℕ → Bytes → Option (ℕ × ℕ)
find_from op doubled quote escaped before i [] = none
find_from op doubled quote escaped before i (c ∷ v) =
    let plain = find_from op doubled quote false c (suc i) v in
    let escape = find_from op doubled quote true c (suc i) v in
    let closed = find_from op doubled 0 false c (suc i) v in
    let opened = find_from op doubled c false c (suc i) v in
    if escaped
    then plain
    else if c == b'\\'
    then escape
    else if not (quote == 0)
    then (if c == quote then closed else plain)
    else if c == b'\'' || c == b'"'
    then opened
    else if not (c == op)
    then plain
    else if is_digit before
    then plain
    else some (i, operator_width op doubled v)

unfoldable pub find_virtual_redirect : Bytes → ℕ → Bool → Option (ℕ × ℕ)
unfolding find_from
find_virtual_redirect line op doubled = find_from op doubled 0 false 0 0 line

-- The operator stands at `i` of `v`, which begins at `from`: `width` times, once or twice.
abbrev pub StandsAt : ℕ → ℕ → Bytes → ℕ × ℕ → Type 0
StandsAt op from v (i, width) =
    (left : Bytes) × (right : Bytes) × (i ≡ from + length left)
    × (((width ≡ 1) × (v ≡ left ++ op ∷ right)) ⊎ ((width ≡ 2) × (v ≡ left ++ op ∷ op ∷ right)))

Found : ℕ → ℕ → Bytes → Option (ℕ × ℕ) → Type 0
Found op from v none = Unit
Found op from v (some at_width) = StandsAt op from v at_width

Found-later :
    (op from c : ℕ) (v : Bytes) (o : Option (ℕ × ℕ))
    → Found op (suc from) v o
    → Found op from (c ∷ v) o
unfolding Found
Found-later op from c v none found = tt
Found-later op from c v (some (i, width)) (left, right, place, stands) = (
  c ∷ left,
  right,
  omega arith,
  elim stands [
    | inl (once, e) ↦ inl (once, ap (◌∷◌ c) e)
    | inr (twice, e) ↦ inr (twice, ap (◌∷◌ c) e)
  ],
)

Found-here :
    (op from : ℕ) (doubled : Bool) (v : Bytes)
    → Found op from (op ∷ v) (some (from, operator_width op doubled v))
unfolding Found
Found-here op from doubled [] = ([], [], omega arith, inl (refl, refl))
Found-here op from doubled (c ∷ v) = elim (Bool-cases (doubled && (c == op))) [
  | inl twice ↦
      let same : c ≡ op = ground arith in ([], v, omega arith, inr (rw twice refl, rw same refl))
  | inr once ↦ ([], c ∷ v, omega arith, inl (rw once refl, refl))
]

find_from-Found :
    (op : ℕ) (doubled : Bool) (quote : ℕ) (escaped : Bool) (before i : ℕ) (v : Bytes)
    → Found op i v (find_from op doubled quote escaped before i v)
unfolding find_from
find_from-Found op doubled quote escaped before i [] = unfold Found in tt
find_from-Found op doubled quote escaped before i (c ∷ v) =
    let next =
      λ (q : ℕ) (e : Bool). Found-later op i c v _ (find_from-Found op doubled q e c (suc i) v) in
    if_rule (Found op i (c ∷ v)) escaped _ _ (λ _. next quote false)
      (λ _.
        if_rule (Found op i (c ∷ v)) (c == b'\\') _ _ (λ _. next quote true)
          (λ _.
            if_rule (Found op i (c ∷ v)) (not (quote == 0)) _ _
              (λ _.
                if_rule (Found op i (c ∷ v)) (c == quote) _ _ (λ _. next 0 false)
                  (λ _. next quote false))
              (λ _.
                if_rule (Found op i (c ∷ v)) (c == b'\'' || c == b'"') _ _ (λ _. next c false)
                  (λ _. elim (Bool-cases (c == op)) [
                    | inr other ↦ rw other (next quote false)
                    | inl same ↦ rw same (
                        if_rule (Found op i (c ∷ v)) (is_digit before) _ _ (λ _. next quote false)
                          (λ _.
                            let here : c ≡ op = ground arith in
                            rw here (Found-here op i doubled v)))
                  ]))))

-- A redirection that is found stands in the line: the operator stands at the position, once, or twice
-- if the width is 2, so that the program's slices before and behind it are within the line.
pub find_virtual_redirect_lem :
    (line : Bytes) (op : ℕ) (doubled : Bool) (i width : ℕ)
    → find_virtual_redirect line op doubled ≡ some (i, width)
    → StandsAt op 0 line (i, width)
unfolding find_virtual_redirect Found
find_virtual_redirect_lem line op doubled i width e =
    let found = find_from-Found op doubled 0 false 0 0 line in (rw e at found)
