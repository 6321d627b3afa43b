-- ===== src/Shell/Examples.antt =====
-- Tests of the scanners, and their theorems at concrete command lines.
use zent_loop.Common.{
  last_or, true, List, [], ◌∷◌, ◌++◌, Bytes, codes, ◌≡◌, refl, join, none, some, trim_space,
  trim_left, trim_right, is_space, arith, encode, runes,
}
use zent_loop.Shell.Words.{virtual_words}
use zent_loop.Shell.Words.Quoting.{command_line, virtual_words-command_line}
use zent_loop.Shell.Split.{split_outside_quotes, balanced_delims, unwrap_group}
use zent_loop.Shell.Redirect.{find_virtual_redirect}
use zent_loop.Shell.Split.Lossless.{join-split_outside_quotes}
use zent_loop.Shell.Split.Groups.{split-group}

-- The closing parenthesis is escaped, and yet the group is unwrapped.
unwrapped_escaped : unwrap_group (b'(' ∷ b'\\' ∷ b')' ∷ []) ≡ some (b'\\' ∷ [])
unfolding unwrap_group trim_space trim_left trim_right is_space last_or
unwrapped_escaped = refl

redirected : find_virtual_redirect (codes "a '>' 2> b >> c") b'>' true ≡ some (11, 2)
unfolding find_virtual_redirect
redirected = refl

three_words :
    virtual_words (codes " echo 'a b' \"x\\$y\"z ") ≡ codes "echo" ∷ codes "a b" ∷ codes "x$yz" ∷ []
unfolding virtual_words trim_space trim_left trim_right is_space
three_words = refl

trim_both : trim_space (codes "  a b\t ") ≡ codes "a b"
unfolding trim_space trim_left trim_right is_space
trim_both = refl

two_stages : split_outside_quotes (codes "a '|' | b") b'|' ≡ codes "a '|' " ∷ codes " b" ∷ []
unfolding split_outside_quotes
two_stages = refl

-- A byte that is not UTF-8 becomes U+FFFD, and two bytes that are one character stay.
replaced_byte :
    split_outside_quotes (0xff ∷ b'|' ∷ 0xc3 ∷ 0xa9 ∷ []) b'|'
    ≡ (0xef ∷ 0xbf ∷ 0xbd ∷ []) ∷ (0xc3 ∷ 0xa9 ∷ []) ∷ []
unfolding split_outside_quotes
replaced_byte = refl

group_is_unwrapped : unwrap_group (codes "{ id; uname; }") ≡ some (codes "id; uname")
unfolding unwrap_group trim_space trim_left trim_right is_space last_or
group_is_unwrapped = refl

two_groups_are_none : unwrap_group (codes "(a) (b)") ≡ none
unfolding unwrap_group trim_space trim_left trim_right is_space last_or
two_groups_are_none = refl

abbrev two : List Bytes
two = codes "echo" ∷ codes "a \"b\" $c" ∷ []

virtual_words-command_line_example : virtual_words (command_line two) ≡ two
virtual_words-command_line_example = virtual_words-command_line two (cc, (cc, tt))

join-split_outside_quotes_example :
    join (split_outside_quotes (codes "a '|' | b") b'|') (b'|' ∷ []) ≡ codes "a '|' | b"
unfolding encode runes
join-split_outside_quotes_example = join-split_outside_quotes (codes "a '|' | b") b'|'

split-group_example :
    split_outside_quotes (b'(' ∷ (codes "id | wc" ++ b')' ∷ [])) b'|'
    ≡ (b'(' ∷ (codes "id | wc" ++ b')' ∷ [])) ∷ []
unfolding balanced_delims encode
split-group_example = split-group (codes "id | wc") b'|' (omega arith) refl
