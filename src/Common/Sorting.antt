-- ===== src/Common/Sorting.antt =====
-- Sorting texts, as sort.Strings does.
use mathlib.Core.Bool.{Bool, true, false, ◌&&◌, ◌||◌}
use mathlib.Core.List.{List, [], ◌∷◌}
use zent_loop.Common.Tests.{Bytes, ltb, ◌==◌, nat_eq, if◌then◌else◌}

-- sort.Strings
unfoldable pub text_leb : Bytes → Bytes → Bool
text_leb [] w = true
text_leb (c ∷ v) [] = false
text_leb (c ∷ v) (d ∷ w) = ltb c d || ((c == d) && text_leb v w)

unfoldable pub place_name : Bytes → List Bytes → List Bytes
unfolding text_leb
place_name v [] = v ∷ []
place_name v (w ∷ ws) =
    let later = place_name v ws in if text_leb v w then v ∷ w ∷ ws else w ∷ later

unfoldable pub sort_names : List Bytes → List Bytes
unfolding place_name
sort_names [] = []
sort_names (v ∷ vs) = place_name v (sort_names vs)
