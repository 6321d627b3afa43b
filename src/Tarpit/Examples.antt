-- ===== src/Tarpit/Examples.antt =====
-- Tests of the tarpit delay, and its theorem at a source that connected nine times.
use zent_loop.Common.{◌*◌, List, [], ◌∷◌, codes, ◌≡◌, refl, bytes_beq}
use zent_loop.Tarpit.{SshSession, recent_connections, tarpit_base, second, millisecond}

abbrev seen : SshSession
seen = record { ip = codes "192.0.2.7"; first_seen = 70 * second }

abbrev sessions : List SshSession
sessions = seen ∷ seen ∷ seen ∷ seen ∷ seen ∷ seen ∷ seen ∷ seen ∷ seen ∷ []

nine : recent_connections (codes "192.0.2.7") (80 * second) sessions ≡ 9
unfolding recent_connections bytes_beq
nine = refl

base_of_nine : tarpit_base 9 ≡ 400 * millisecond
unfolding tarpit_base
base_of_nine = refl
