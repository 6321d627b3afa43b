-- ===== src/Store/Sessions.antt =====
-- The table of sessions (`UpsertSession` and `pruneSessionsLocked` of internal/store/store.go) with its
-- index of fingerprints.
use zent_loop.Common.{
  ℕ, ◌-◌, Bool, true, false, not, ◌&&◌, ◌||◌, List, [], ◌∷◌, Bytes, bytes_eq, nat_eq, Option, none,
  some, ltb, ◌==◌, if◌then◌else◌, length, take, Map, lookup, insert, remove, keep_entries, ◌>>=◌,
}

abbrev pub max_sessions : ℕ
max_sessions = 10000

-- A session: when it was last seen, and all else that it holds.
pub record Session : Type 0 where
  pub last_seen : ℕ
  pub rest : Bytes

pub record Table : Type 0 where
  pub sessions : Map Bytes Session
  pub fingerprints : Map Bytes Bytes
  pub http_sequences : Map Bytes ℕ

unfoldable pub mem : Bytes → List Bytes → Bool
mem id [] = false
mem id (d ∷ ds) = (d == id) || mem id ds

unfoldable pub remove_all {ℓ} : {V : Type ℓ} → List Bytes → Map Bytes V → Map Bytes V
remove_all [] m = m
remove_all (d ∷ ds) m = remove_all ds (remove d m)

-- The ids, the session that was seen longest ago first.
unfoldable pub place_id : Bytes → Session → Map Bytes Session → Map Bytes Session
place_id id s [] = (id, s) ∷ []
place_id id s ((j, t) ∷ rows) =
    let later = place_id id s rows in
    if ltb t.last_seen s.last_seen then (j, t) ∷ later else (id, s) ∷ (j, t) ∷ rows

unfoldable pub by_last_seen : Map Bytes Session → Map Bytes Session
unfolding place_id
by_last_seen [] = []
by_last_seen ((id, s) ∷ m) = place_id id s (by_last_seen m)

abbrev pub ids_of : Map Bytes Session → List Bytes
ids_of [] = []
ids_of ((id, s) ∷ m) = id ∷ ids_of m

-- pruneSessionsLocked
unfoldable pub prune_sessions : ℕ → Table → Table
unfolding remove_all by_last_seen mem
prune_sessions target t =
    let dead = take (length t.sessions - target) (ids_of (by_last_seen t.sessions)) in
    record {
      sessions = remove_all dead t.sessions;
      fingerprints = keep_entries (λ id. not (mem id dead)) t.fingerprints;
      http_sequences = remove_all dead t.http_sequences;
    }

abbrev pub is_some {ℓ} : {A : Type ℓ} → Option A → Bool
is_some none = false
is_some (some a) = true

-- UpsertSession
unfoldable pub upsert_session : Bytes → Session → Bytes → Table → Table
unfolding prune_sessions
upsert_session id s fingerprint t =
    let existed = is_some (lookup id t.sessions) in
    let put : Table = record t {
      sessions = insert id s t.sessions;
      fingerprints =
          if fingerprint == [] then t.fingerprints else insert fingerprint id t.fingerprints;
    } in
    if not existed && ltb max_sessions (length put.sessions)
    then prune_sessions (max_sessions - 1000) put
    else put

-- GetSessionByFingerprint
unfoldable pub get_session_by_fingerprint : Bytes → Table → Option Session
get_session_by_fingerprint fp t = do id ← lookup fp t.fingerprints; lookup id t.sessions
