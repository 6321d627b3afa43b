-- ===== src/Store/Links.antt =====
-- The table of sessions stays small, and no fingerprint stands for a session that is gone.
use mathlib.Core.Option.{some-injective}
use zent_loop.Common.{
  ℕ, zero, suc, ◌+◌, ◌-◌, ◌≤◌, ◌<◌, false, not, ◌&&◌, List, [], ◌∷◌, Bytes, bytes_eq, nat_eq, some,
  ltb, ◌==◌, if◌then◌else◌, length, take, Map, lookup, insert, remove, keep_entries, Has, Has-here,
  Has-later, Has-insert, insert-Has, All, All-insert, Bool-cases, Option-cases, if_rule,
  lookup-remove, length-insert-le, length-insert_known, length-remove-le, length-remove-lt, ◌≡◌,
  refl, ap, ◌∙◌, arith, inl, inr,
}
use zent_loop.Store.Sessions.{
  Session, Table, max_sessions, mem, remove_all, place_id, by_last_seen, ids_of, prune_sessions,
  is_some, upsert_session, get_session_by_fingerprint,
}

-- At most 10000 sessions, and every fingerprint stands for one of them.
abbrev pub IsLinked : Table → Type 0
IsLinked t = (length t.sessions ≤ max_sessions) × All (λ row. Has row.1 t.sessions) t.fingerprints

Has-remove_all :
    (id : Bytes) (dead : List Bytes) (m : Map Bytes Session)
    → mem id dead ≡ false
    → Has id m
    → Has id (remove_all dead m)
unfolding remove_all mem
Has-remove_all id [] m alive has = has
Has-remove_all id (d ∷ ds) m alive has =
    Has-remove_all id ds (remove d m) (ground arith)
      (λ gone. has (rw (lookup-remove id d m, other) at gone))
  where
    other : (d == id) ≡ false
    other = ground arith

length-remove_all-le :
    (dead : List Bytes) (m : Map Bytes Session) → length (remove_all dead m) ≤ length m
unfolding remove_all
length-remove_all-le [] m = omega arith
length-remove_all-le (d ∷ ds) m =
    omega (arith, length-remove_all-le ds (remove d m), length-remove-le d m)

keep_entries-Has :
    (dead : List Bytes) (m : Map Bytes Session) (fps : Map Bytes Bytes)
    → All (λ row. Has row.1 m) fps
    → All (λ row. Has row.1 (remove_all dead m)) (keep_entries (λ id. not (mem id dead)) fps)
unfolding keep_entries
keep_entries-Has dead m [] all = tt
keep_entries-Has dead m ((fp, id) ∷ fps) all =
    if_rule (All (λ (row : Bytes × Bytes). Has row.1 (remove_all dead m))) (not (mem id dead)) _ _
      (λ alive. (Has-remove_all id dead m (ground arith) all.0, keep_entries-Has dead m fps all.1))
      (λ _. keep_entries-Has dead m fps all.1)

-- The rows are sessions of the table.
abbrev RowsOf : Map Bytes Session → Map Bytes Session → Type 0
RowsOf m rows = All (λ row. Has row.0 m) rows

RowsOf-later :
    (k : Bytes) (v : Session) (m rows : Map Bytes Session)
    → RowsOf m rows
    → RowsOf ((k, v) ∷ m) rows
RowsOf-later k v m [] all = tt
RowsOf-later k v m ((j, w) ∷ rows) all = (Has-later j k v m all.0, RowsOf-later k v m rows all.1)

RowsOf-self : (m : Map Bytes Session) → RowsOf m m
RowsOf-self [] = tt
RowsOf-self ((k, v) ∷ m) = (Has-here k v m, RowsOf-later k v m m (RowsOf-self m))

place_id-RowsOf :
    (m : Map Bytes Session) (id : Bytes) (s : Session) (rows : Map Bytes Session)
    → Has id m
    → RowsOf m rows
    → RowsOf m (place_id id s rows) × (length (place_id id s rows) ≡ suc (length rows))
unfolding place_id
place_id-RowsOf m id s [] has all = ((has, tt), refl)
place_id-RowsOf m id s ((j, t) ∷ rows) has all =
    let ih = place_id-RowsOf m id s rows has all.1 in
    if_rule (λ (r : Map Bytes Session). RowsOf m r × (length r ≡ suc (suc (length rows))))
      (ltb t.last_seen s.last_seen) _ _ (λ _. ((all.0, ih.0), ap suc ih.1))
      (λ _. ((has, all), refl))

by_last_seen-RowsOf :
    (m rows : Map Bytes Session)
    → RowsOf m rows
    → RowsOf m (by_last_seen rows) × (length (by_last_seen rows) ≡ length rows)
unfolding by_last_seen
by_last_seen-RowsOf m [] all = (tt, refl)
by_last_seen-RowsOf m ((id, s) ∷ rows) all =
    let ih = by_last_seen-RowsOf m rows all.1 in
    let placed = place_id-RowsOf m id s (by_last_seen rows) all.0 ih.0 in
    (placed.0, placed.1 ∙ ap suc ih.1)

remove_all-lt :
    (n : ℕ) (m rows : Map Bytes Session)
    → 1 ≤ n
    → 1 ≤ length rows
    → RowsOf m rows
    → length (remove_all (take n (ids_of rows)) m) < length m
unfolding remove_all
remove_all-lt zero m rows some_row nonempty all = absurd (omega arith)
remove_all-lt (suc n) m [] some_row nonempty all = absurd (omega arith)
remove_all-lt (suc n) m ((id, s) ∷ rows) some_row nonempty all =
    omega (
      arith,
      length-remove_all-le (take n (ids_of rows)) (remove id m),
      length-remove-lt id m all.0,
    )

prune_sessions-IsLinked :
    (target : ℕ) (t : Table)
    → target ≤ max_sessions
    → target < length t.sessions
    → length t.sessions ≤ max_sessions + 1
    → All (λ row. Has row.1 t.sessions) t.fingerprints
    → IsLinked (prune_sessions target t)
unfolding prune_sessions
prune_sessions-IsLinked target t below over size linked =
    let m = t.sessions in
    let rows = by_last_seen-RowsOf m m (RowsOf-self m) in
    let n = length m - target in
    let fewer = remove_all-lt n m (by_last_seen m) (omega arith) (omega (arith, rows.1)) rows.0 in
    (
      omega (arith, fewer, size),
      keep_entries-Has (take n (ids_of (by_last_seen m))) m t.fingerprints linked,
    )

insert-Linked :
    (id : Bytes) (s : Session) (m : Map Bytes Session) (fps : Map Bytes Bytes)
    → All (λ row. Has row.1 m) fps
    → All (λ row. Has row.1 (insert id s m)) fps
insert-Linked id s m [] all = tt
insert-Linked id s m ((fp, j) ∷ fps) all =
    (Has-insert j id s m all.0, insert-Linked id s m fps all.1)

-- Where nothing is dropped, there was room, or the session was known.
room_left :
    (id : Bytes) (s : Session) (m : Map Bytes Session)
    → length m ≤ max_sessions
    → (not (is_some (lookup id m)) && ltb max_sessions (length (insert id s m))) ≡ false
    → length (insert id s m) ≤ max_sessions
room_left id s m small room = elim (Option-cases (lookup id m)) [
  | inl fresh ↦
      let few : ltb max_sessions (length (insert id s m)) ≡ false = rw fresh at room in ground arith
  | inr (old, known) ↦
      omega (arith, length-insert_known id s m (λ gone. cc (rw known at gone)), small)
]

-- A table has at most 10000 sessions, and its fingerprints stand for sessions that it has: a session
-- that is put into such a table leaves it so, also when the oldest sessions are dropped for it.
pub upsert_session-IsLinked :
    (id : Bytes) (s : Session) (fingerprint : Bytes) (t : Table)
    → IsLinked t
    → IsLinked (upsert_session id s fingerprint t)
unfolding upsert_session
upsert_session-IsLinked id s fingerprint t (small, linked) =
    let m = insert id s t.sessions in
    let fps = if fingerprint == [] then t.fingerprints else insert fingerprint id t.fingerprints in
    let kept = insert-Linked id s t.sessions t.fingerprints linked in
    let all : All (λ row. Has row.1 m) fps =
      if_rule (All (λ (row : Bytes × Bytes). Has row.1 m)) (fingerprint == []) _ _ (λ _. kept)
        (λ _.
          All-insert (λ j. Has j m) fingerprint id t.fingerprints (insert-Has id s t.sessions)
            kept) in
    let put : Table = record t { sessions = m; fingerprints = fps } in
    if_rule IsLinked (not (is_some (lookup id t.sessions)) && ltb max_sessions (length m))
      (prune_sessions (max_sessions - 1000) put) put
      (λ full.
        prune_sessions-IsLinked (max_sessions - 1000) put (omega arith) (ground arith)
          (omega (arith, length-insert-le id s t.sessions, small)) all)
      (λ room. (room_left id s t.sessions small room, all))

linked-lookup :
    (fp id : Bytes) (m : Map Bytes Session) (fps : Map Bytes Bytes)
    → All (λ row. Has row.1 m) fps
    → lookup fp fps ≡ some id
    → Has id m
unfolding lookup
linked-lookup fp id m [] all e = cc
linked-lookup fp id m ((j, k) ∷ fps) all e = elim (Bool-cases (j == fp)) [
  | inl here ↦ rw (← some-injective _ _ (rw here at e)) all.0
  | inr other ↦ linked-lookup fp id m fps all.1 (rw other at e)
]

-- In a table whose fingerprints stand for sessions that it has, a fingerprint that is in the index
-- always finds a session.
get_session_by_fingerprint_lem :
    (fp : Bytes) (t : Table)
    → IsLinked t
    → is_some (get_session_by_fingerprint fp t) ≡ is_some (lookup fp t.fingerprints)
unfolding get_session_by_fingerprint
get_session_by_fingerprint_lem fp t (small, linked) =
    elim (Option-cases (lookup fp t.fingerprints)) [
      | inl fresh ↦ rw fresh refl
      | inr (id, known) ↦ elim (Option-cases (lookup id t.sessions)) [
        | inl gone ↦ absurd (linked-lookup fp id t.sessions t.fingerprints linked known gone)
        | inr (found, e) ↦ rw (known, e) refl
      ]
    ]
