-- ===== src/Admin/Sessions.antt =====
-- The session table: its bound, and what a token finds in it.
use mathlib.Core.Option.{some-injective}
use zent_loop.Common.{
  Has-here, Has-later, ◌||◌, ℕ, zero, suc, ◌+◌, ◌≤◌, ◌<◌, [], ◌∷◌, false, Bytes, bytes_eq,
  bytes_beq_iff, Option, none, some, ◌≡◌, refl, arith, ◌==◌, nat_eq, ltb, leb, length,
  if◌then◌else◌, Map, lookup, remove, Has, lookup-insert, lookup-remove, length-insert-le,
  length-remove-lt, Bool-cases, Option-cases, ◌⊎◌, inl, inr, if_rule,
}
use zent_loop.Admin.{
  AdminSession, AdminServer, max_admin_sessions, admin_session_lifetime, oldest_from, oldest_key,
  evict, new_session, live_sessions, is_live, blank, create_admin_session,
  admin_session_from_request, delete_admin_session,
}

-- The scan ends with a key of the map, or with what it began with.
abbrev pub Ends : Map Bytes AdminSession → Bytes × ℕ → Bytes × ℕ → Type 0
Ends m found result = Has result.0 m ⊎ (result ≡ found)

Ends-cons :
    (key : Bytes) (x : AdminSession) (m : Map Bytes AdminSession) (t : ℕ) (result : Bytes × ℕ)
    → Ends m (key, t) result
    → Has result.0 ((key, x) ∷ m)
Ends-cons key x m t result (inl h) = Has-later result.0 key x m h
Ends-cons key x m t result (inr e) = rw e (Has-here key x m)

Ends-skip :
    (key : Bytes) (x : AdminSession) (m : Map Bytes AdminSession) (found result : Bytes × ℕ)
    → Ends m found result
    → Ends ((key, x) ∷ m) found result
Ends-skip key x m found result (inl h) = inl (Has-later result.0 key x m h)
Ends-skip key x m found result (inr e) = inr e

oldest_from-Ends :
    (m : Map Bytes AdminSession) (found : Bytes × ℕ) → Ends m found (oldest_from m found)
unfolding oldest_from
oldest_from-Ends [] found = inr refl
oldest_from-Ends ((key, x) ∷ m) (k, t) =
    if_rule (λ f. Ends ((key, x) ∷ m) (k, t) (oldest_from m f)) ((t == 0) || ltb x.created_at t)
      (key, x.created_at) (k, t)
      (λ _. inl (Ends-cons key x m x.created_at _ (oldest_from-Ends m (key, x.created_at))))
      (λ _. Ends-skip key x m (k, t) _ (oldest_from-Ends m (k, t)))

oldest_key-Has : (m : Map Bytes AdminSession) → 0 < length m → Has (oldest_key m) m
unfolding oldest_key
oldest_key-Has [] h = absurd (omega arith)
oldest_key-Has ((key, x) ∷ m) h =
    Ends-cons key x m x.created_at _ (oldest_from-Ends m (key, x.created_at))

evict-lt :
    (fuel : ℕ) (m : Map Bytes AdminSession)
    → length m ≤ fuel
    → length (evict fuel m) < max_admin_sessions
unfolding evict
evict-lt zero m h = omega arith
evict-lt (suc fuel) m h = elim (Bool-cases (leb max_admin_sessions (length m))) [
  | inl full ↦ rw full (
      evict-lt fuel (remove (oldest_key m) m)
        (omega (arith, length-remove-lt (oldest_key m) m (oldest_key-Has m (ground arith)))))
  | inr room ↦ rw room (ground arith)
]

module _ (digest : Bytes → Bytes) where
  -- However many sessions there were, a login leaves at most 256.
  pub create_admin_session_bound :
      (token csrf : Option Bytes) (now : ℕ) (s : AdminServer)
      (made : Bytes × AdminSession × AdminServer)
      → create_admin_session digest token csrf now s ≡ some made
      → length made.2.sessions ≤ max_admin_sessions
  unfolding create_admin_session
  create_admin_session_bound none csrf now s made e = cc
  create_admin_session_bound (some token) none now s made e = cc
  create_admin_session_bound (some token) (some csrf) now s made e =
      let kept = live_sessions now s in
      let room = evict (length kept) kept in
      rw (← some-injective _ _ e) (
        omega (
          arith,
          evict-lt (length kept) kept (omega arith),
          length-insert-le (digest token) (new_session now csrf) room,
        ))

  -- The answer for a cookie, from the table's entry alone.
  abbrev pub found_in : ℕ → Option AdminSession → Option AdminSession
  found_in now none = none
  found_in now (some sess) = if is_live now sess then some sess else none

  pub request_session_lem :
      (cookie : Bytes) (now : ℕ) (s : AdminServer)
      → blank cookie ≡ false
      → (admin_session_from_request digest (some cookie) now s).0
        ≡ found_in now (lookup (digest cookie) s.sessions)
  unfolding admin_session_from_request
  request_session_lem cookie now s h = elim (Option-cases (lookup (digest cookie) s.sessions)) [
    | inl e ↦ rw (h, e)
    | inr (sess, e) ↦ rw (h, e) (ground arith)
  ]

  -- The token of a new session stands for exactly that session until twelve hours have passed, and
  -- for no session from then on.
  pub request-create_admin_session :
      (token csrf : Bytes) (now later : ℕ) (s : AdminServer)
      (made : Bytes × AdminSession × AdminServer)
      → blank token ≡ false
      → create_admin_session digest (some token) (some csrf) now s ≡ some made
      → (admin_session_from_request digest (some made.0) later made.2).0
        ≡ (if ltb later (now + admin_session_lifetime) then some made.1 else none)
  unfolding create_admin_session
  request-create_admin_session token csrf now later s made h e = rw (← some-injective _ _ e) (
      rw (
        request_session_lem token later _ h,
        lookup-insert,
        (bytes_beq_iff (digest token) (digest token)).1 refl,
      ))

  -- After a logout the same cookie finds no session, at any time.
  pub request-delete_admin_session :
      (cookie : Option Bytes) (now : ℕ) (s : AdminServer)
      → (admin_session_from_request digest cookie now (delete_admin_session digest cookie s)).0
        ≡ none
  unfolding delete_admin_session admin_session_from_request
  request-delete_admin_session none now s = refl
  request-delete_admin_session (some cookie) now s = elim (Bool-cases (blank cookie)) [
    | inl h ↦ rw (h, admin_session_from_request) refl
    | inr h ↦ rw h (rw (lookup-remove, (bytes_beq_iff (digest cookie) (digest cookie)).1 refl))
  ]
