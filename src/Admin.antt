-- ===== src/Admin.antt =====
-- The login sessions of the administration server: internal/server/admin_auth.go, and
-- `recordAdminAuthFailure`, `clearAdminAuthFailures`, `subtleStringMismatch` of
-- internal/server/admin.go. A time is a number of nanoseconds, 0 for Go's zero time.
pub mod Sessions
pub mod Throttle
pub mod Http
pub mod Gate
pub mod Login
mod Examples
use zent_loop.Common.{
  ℕ, zero, suc, ◌+◌, ◌-◌, ◌*◌, ◌^◌, List, [], ◌∷◌, ◌++◌, Bool, true, false, not, ◌&&◌, ◌||◌, Bytes,
  bytes_eq, codes, Option, none, some, ◌==◌, nat_eq, ltb, leb, length, if◌then◌else◌, Map, lookup,
  insert, remove, keep_entries, trim_space, has_prefix, to_lower,
}

abbrev pub second : ℕ
second = 1_000_000_000

abbrev pub admin_session_lifetime : ℕ
admin_session_lifetime = 12 * 3600 * second

abbrev pub max_admin_sessions : ℕ
max_admin_sessions = 256

pub record AdminSession : Type 0 where
  pub created_at : ℕ
  pub expires_at : ℕ
  pub csrf : Bytes

pub record AuthFailure : Type 0 where
  pub count : ℕ
  pub last : ℕ

pub record AdminServer : Type 0 where
  pub sessions : Map Bytes AdminSession
  pub failures : Map Bytes AuthFailure

pub record AdminConfig : Type 0 where
  pub user : Bytes
  pub password : Bytes

-- `existing.ExpiresAt.After(now)`
abbrev pub is_live : ℕ → AdminSession → Bool
is_live now sess = ltb now sess.expires_at

-- The inner loop of the eviction: the key and the time of the oldest session so far.
unfoldable pub oldest_from : Map Bytes AdminSession → Bytes × ℕ → Bytes × ℕ
oldest_from [] found = found
oldest_from ((key, existing) ∷ m) (oldest_key, oldest) = oldest_from m (
    if (oldest == 0) || ltb existing.created_at oldest
    then (key, existing.created_at)
    else (oldest_key, oldest))

unfoldable pub oldest_key : Map Bytes AdminSession → Bytes
unfolding oldest_from
oldest_key m = (oldest_from m ([], 0)).0

-- `for len(s.adminSessions) >= maxAdminSessions`; the fuel is the number of sessions.
unfoldable pub evict : ℕ → Map Bytes AdminSession → Map Bytes AdminSession
unfolding oldest_key
evict zero m = m
evict (suc fuel) m =
    let rest = evict fuel (remove (oldest_key m) m) in
    if leb max_admin_sessions (length m) then rest else m

abbrev pub new_session : ℕ → Bytes → AdminSession
new_session now csrf = record {
  created_at = now;
  expires_at = now + admin_session_lifetime;
  csrf = csrf;
}

abbrev pub live_sessions : ℕ → AdminServer → Map Bytes AdminSession
live_sessions now s = keep_entries (is_live now) s.sessions

-- A cookie that is missing, or only spaces, is no session.
abbrev pub blank : Bytes → Bool
blank v = trim_space v == []

-- `digest` is sha256.
module _ (digest : Bytes → Bytes) where
  unfoldable pub string_mismatch : Bytes → Bytes → Bool
  string_mismatch a b = not (digest a == digest b)

  -- `none` where the system's randomness fails; the two tokens are what `randomAdminToken` returns.
  unfoldable pub create_admin_session :
      Option Bytes → Option Bytes → ℕ → AdminServer → Option (Bytes × AdminSession × AdminServer)
  unfolding evict keep_entries insert remove
  create_admin_session none csrf now s = none
  create_admin_session (some token) none now s = none
  create_admin_session (some token) (some csrf) now s =
      let sess = new_session now csrf in
      let kept = live_sessions now s in
      let room = evict (length kept) kept in
      some (token, sess, record s { sessions = insert (digest token) sess room })

  abbrev pub check_session :
      ℕ → Bytes → AdminServer → Option AdminSession → Option AdminSession × AdminServer
  check_session now key s none = (none, s)
  check_session now key s (some sess) =
      if is_live now sess
      then (some sess, s)
      else (none, record s { sessions = remove key s.sessions })

  unfoldable pub admin_session_from_request :
      Option Bytes → ℕ → AdminServer → Option AdminSession × AdminServer
  admin_session_from_request none now s = (none, s)
  admin_session_from_request (some cookie) now s =
      if blank cookie
      then (none, s)
      else check_session now (digest cookie) s (lookup (digest cookie) s.sessions)

  unfoldable pub delete_admin_session : Option Bytes → AdminServer → AdminServer
  delete_admin_session none s = s
  delete_admin_session (some cookie) s =
      if blank cookie then s else record s { sessions = remove (digest cookie) s.sessions }

abbrev pub failure_window : ℕ
failure_window = 600 * second

abbrev pub max_auth_failures : ℕ
max_auth_failures = 2048

abbrev pub known_ip : Bytes → Bytes
known_ip ip = if ip == [] then codes "unknown" else ip

-- `authFailures[ip]`, the zero value if it is missing
abbrev pub failure_of : Bytes → AdminServer → AuthFailure
failure_of ip s = elim (lookup ip s.failures) [ none ↦ record { count = 0; last = 0 } | some f ↦ f ]

-- The failures are forgotten after ten quiet minutes.
abbrev pub next_failure : ℕ → AuthFailure → AuthFailure
next_failure now f =
    if not (f.last == 0) && ltb failure_window (now - f.last)
    then record { count = 1; last = now }
    else record { count = f.count + 1; last = now }

unfoldable pub first_other : Bytes → Map Bytes AuthFailure → Option Bytes
first_other ip [] = none
first_other ip ((key, f) ∷ m) = if key == ip then first_other ip m else some key

-- `for len(s.authFailures) > 2048`; the fuel is the number of entries.
unfoldable pub drop_others : ℕ → Bytes → Map Bytes AuthFailure → Map Bytes AuthFailure
unfolding first_other
drop_others zero ip m = m
drop_others (suc fuel) ip m =
    let rest : Map Bytes AuthFailure = elim (first_other ip m) [
      | none ↦ m
      | some key ↦ drop_others fuel ip (remove key m)
    ] in
    if ltb max_auth_failures (length m) then rest else m

abbrev pub is_recent : ℕ → AuthFailure → Bool
is_recent now f = leb (now - f.last) failure_window

unfoldable pub trim_failures : ℕ → Bytes → Map Bytes AuthFailure → Map Bytes AuthFailure
unfolding drop_others keep_entries
trim_failures now ip m =
    let kept = keep_entries (is_recent now) m in
    if ltb max_auth_failures (length m) then drop_others (length kept) ip kept else m

-- time.Duration(150*(1<<shift)) * time.Millisecond
unfoldable pub failure_delay : ℕ → ℕ
failure_delay count =
    let shift = if ltb 4 (count - 2) then 4 else count - 2 in
    if leb count 1 then 0 else 150 * 2 ^ shift * 1_000_000

unfoldable pub record_admin_auth_failure : Bytes → ℕ → AdminServer → ℕ × AdminServer
unfolding trim_failures failure_delay
record_admin_auth_failure ip now s =
    let known = known_ip ip in
    let state = next_failure now (failure_of known s) in
    (
      failure_delay state.count,
      record s { failures = trim_failures now known (insert known state s.failures) },
    )

unfoldable pub clear_admin_auth_failures : Bytes → AdminServer → AdminServer
clear_admin_auth_failures ip s = record s { failures = remove (known_ip ip) s.failures }
