-- ===== src/Admin/Examples.antt =====
-- Tests of the administration server, and its theorems at concrete requests. The digest is the
-- identity.
use zent_loop.Common.{
  ◌+◌, ◌*◌, ◌≤◌, [], ◌∷◌, Bytes, bytes_eq, codes, Option, none, some, ◌≡◌, ◌≢◌, refl, false, arith,
  ◌⊎◌, length, lookup, bytes_beq, trim_space, trim_left, trim_right, is_space, if◌then◌else◌, ltb,
  ◌==◌, ◌||◌,
}
use zent_loop.Admin.{
  AuthFailure, AdminSession, AdminServer, AdminConfig, second, max_admin_sessions,
  max_auth_failures, admin_session_lifetime, new_session, create_admin_session,
  admin_session_from_request, record_admin_auth_failure, failure_delay, string_mismatch,
}
use zent_loop.Admin.Http.{
  Request, get, post, served, csrf_failed, logged_in, is_safe, admin_session_auth, admin_login,
}
use zent_loop.Admin.Sessions.{create_admin_session_bound, request-create_admin_session}
use zent_loop.Admin.Throttle.{Counted, Delayed, record_admin_auth_failure_lem}
use zent_loop.Admin.Gate.{
  HasSession, IsTopClient, admin_session_auth-served, admin_session_auth-Carries,
}
use zent_loop.Admin.Login.{Credentials, admin_login_guard}

abbrev same : Bytes → Bytes
same a = a

abbrev config : AdminConfig
config = record { user = codes "admin"; password = codes "pw" }

abbrev empty : AdminServer
empty = record { sessions = []; failures = [] }

abbrev session : AdminSession
session = new_session (5 * second) (codes "csrf")

abbrev one : AdminServer
one = record { sessions = (codes "tok", session) ∷ []; failures = [] }

abbrev made : Bytes × AdminSession × AdminServer
made = (codes "tok", session, one)

made_lem :
    create_admin_session same (some (codes "tok")) (some (codes "csrf")) (5 * second) empty
    ≡ some made
unfolding create_admin_session
made_lem = refl

create_admin_session_bound_example : length made.2.sessions ≤ max_admin_sessions
create_admin_session_bound_example =
    create_admin_session_bound same (some (codes "tok")) (some (codes "csrf")) (5 * second) empty
      made made_lem

request-create_admin_session_example :
    (admin_session_from_request same (some (codes "tok")) (9 * second) one).0
    ≡ (if ltb (9 * second) (5 * second + admin_session_lifetime) then some session else none)
unfolding trim_space trim_left trim_right is_space bytes_beq
request-create_admin_session_example =
    request-create_admin_session same (codes "tok") (codes "csrf") (5 * second) (9 * second) empty
      made refl made_lem

abbrev request : Request
request = record {
  method = get;
  path = codes "/api/overview";
  uri = codes "/api/overview";
  ip = codes "10.0.0.1";
  cookie = some (codes "tok");
  csrf = [];
  client = [];
  connection = [];
  basic = none;
}

abbrev posted : Request
posted = record request { method = post; csrf = codes "csrf" }

admin_session_auth-served_example :
    HasSession same request (9 * second) one ⊎ IsTopClient same config request
unfolding admin_session_auth admin_session_from_request trim_space trim_left trim_right is_space
    bytes_beq lookup
admin_session_auth-served_example =
    admin_session_auth-served same same config request (9 * second) one refl

admin_session_auth-Carries_example :
    (admin_session_auth same same config posted (9 * second) one).0
    ≡ (if is_safe post || (codes "csrf" == codes "csrf") then served else csrf_failed)
unfolding lookup bytes_beq trim_space trim_left trim_right is_space
admin_session_auth-Carries_example =
    admin_session_auth-Carries same same config posted (9 * second) one session
      (codes "tok", refl, refl, omega arith) (λ cookie e. ground (arith, e))

wrong_csrf :
    (admin_session_auth same same config (record posted { csrf = codes "x" }) (9 * second) one).0
    ≡ csrf_failed
unfolding admin_session_auth admin_session_from_request string_mismatch trim_space trim_left
    trim_right is_space bytes_beq lookup
wrong_csrf = refl

abbrev failed_twice : AdminServer
failed_twice = record {
  sessions = [];
  failures = (codes "10.0.0.1", record { count = 2; last = 5 }) ∷ [];
}

record_admin_auth_failure_lem_example :
    let (delay, t) = record_admin_auth_failure (codes "10.0.0.1") 9 failed_twice in
    (f : AuthFailure) × (lookup (codes "10.0.0.1") t.failures ≡ some f)
    × Counted (lookup (codes "10.0.0.1") failed_twice.failures) 9 f
    × (length t.failures ≤ max_auth_failures)
    × Delayed f.count delay
unfolding lookup bytes_beq
record_admin_auth_failure_lem_example =
    record_admin_auth_failure_lem (codes "10.0.0.1") 9 failed_twice (refl, tt)

third_delay : failure_delay 4 ≡ 600_000_000
unfolding failure_delay
third_delay = refl

abbrev wrong : Option (Bytes × Bytes)
wrong = some (codes "admin", codes "nope")

admin_login_guard_example :
    Credentials same config posted wrong
    ⊎ (((admin_login same config posted wrong false none none 9 one).1.sessions ≡ one.sessions)
        × ((t : Bytes) (sess : AdminSession)
            → (admin_login same config posted wrong false none none 9 one).0 ≢ logged_in t sess))
admin_login_guard_example = admin_login_guard same config posted wrong false none none 9 one
