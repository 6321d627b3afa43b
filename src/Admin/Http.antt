-- ===== src/Admin/Http.antt =====
-- The handlers of internal/server/admin_auth.go: login, session info, logout, the login page and the
-- gate `adminSessionAuth` before every other handler. A handler's result is what it answers; the
-- headers `Cache-Control` and `Content-Type` are not here.
use zent_loop.Common.{
  ℕ, List, [], ◌∷◌, ◌++◌, Bool, true, false, not, ◌&&◌, ◌||◌, Bytes, bytes_eq, codes, Option, none,
  some, ◌==◌, nat_eq, ltb, if◌then◌else◌, trim_space, has_prefix, to_lower,
}
use zent_loop.Admin.{
  AdminSession, AdminServer, AdminConfig, string_mismatch, create_admin_session,
  admin_session_from_request, delete_admin_session, record_admin_auth_failure,
  clear_admin_auth_failures,
}

pub data Method : Type 0 where
  get head post options other : Method

abbrev pub is_read : Method → Bool
is_read get = true
is_read head = true
is_read _ = false

-- The methods that need no CSRF token.
abbrev pub is_safe : Method → Bool
is_safe options = true
is_safe m = is_read m

abbrev pub is_post : Method → Bool
is_post post = true
is_post _ = false

abbrev pub is_get : Method → Bool
is_get get = true
is_get _ = false

pub record Request : Type 0 where
  pub method : Method
  pub path : Bytes
  pub uri : Bytes
  pub ip : Bytes
  pub cookie : Option Bytes
  pub csrf : Bytes
  pub client : Bytes
  pub connection : List Bytes
  pub basic : Option (Bytes × Bytes)

-- strings.Split(value, ",")
unfoldable pub split_commas : Bytes → Bytes → List Bytes
split_commas b [] = b ∷ []
split_commas b (c ∷ v) =
    let cut = b ∷ split_commas [] v in
    let more = split_commas (b ++ c ∷ []) v in if c == b',' then cut else more

unfoldable pub any_token : Bytes → List Bytes → Bool
any_token token [] = false
any_token token (part ∷ parts) =
    (to_lower (trim_space part) == to_lower token) || any_token token parts

unfoldable pub header_has_token : List Bytes → Bytes → Bool
unfolding any_token split_commas
header_has_token [] token = false
header_has_token (value ∷ values) token =
    any_token token (split_commas [] value) || header_has_token values token

pub data Answer : Type 0 where
  method_not_allowed bad_request cancelled session_error csrf_failed not_found : Answer
  unauthorized : ℕ → Answer
  logged_in : Bytes → AdminSession → Answer
  session_info : AdminSession → Answer
  logged_out login_page : Answer
  served : Answer
  redirect : Bytes → Answer

module _ (digest : Bytes → Bytes) (cfg : AdminConfig) where
  abbrev pub valid_login : Bytes → Bytes → Bool
  valid_login user password =
      not (string_mismatch digest user cfg.user)
      && not (string_mismatch digest password cfg.password)

  -- `gone` says that the client left during the delay; `body` is `none` if it does not decode.
  abbrev pub rejected : Bool → ℕ → Answer
  rejected gone delay = if ltb 0 delay && gone then cancelled else unauthorized delay

  abbrev pub opened :
      AdminServer → Option (Bytes × AdminSession × AdminServer) → Answer × AdminServer
  opened s none = (session_error, s)
  opened s (some (token, sess, t)) = (logged_in token sess, t)

  unfoldable pub admin_login :
      Request
      → Option (Bytes × Bytes)
      → Bool
      → Option Bytes
      → Option Bytes
      → ℕ
      → AdminServer
      → Answer × AdminServer
  admin_login r none gone token csrf now s =
      (if is_post r.method then bad_request else method_not_allowed, s)
  admin_login r (some (user, password)) gone token csrf now s =
      if not (is_post r.method)
      then (method_not_allowed, s)
      else if valid_login user password
      then (let cleared = clear_admin_auth_failures r.ip s in
          opened cleared (create_admin_session digest token csrf now cleared))
      else (let (delay, t) = record_admin_auth_failure r.ip now s in (rejected gone delay, t))

module _ (digest : Bytes → Bytes) where
  abbrev pub info_answer : Option AdminSession → Answer
  info_answer none = unauthorized 0
  info_answer (some sess) = session_info sess

  unfoldable pub admin_session_info : Request → ℕ → AdminServer → Answer × AdminServer
  admin_session_info r now s =
      let (found, t) = admin_session_from_request digest r.cookie now s in
      if is_get r.method then (info_answer found, t) else (method_not_allowed, s)

  abbrev pub logout_with : Request → Option AdminSession → AdminServer → Answer × AdminServer
  logout_with r none s = (unauthorized 0, s)
  logout_with r (some sess) s =
      if string_mismatch digest r.csrf sess.csrf
      then (csrf_failed, s)
      else (logged_out, delete_admin_session digest r.cookie s)

  unfoldable pub admin_logout : Request → ℕ → AdminServer → Answer × AdminServer
  admin_logout r now s =
      let (found, t) = admin_session_from_request digest r.cookie now s in
      if is_post r.method then logout_with r found t else (method_not_allowed, s)

  abbrev pub page_answer : Option AdminSession → Answer
  page_answer none = login_page
  page_answer (some sess) = redirect (codes "/")

  unfoldable pub admin_login_page : Request → ℕ → AdminServer → Answer × AdminServer
  admin_login_page r now s =
      let (found, t) = admin_session_from_request digest r.cookie now s in
      if (r.path == codes "/login") && is_get r.method
      then (page_answer found, t)
      else (not_found, s)

-- `encode` is url.QueryEscape.
module _ (digest : Bytes → Bytes) (encode : Bytes → Bytes) (cfg : AdminConfig) where
  abbrev pub valid_basic : Option (Bytes × Bytes) → Bool
  valid_basic none = false
  valid_basic (some (user, password)) = valid_login digest cfg user password

  abbrev pub top_client : Request → Bool
  top_client r = is_read r.method && has_prefix r.path (codes "/api/") && (r.client == codes "top")

  abbrev pub no_session : Request → AdminServer → Answer × AdminServer
  no_session r s =
      if top_client r && valid_basic r.basic
      then (served, clear_admin_auth_failures r.ip s)
      else if has_prefix r.path (codes "/api/") || header_has_token r.connection (codes "upgrade")
      then (unauthorized 0, s)
      else if (r.uri == []) || (r.uri == codes "/")
      then (redirect (codes "/login"), s)
      else (redirect (codes "/login?next=" ++ encode r.uri), s)

  abbrev pub with_session : Request → Option AdminSession → AdminServer → Answer × AdminServer
  with_session r none s = no_session r s
  with_session r (some sess) s =
      if not (is_safe r.method) && string_mismatch digest r.csrf sess.csrf
      then (csrf_failed, s)
      else (served, s)

  -- `served` is the call of the handler behind the gate.
  unfoldable pub admin_session_auth : Request → ℕ → AdminServer → Answer × AdminServer
  admin_session_auth r now s =
      let (found, t) = admin_session_from_request digest r.cookie now s in with_session r found t
