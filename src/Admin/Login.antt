-- ===== src/Admin/Login.antt =====
-- What login and logout do to the session table.
use zent_loop.Common.{
  ℕ, Bool, true, Bytes, Option, none, some, ◌≡◌, ◌≢◌, refl, arith, ◌⊎◌, inl, inr, Bool-cases,
}
use zent_loop.Admin.{
  AdminSession, AdminServer, AdminConfig, admin_session_from_request, string_mismatch,
  delete_admin_session, record_admin_auth_failure,
}
use zent_loop.Admin.Http.{
  Request, logged_in, logged_out, is_post, valid_login, admin_login, admin_logout, logout_with,
  rejected,
}
use zent_loop.Admin.Sessions.{request-delete_admin_session}
use zent_loop.Admin.Gate.{Carries, found-Carries, SameLogin, eq_of_match, eq_of_valid_login}

record_sessions :
    (ip : Bytes) (now : ℕ) (s : AdminServer)
    → (record_admin_auth_failure ip now s).1.sessions ≡ s.sessions
unfolding record_admin_auth_failure
record_sessions ip now s = refl

rejected_not_in :
    (digest : Bytes → Bytes) (cfg : AdminConfig) (gone : Bool) (delay : ℕ) (token : Bytes)
    (sess : AdminSession)
    → rejected digest cfg gone delay ≢ logged_in token sess
rejected_not_in digest cfg gone delay token sess h = ground arith

module _ (digest : Bytes → Bytes) (cfg : AdminConfig) where
  -- The administrator's name and password were posted, up to what sha256 tells apart.
  abbrev pub Credentials : Request → Option (Bytes × Bytes) → Type 0
  Credentials r body =
      (is_post r.method ≡ true)
      × ((user : Bytes) × (password : Bytes) × (body ≡ some (user, password))
          × SameLogin digest cfg user password)

  -- A login changes the session table, or answers with a token, only if the administrator's name and
  -- password were posted, compared by their sha256, a parameter.
  pub admin_login_guard :
      (r : Request) (body : Option (Bytes × Bytes)) (gone : Bool) (token csrf : Option Bytes)
      (now : ℕ) (s : AdminServer)
      → Credentials r body
        ⊎ (((admin_login digest cfg r body gone token csrf now s).1.sessions ≡ s.sessions)
            × ((t : Bytes) (sess : AdminSession)
                → (admin_login digest cfg r body gone token csrf now s).0 ≢ logged_in t sess))
  unfolding admin_login
  admin_login_guard r none gone token csrf now s = inr (refl, λ t sess h. ground arith)
  admin_login_guard r (some (user, password)) gone token csrf now s =
      elim (Bool-cases (is_post r.method)) [
        | inr wrong ↦ rw wrong (inr (refl, λ t sess. cc))
        | inl posted ↦ elim (Bool-cases (valid_login digest cfg user password)) [
          | inl valid ↦
              inl (posted, (user, password, refl, eq_of_valid_login digest cfg user password valid))
          | inr invalid ↦
              rw (posted, invalid)
                (inr
                  (record_sessions r.ip now s, λ t sess. rejected_not_in digest cfg gone _ t sess))
        ]
      ]

  logout_with_sound :
      (r : Request) (found : Option AdminSession) (s : AdminServer)
      → (logout_with digest r found s).0 ≡ logged_out
      → ((sess : AdminSession) × (found ≡ some sess) × (digest r.csrf ≡ digest sess.csrf))
        × ((logout_with digest r found s).1 ≡ delete_admin_session digest r.cookie s)
  logout_with_sound r none s h = cc
  logout_with_sound r (some sess) s h =
      elim (Bool-cases (string_mismatch digest r.csrf sess.csrf)) [
        | inl differ ↦ ground arith
        | inr same ↦ ((sess, refl, eq_of_match digest r.csrf sess.csrf same), rw same)
      ]

  -- A logout that succeeds was asked for with the token of a session that has not expired and with that
  -- session's CSRF token (compared by sha256, a parameter), and from then on the same cookie finds no
  -- session.
  pub admin_logout_sound :
      (r : Request) (now later : ℕ) (s : AdminServer)
      → (admin_logout digest r now s).0 ≡ logged_out
      → ((sess : AdminSession) × Carries digest r now s sess × (digest r.csrf ≡ digest sess.csrf))
        × ((admin_session_from_request digest r.cookie later (admin_logout digest r now s).1).0
            ≡ none)
  unfolding admin_logout
  admin_logout_sound r now later s h = elim (Bool-cases (is_post r.method)) [
    | inr wrong ↦ ground arith
    | inl posted ↦
        let ((sess, found, token), gone) =
          logout_with_sound r (admin_session_from_request digest r.cookie now s).0
            (admin_session_from_request digest r.cookie now s).1 (rw posted at h) in
        (
          (sess, found-Carries digest r now s sess found, token),
          rw (posted, gone) (request-delete_admin_session digest r.cookie later _),
        )
  ]
