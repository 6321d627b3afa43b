-- ===== src/Admin/Gate.antt =====
-- What the gate lets through.
use zent_loop.Common.{
  ◌||◌, if◌then◌else◌, ℕ, ◌<◌, true, false, Bytes, bytes_eq, bytes_beq_iff, codes, Option, none,
  some, ◌≡◌, refl, arith, ◌==◌, lookup, ◌⊎◌, inl, inr, has_prefix, Bool-cases,
}
use zent_loop.Admin.{
  AdminSession, AdminServer, AdminConfig, admin_session_from_request, string_mismatch, blank,
}
use zent_loop.Admin.Http.{
  Request, served, csrf_failed, is_safe, is_read, admin_session_auth, no_session, with_session,
  valid_basic, valid_login, top_client,
}
use zent_loop.Admin.Sessions.{request_session_lem, found_in}

-- The request carries the token of a session of the table that has not expired.
abbrev pub Carries : (Bytes → Bytes) → Request → ℕ → AdminServer → AdminSession → Type 0
Carries digest r now s sess =
    (cookie : Bytes) × (r.cookie ≡ some cookie)
    × (lookup (digest cookie) s.sessions ≡ some sess)
    × (now < sess.expires_at)

found_in-some :
    (digest : Bytes → Bytes) (now : ℕ) (o : Option AdminSession) (sess : AdminSession)
    → found_in digest now o ≡ some sess
    → (o ≡ some sess) × (now < sess.expires_at)
found_in-some digest now none sess e = cc
found_in-some digest now (some x) sess e = ground arith

module _ (digest : Bytes → Bytes) where
  blank-none :
      (cookie : Bytes) (now : ℕ) (s : AdminServer)
      → blank cookie ≡ true
      → (admin_session_from_request digest (some cookie) now s).0 ≡ none
  unfolding admin_session_from_request
  blank-none cookie now s h = rw h

  found_cookie :
      (c : Option Bytes) (now : ℕ) (s : AdminServer) (sess : AdminSession)
      → (admin_session_from_request digest c now s).0 ≡ some sess
      → (cookie : Bytes) × (c ≡ some cookie)
        × (lookup (digest cookie) s.sessions ≡ some sess)
        × (now < sess.expires_at)
  found_cookie none now s sess e = unfold admin_session_from_request in cc
  found_cookie (some cookie) now s sess e = elim (Bool-cases (blank cookie)) [
    | inl h ↦ cc (e, blank-none cookie now s h)
    | inr h ↦
        let found =
          found_in-some digest now (lookup (digest cookie) s.sessions) sess
            (rw (request_session_lem digest cookie now s h) at e) in
        (cookie, refl, found.0, found.1)
  ]

  pub found-Carries :
      (r : Request) (now : ℕ) (s : AdminServer) (sess : AdminSession)
      → (admin_session_from_request digest r.cookie now s).0 ≡ some sess
      → Carries digest r now s sess
  found-Carries r = found_cookie r.cookie

module _ (digest : Bytes → Bytes) where
  pub eq_of_match : (a b : Bytes) → string_mismatch digest a b ≡ false → digest a ≡ digest b
  unfolding string_mismatch
  eq_of_match a b h = ground (arith, bytes_beq_iff (digest a) (digest b))

  -- The administrator's name and password, up to what sha256 tells apart.
  abbrev pub SameLogin : AdminConfig → Bytes → Bytes → Type 0
  SameLogin cfg user password =
      (digest user ≡ digest cfg.user) × (digest password ≡ digest cfg.password)

  pub eq_of_valid_login :
      (cfg : AdminConfig) (user password : Bytes)
      → valid_login digest cfg user password ≡ true
      → SameLogin cfg user password
  eq_of_valid_login cfg user password h =
      (eq_of_match user cfg.user (ground arith), eq_of_match password cfg.password (ground arith))

-- The request is the terminal client's: it reads the API with the administrator's name and password.
abbrev pub IsTopClient : (Bytes → Bytes) → AdminConfig → Request → Type 0
IsTopClient digest cfg r =
    (user : Bytes) × (password : Bytes) × (is_read r.method ≡ true)
    × (has_prefix r.path (codes "/api/") ≡ true)
    × (r.client ≡ codes "top")
    × (r.basic ≡ some (user, password))
    × SameLogin digest cfg user password

-- A session of the request, which the method or the CSRF token allows to be used.
abbrev pub HasSession : (Bytes → Bytes) → Request → ℕ → AdminServer → Type 0
HasSession digest r now s =
    (sess : AdminSession) × Carries digest r now s sess
    × ((is_safe r.method ≡ true) ⊎ (digest r.csrf ≡ digest sess.csrf))

module _ (digest encode : Bytes → Bytes) (cfg : AdminConfig) where
  basic_of_valid :
      (basic : Option (Bytes × Bytes))
      → valid_basic digest encode cfg basic ≡ true
      → (user : Bytes) × (password : Bytes) × (basic ≡ some (user, password))
        × SameLogin digest cfg user password
  basic_of_valid none h = cc
  basic_of_valid (some (user, password)) h =
      (user, password, refl, eq_of_valid_login digest cfg user password h)

  no_session-served :
      (r : Request) (s : AdminServer)
      → (no_session digest encode cfg r s).0 ≡ served
      → IsTopClient digest cfg r
  no_session-served r s h =
      let top : top_client digest encode cfg r ≡ true = ground arith in
      let valid : valid_basic digest encode cfg r.basic ≡ true = ground arith in
      let (user, password, sent, same) = basic_of_valid r.basic valid in
      (
        user,
        password,
        ground arith,
        ground arith,
        (bytes_beq_iff r.client (codes "top")).0 (ground arith),
        sent,
        same,
      )

  with_session-served :
      (r : Request) (found : Option AdminSession) (s : AdminServer)
      → (with_session digest encode cfg r found s).0 ≡ served
      → ((sess : AdminSession) × (found ≡ some sess)
          × ((is_safe r.method ≡ true) ⊎ (digest r.csrf ≡ digest sess.csrf)))
        ⊎ IsTopClient digest cfg r
  with_session-served r none s h = inr (no_session-served r s h)
  with_session-served r (some sess) s h = inl (sess, refl, allowed)
    where
      allowed : (is_safe r.method ≡ true) ⊎ (digest r.csrf ≡ digest sess.csrf)
      allowed = elim (Bool-cases (is_safe r.method)) [
        | inl safe ↦ inl safe
        | inr unsafe ↦ inr (eq_of_match digest r.csrf sess.csrf (ground arith))
      ]

  -- A request reaches a handler behind the gate only if it carries the token of a session that has not
  -- expired, and then with a safe method or with that session's CSRF token, or if it is the terminal
  -- client reading the API with the administrator's name and password. CSRF token, name and password are
  -- compared by their sha256, a parameter.
  pub admin_session_auth-served :
      (r : Request) (now : ℕ) (s : AdminServer)
      → (admin_session_auth digest encode cfg r now s).0 ≡ served
      → HasSession digest r now s ⊎ IsTopClient digest cfg r
  unfolding admin_session_auth
  admin_session_auth-served r now s h =
      elim (with_session-served r (admin_session_from_request digest r.cookie now s).0 _ h) [
        | inl (sess, found, allowed) ↦ inl (sess, found-Carries digest r now s sess found, allowed)
        | inr top ↦ inr top
      ]

module _ (digest encode : Bytes → Bytes) (cfg : AdminConfig) where
  Carries-found :
      (r : Request) (now : ℕ) (s : AdminServer) (sess : AdminSession)
      → Carries digest r now s sess
      → ((cookie : Bytes) → r.cookie ≡ some cookie → blank cookie ≡ false)
      → (admin_session_from_request digest r.cookie now s).0 ≡ some sess
  Carries-found r now s sess (cookie, e, entry, live) solid =
      rw e (rw (request_session_lem digest cookie now s (solid cookie e), entry) (ground arith))

  -- The other direction: a request that carries, in a cookie that is not blank, the token of a session
  -- that has not expired is served if its method is safe or its CSRF token has the digest of the
  -- session's, and is refused for its CSRF token otherwise.
  pub admin_session_auth-Carries :
      (r : Request) (now : ℕ) (s : AdminServer) (sess : AdminSession)
      → Carries digest r now s sess
      → ((cookie : Bytes) → r.cookie ≡ some cookie → blank cookie ≡ false)
      → (admin_session_auth digest encode cfg r now s).0
        ≡ (if is_safe r.method || (digest r.csrf == digest sess.csrf) then served else csrf_failed)
  unfolding admin_session_auth string_mismatch
  admin_session_auth-Carries r now s sess carried solid =
      let found = Carries-found r now s sess carried solid in ground (arith, found)
