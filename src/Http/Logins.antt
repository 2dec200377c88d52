-- ===== src/Http/Logins.antt =====
-- Whom the Login of /api/auth and of /api/auth/admin lets in (internal/http/handler/auth_handler.go).
use olympiad_next.Prelude.{
  ℕ, ◌≡◌, refl, subst, Bool, true, false, not, ◌||◌, none, some, arith, if◌then◌else◌, inl, inr,
}
use olympiad_next.Text.{Text, text_eq}
use olympiad_next.Errors.{Result-cases, ok}
use olympiad_next.Domain.User.{User, is_admin}
use olympiad_next.Store.{World, App}
use olympiad_next.Auth.Outside.{Outside}
use olympiad_next.Auth.Jwt.{Manager}
use olympiad_next.Auth.Session.{TokenPair}
use olympiad_next.Auth.Accounts.{login, admin_login}
use olympiad_next.Auth.Issued.{IsSigned}
use olympiad_next.Auth.Login.{IsAuthentic, Entered, login-IsAuthentic, admin_login-IsAdmin}
use olympiad_next.Http.{done, refuse, answer}
use olympiad_next.Http.Cookies.{Cookie, set_refresh_cookie}
use olympiad_next.Http.Sessions.{
  AuthHandler, AuthResponse, auth_error, call_page, with_cookie, plain_error, respond_with_session,
  post_login,
}

module _ (o : Outside) (m : Manager) (h : AuthHandler) where
  -- A page that ends well after a call that makes a session has had a pair from it, whose access token is
  -- in the answer and whose refresh token is in the cookie.
  session_page :
      (a : App TokenPair) (w : World) (s : ℕ) (body : AuthResponse)
      → let page = (call_page a (plain_error h) (respond_with_session h) w).0 in
        page.0 ≡ done s body
        → (pair : TokenPair) × ((a w).0 ≡ ok pair)
          × (pair.access_token ≡ body.access_token)
          × (page.1
              ≡ some
                  (set_refresh_cookie h.cookies pair.refresh_token pair.refresh_token_expires_at))
  unfolding call_page with_cookie auth_error refuse respond_with_session answer
  session_page a w s body ended = elim (Result-cases (a w).0) [
    | inl (e, failed) ↦ let never = rw failed at (ended) in cc
    | inr (pair, answered) ↦
        let said = rw answered at (ended) in
        (pair, answered, ground (arith, said), rw answered refl)
  ]

  -- The login of the surface.
  entered :
      (scoped : Bool) (email password fingerprint : Text) (w : World) (pair : TokenPair)
      → ((if scoped then admin_login o m else login o m) email password fingerprint w).0 ≡ ok pair
      → (u : User) × Entered o m w.db email password pair u × ((not scoped || is_admin u) ≡ true)
  entered true email password fingerprint w pair answered =
      admin_login-IsAdmin o m email password fingerprint w pair answered
  entered false email password fingerprint w pair answered =
      let (u, is_in) = login-IsAuthentic o m email password fingerprint w pair answered in
      (u, is_in, refl)

  -- The Login of either surface, whatever the server does: an answered session is that of an account of the
  -- address whose password matches and whose address is verified, under /api/auth/admin of an
  -- administrator; the access token in the answer and the refresh token in the cookie are signed for it.
  pub post_login-IsAuthentic :
      (email password fingerprint : Text) (w : World) (s : ℕ) (body : AuthResponse)
      → (post_login h o m email password fingerprint w).0.0 ≡ done s body
      → (u : User) × IsAuthentic o w.db email password u
        × ((not h.admin_scoped || is_admin u) ≡ true)
        × IsSigned o m.access_secret u.id (some u.email) body.access_token
        × (c : Cookie) × ((post_login h o m email password fingerprint w).0.1 ≡ some c)
        × IsSigned o m.refresh_secret u.id none c.value
  unfolding post_login
  post_login-IsAuthentic email password fingerprint w s body ended =
      let enter = if h.admin_scoped then admin_login o m else login o m in
      let (pair, answered, same, cookie) =
        session_page (enter email password fingerprint) w s body ended in
      let (u, (authentic, session), role) =
        entered h.admin_scoped email password fingerprint w pair answered in
      (
        u,
        authentic,
        role,
        subst (IsSigned o m.access_secret u.id (some u.email)) same session.access_token,
        _,
        cookie,
        session.refresh_token,
      )
