-- ===== src/Http/Sessions.antt =====
-- handler/auth_handler.go, at the bodies that decodeJSON has read. A page is a handler with a Set-Cookie.
use olympiad_next.Prelude.{
  ℕ, Bool, true, false, ◌||◌, not, any, List, Option, none, some, [], ◌==◌, if◌then◌else◌,
}
use olympiad_next.Text.{Text, text_eq, lit}
use olympiad_next.Text.Trim.{trim_space}
use olympiad_next.Errors.{Error, of_auth, AuthError, of_user, UserError, Result, ok, err}
use olympiad_next.Domain.User.{User}
use olympiad_next.Store.{World, App, attempt, pure, ◌>>=◌}
use olympiad_next.Postgres
use olympiad_next.Auth.Outside.{Outside}
use olympiad_next.Auth.Jwt.{Manager, AccessClaims}
use olympiad_next.Auth.Session.{TokenPair, refresh, logout}
use olympiad_next.Auth.Otp.{verify_email_otp, resend_email_otp}
use olympiad_next.Auth.Accounts.{register, login, admin_login, google_login}
use olympiad_next.Http.{Reply, refused, Handler, answer, refuse, call}
use olympiad_next.Http.Cookies.{
  CookieConfig, Cookie, set_refresh_cookie, clear_refresh_cookie, new_cookie_config,
  student_refresh_cookie_name, student_refresh_cookie_path, admin_refresh_cookie_name,
  admin_refresh_cookie_path,
}

abbrev pub Page : Type 0 → Type 0
Page A = World → (Reply A × Option Cookie) × World

-- dto.AuthResponse
pub record AuthResponse : Type 0 where
  pub access_token : Text
  pub access_token_expires_at : ℕ

-- AuthHandler: its cookie, and whether it is the one under /api/auth/admin.
pub record AuthHandler : Type 0 where
  pub cookies : CookieConfig
  pub admin_scoped : Bool

-- NewAuthHandler and NewAdminAuthHandler, at the settings of the deployment.
abbrev pub new_auth_handler : Text → Bool → Text → AuthHandler
new_auth_handler domain secure same_site = record {
  cookies =
      new_cookie_config student_refresh_cookie_name student_refresh_cookie_path domain secure
        same_site;
  admin_scoped = false;
}

abbrev pub new_admin_auth_handler : Text → Bool → Text → AuthHandler
new_admin_auth_handler domain secure same_site = record {
  cookies =
      new_cookie_config admin_refresh_cookie_name admin_refresh_cookie_path domain secure same_site;
  admin_scoped = true;
}

-- The status and the message of handleAuthError.
unfoldable pub auth_refusal : Error → ℕ × Text
auth_refusal (of_auth AuthError.invalid_email) = (400, lit "invalid email address")
auth_refusal (of_auth AuthError.weak_password) = (400, lit "password must be at least 8 characters")
auth_refusal (of_user UserError.email_taken) = (409, lit "email already registered")
auth_refusal (of_auth AuthError.invalid_credentials) = (401, lit "auth: invalid email or password")
auth_refusal (of_auth AuthError.google_only_account) =
    (401, lit "auth: account uses Google sign-in, no password set")
auth_refusal (of_auth AuthError.session_expired) = (401, lit "auth: session expired or revoked")
auth_refusal (of_auth AuthError.email_not_verified) = (403, lit "auth: email address not verified")
auth_refusal (of_auth AuthError.admin_access_required) = (403, lit "auth: admin access required")
auth_refusal (of_auth AuthError.invalid_otp) = (400, lit "auth: invalid or expired code")
auth_refusal (of_auth AuthError.invalid_token) = (401, lit "invalid Google credential")
auth_refusal _ = (500, lit "internal server error")

-- handleAuthError
unfoldable pub auth_error : {A : Type 0} → Error → Handler A
unfolding auth_refusal
auth_error e = let (status, message) = auth_refusal e in refuse status message

module _ {A : Type 0} where
  -- RequireTrustedOrigin of middleware/origin.go, at the header Origin.
  unfoldable pub require_trusted_origin : List Text → Text → Page A → Page A
  unfolding refuse
  require_trusted_origin allowed origin next w =
      if origin == [] || not (any (λ a. a == origin) allowed)
      then ((refused 403 (lit "invalid or missing origin"), none), w)
      else next w

  -- A handler with the cookie that it sets, if it sets one.
  unfoldable pub with_cookie : Option Cookie → Handler A → Page A
  with_cookie c h w = let (r, left) = h w in ((r, c), left)

  abbrev pub settle_page : {B : Type 0} → Result B → (Error → Page A) → (B → Page A) → Page A
  settle_page (ok b) bad good = good b
  settle_page (err e) bad good = bad e

  unfoldable pub call_page : {B : Type 0} → App B → (Error → Page A) → (B → Page A) → Page A
  call_page m bad good w = let (r, left) = m w in settle_page r bad good left

module _ (h : AuthHandler) where
  -- respondWithSession
  unfoldable pub respond_with_session : TokenPair → Page AuthResponse
  respond_with_session pair =
      with_cookie
        (some (set_refresh_cookie h.cookies pair.refresh_token pair.refresh_token_expires_at))
        (answer 200 (record {
          access_token = pair.access_token;
          access_token_expires_at = pair.access_token_expires_at;
        }))

  abbrev pub plain_error : {A : Type 0} → Error → Page A
  plain_error e = with_cookie none (auth_error e)

  -- An operation whose success is a message.
  unfoldable pub tell : App Unit → ℕ → Text → Page Text
  tell m status message = call_page m plain_error λ _. with_cookie none (answer status message)

  module _ (o : Outside) (m : Manager) where
    -- AuthHandler.Register
    unfoldable pub post_register : Text → Text → Page Text
    post_register email password =
        tell (register o email password) 201
          (lit "account created; check your email for a verification code")

    -- AuthHandler.Login
    unfoldable pub post_login : Text → Text → Text → Page AuthResponse
    post_login email password fingerprint =
        let enter = if h.admin_scoped then admin_login o m else login o m in
        call_page (enter email password fingerprint) plain_error respond_with_session

    -- AuthHandler.GoogleLogin, for the client id of the server.
    unfoldable pub post_google : Text → Text → Text → Page AuthResponse
    post_google client_id id_token fingerprint =
        if id_token == []
        then with_cookie none (refuse 400 (lit "id_token is required"))
        else call_page (google_login o m client_id id_token fingerprint) plain_error
            respond_with_session

    -- AuthHandler.Refresh, at the value of the cookie.
    unfoldable pub post_refresh : Option Text → Page AuthResponse
    post_refresh none = with_cookie none (refuse 401 (lit "missing refresh token"))
    post_refresh (some raw) =
        if raw == []
        then with_cookie none (refuse 401 (lit "missing refresh token"))
        else call_page (refresh o m raw)
            (λ e. with_cookie (some (clear_refresh_cookie h.cookies)) (auth_error e))
            respond_with_session

    -- The call of Logout, whose error is only logged.
    abbrev pub log_out_of : Option Text → App Unit
    log_out_of none = pure tt
    log_out_of (some raw) = if raw == [] then pure tt else do _ ← attempt (logout o m raw); pure tt

    -- AuthHandler.Logout
    unfoldable pub post_logout : Option Text → Page Unit
    post_logout raw =
        let cleared = with_cookie (some (clear_refresh_cookie h.cookies)) (answer 204 tt) in
        call_page (log_out_of raw) (λ _. cleared) λ _. cleared

    -- AuthHandler.VerifyEmailOTP
    unfoldable pub post_verify_email_otp : Text → Text → Page Text
    post_verify_email_otp raw_email raw_code =
        let email = trim_space raw_email in
        let code = trim_space raw_code in
        if email == [] || code == []
        then with_cookie none (refuse 400 (lit "email and otp are required"))
        else tell (verify_email_otp o email code) 200 (lit "email verified")

    -- AuthHandler.ResendEmailOTP
    unfoldable pub post_resend_email_otp : Text → Page Text
    post_resend_email_otp raw_email =
        let email = trim_space raw_email in
        if email == []
        then with_cookie none (refuse 400 (lit "email is required"))
        else tell (resend_email_otp o email) 200
            (lit "if the account exists and is unverified, a new code has been sent")

-- AuthHandler.Me, at the claims of the context: the fields of the answer are the account's.
unfoldable pub get_me : Option AccessClaims → Handler User
get_me none = refuse 401 (lit "unauthenticated")
get_me (some claims) = call (Postgres.Users.find_by_id claims.user_id) auth_error λ u. answer 200 u
