-- ===== src/Auth/Accounts.antt =====
-- internal/auth/service.go: registration, the three ways to log in, and google/verifier.go.
use olympiad_next.Prelude.{Bool, false, not, ◌||◌, Option, none, some, [], ◌==◌, if◌then◌else◌}
use olympiad_next.Text.{Text, text_eq, or_empty}
use olympiad_next.Errors.{of_auth, AuthError, is_user_not_found, Result, ok, err}
use olympiad_next.Domain.User.{User, local, google, is_admin, has_password}
use olympiad_next.Store.{App, raise, lift, attempt, require, clock, ◌>>=◌, ◌>>◌, on_result}
use olympiad_next.Postgres
use olympiad_next.Auth.Outside.{Outside, Payload}
use olympiad_next.Auth.Jwt.{Manager}
use olympiad_next.Auth.Email.{
  validate_email, validate_password_strength, hash_password, verify_password,
}
use olympiad_next.Auth.Session.{TokenPair, issue_session_after_auth}
use olympiad_next.Auth.Otp.{issue_email_otp}

-- google.Claims
pub record GoogleClaims : Type 0 where
  pub subject : Text
  pub email : Text
  pub email_verified : Bool
  pub name : Text

abbrev or_false : Option Bool → Bool
or_false none = false
or_false (some b) = b

-- Verifier.Verify, once the token is validated.
abbrev pub to_claims : Payload → Result GoogleClaims
to_claims p =
    if or_empty p.sub == [] || or_empty p.email == []
    then err (of_auth AuthError.invalid_token)
    else ok (record {
      subject = or_empty p.sub;
      email = or_empty p.email;
      email_verified = or_false p.email_verified;
      name = or_empty p.name;
    })

abbrev validated : Option Payload → Result GoogleClaims
validated none = err (of_auth AuthError.invalid_token)
validated (some p) = to_claims p

-- The account that Register creates.
abbrev pub local_user : Text → Text → Postgres.Users.NewUser
local_user email hash = record {
  email = email;
  full_name = none;
  password_hash = some hash;
  auth_provider = local;
  google_id = none;
  email_verified = false;
  institution_name = none;
  level = none;
  medium = none;
}

-- The account that GoogleLogin creates.
abbrev pub google_user : GoogleClaims → Postgres.Users.NewUser
google_user c = record {
  email = c.email;
  full_name = some c.name;
  password_hash = none;
  auth_provider = google;
  google_id = some c.subject;
  email_verified = c.email_verified;
  institution_name = none;
  level = none;
  medium = none;
}

module _ (o : Outside) where
  -- Verifier.Verify for the client id of the server.
  unfoldable pub verify : Text → Text → App GoogleClaims
  verify client_id raw = do now ← clock; lift (validated (o.validate_id_token client_id now raw))

  -- Service.Register
  unfoldable pub register : Text → Text → App Unit
  unfolding validate_email validate_password_strength hash_password
  register raw_email password = do
    lift (validate_email o raw_email)
    lift (validate_password_strength password)
    hash ← hash_password o password
    u ← Postgres.Users.create o.lower (local_user raw_email hash)
    issue_email_otp o u.id raw_email

  -- What authenticatePassword says of an account that is found.
  unfoldable pub credential : Text → User → Result User
  unfolding verify_password
  credential password u =
      if not (has_password u)
      then err (of_auth AuthError.google_only_account)
      else if not (verify_password o (or_empty u.password_hash) password)
      then err (of_auth AuthError.invalid_credentials)
      else if not u.email_verified
      then err (of_auth AuthError.email_not_verified)
      else ok u

  -- Service.authenticatePassword
  unfoldable pub authenticate_password : Text → Text → App User
  unfolding credential
  authenticate_password raw_email password = do
    found ← attempt (Postgres.Users.find_by_email o.lower raw_email)
    on_result found
        (λ e. raise (if is_user_not_found e then of_auth AuthError.invalid_credentials else e))
        λ u. lift (credential password u)

  module _ (m : Manager) where
    -- Service.Login
    unfoldable pub login : Text → Text → Text → App TokenPair
    unfolding authenticate_password issue_session_after_auth
    login raw_email password fingerprint = do
      u ← authenticate_password raw_email password
      issue_session_after_auth o m u.id u.email fingerprint

    -- Service.AdminLogin
    unfoldable pub admin_login : Text → Text → Text → App TokenPair
    unfolding authenticate_password issue_session_after_auth
    admin_login raw_email password fingerprint = do
      u ← authenticate_password raw_email password
      require (is_admin u) (of_auth AuthError.admin_access_required)
      issue_session_after_auth o m u.id u.email fingerprint

    -- GoogleLogin, where no account has the Google id.
    unfoldable pub link_or_create : GoogleClaims → Text → App TokenPair
    link_or_create c fingerprint = do
      existing ← attempt (Postgres.Users.find_by_email o.lower c.email)
      on_result existing
          (λ e. if not (is_user_not_found e) then raise e else do
            u ← Postgres.Users.create o.lower (google_user c)
            issue_session_after_auth o m u.id c.email fingerprint)
          λ u. do
            Postgres.Users.Changes.link_google_id u.id c.subject c.email_verified
            issue_session_after_auth o m u.id u.email fingerprint

    -- Service.GoogleLogin
    unfoldable pub google_login : Text → Text → Text → App TokenPair
    unfolding verify link_or_create
    google_login client_id raw fingerprint = do
      c ← verify client_id raw
      found ← attempt (Postgres.Users.find_by_google_id c.subject)
      on_result found
          (λ e. if not (is_user_not_found e) then raise e else link_or_create c fingerprint)
          λ u. issue_session_after_auth o m u.id u.email fingerprint
