-- ===== src/Auth/Kept.antt =====
-- What the statements keep of the tables, every request to the auth service keeps.
use olympiad_next.Prelude.{List, [], ◌∷◌}
use olympiad_next.Text.{Text}
use olympiad_next.Domain.User.{User}
use olympiad_next.Domain.Token.{RefreshToken}
use olympiad_next.Domain.Message.{Message}
use olympiad_next.Store.{Tables, World}
use olympiad_next.Store.Keeps.{
  Keeps, keeps_rules, Keeps-bind, Keeps-attempt, Keeps-pure, Keeps-if, Keeps-raise,
}
use olympiad_next.Postgres.Users.Lift.{
  StatementsKeep, email_code, email_verified, device, find_by_id-Keeps, find_by_google_id-Keeps,
  find_by_email-Keeps, find_by_token_hash-Keeps, create-Keeps, link_google_id-Keeps,
  change_user-Keeps, create_token-Keeps, revoke-Keeps, revoke_all-Keeps, upsert_device-Keeps,
}
use olympiad_next.Postgres.Users.Changes.{
  update_active_device_fingerprint, set_email_otp, mark_email_verified,
}
use olympiad_next.Auth.Outside.{Outside, moment, post, spawn}
use olympiad_next.Auth.Jwt.{
  Manager, RefreshClaims, new_jti, generate_access_token, generate_refresh_token,
  parse_refresh_token,
}
use olympiad_next.Auth.Email.{hash_password}
use olympiad_next.Auth.Session.{
  bind_device, issue_token_pair, issue_session_after_auth, reuse, issue_rotated, rotate,
  refresh_stored, refresh, logout, upsert_device_async, run_first, run_spawned,
}
use olympiad_next.Auth.Otp.{
  generate_otp_code, issue_email_otp, verify_found, verify_email_otp, resend_email_otp,
}
use olympiad_next.Auth.Accounts.{
  GoogleClaims, verify, register, authenticate_password, login, admin_login, link_or_create,
  google_login,
}
use olympiad_next.Auth.Requests.{
  Request, serve, serve_all, sign_up, log_in, log_in_admin, log_in_google, renew, log_out,
  verify_code, resend_code, background, wait,
}

module _ {P : Tables → Type 0} where
  pub Keeps-moment : Keeps P moment
  unfolding moment
  Keeps-moment = record { at = λ w h. h }

  pub Keeps-post : (o : Outside) (m : Message) → Keeps P (post o m)
  unfolding post
  Keeps-post o m = record { at = λ w h. h }

  pub Keeps-spawn : (user fingerprint : Text) → Keeps P (spawn user fingerprint)
  unfolding spawn
  Keeps-spawn user fingerprint = record { at = λ w h. h }

pub ruleset auth_rules = (
  keeps_rules, Keeps-moment, Keeps-post, Keeps-spawn, find_by_id-Keeps, find_by_google_id-Keeps,
  find_by_email-Keeps, find_by_token_hash-Keeps,
)

module _ {P : Tables → Type 0} (o : Outside) where
  pub generate_otp_code-Keeps : Keeps P (generate_otp_code o)
  unfolding generate_otp_code
  generate_otp_code-Keeps = search auth_rules

  hash_password-Keeps : (plain : Text) → Keeps P (hash_password o plain)
  unfolding hash_password
  hash_password-Keeps plain = search auth_rules

  verify-Keeps : (client raw : Text) → Keeps P (verify o client raw)
  unfolding verify
  verify-Keeps client raw = search auth_rules

  pub authenticate-Keeps :
      (email password : Text) → Keeps P (authenticate_password o email password)
  unfolding authenticate_password
  authenticate-Keeps email password = search auth_rules

  module _ (m : Manager) where
    pub access-Keeps : (user email : Text) → Keeps P (generate_access_token o m user email)
    unfolding generate_access_token new_jti
    access-Keeps user email = search auth_rules

    pub refresh_token-Keeps : (user : Text) → Keeps P (generate_refresh_token o m user)
    unfolding generate_refresh_token new_jti
    refresh_token-Keeps user = search auth_rules

    pub parse-Keeps : (raw : Text) → Keeps P (parse_refresh_token o m raw)
    unfolding parse_refresh_token
    parse-Keeps raw = search auth_rules

module _ {P : Tables → Type 0} (o : Outside) (m : Manager) (k : StatementsKeep o.lower P) where
  bind_device-Keeps : (user f : Text) → Keeps P (bind_device user f)
  unfolding bind_device update_active_device_fingerprint
  bind_device-Keeps user [] = Keeps-pure tt
  bind_device-Keeps user (c ∷ s) =
      Keeps-bind _ _ (change_user-Keeps k (device (c ∷ s)) user) λ _. Keeps-spawn user (c ∷ s)

  issue-Keeps : (user email f : Text) → Keeps P (issue_token_pair o m user email f)
  unfolding issue_token_pair
  issue-Keeps user email f =
      search
        (auth_rules, access-Keeps, refresh_token-Keeps, create_token-Keeps k, bind_device-Keeps)
        depth 12

  session-Keeps : (user email f : Text) → Keeps P (issue_session_after_auth o m user email f)
  unfolding issue_session_after_auth
  session-Keeps user email f = search (auth_rules, issue-Keeps) depth 16

  reuse-Keeps : (t : RefreshToken) → Keeps P (reuse o m t)
  unfolding reuse
  reuse-Keeps t = search (auth_rules, revoke_all-Keeps k) depth 16

  pub issue_rotated-Keeps : (u : User) → Keeps P (issue_rotated o m u)
  unfolding issue_rotated
  issue_rotated-Keeps u = search (auth_rules, issue-Keeps) depth 16

  pub rotate-Keeps : (t : RefreshToken) (u : User) → Keeps P (rotate o m t u)
  unfolding rotate
  rotate-Keeps t u = search (auth_rules, revoke-Keeps k, reuse-Keeps, issue_rotated-Keeps) depth 16

  stored-Keeps : (c : RefreshClaims) (t : RefreshToken) → Keeps P (refresh_stored o m c t)
  unfolding refresh_stored
  stored-Keeps c t = search (auth_rules, reuse-Keeps, rotate-Keeps) depth 16

  refresh-Keeps : (raw : Text) → Keeps P (refresh o m raw)
  unfolding refresh
  refresh-Keeps raw = search (auth_rules, parse-Keeps, stored-Keeps) depth 16

  logout-Keeps : (raw : Text) → Keeps P (logout o m raw)
  unfolding logout
  logout-Keeps raw = search (auth_rules, revoke-Keeps k) depth 16

  issue_otp-Keeps : (user to : Text) → Keeps P (issue_email_otp o user to)
  unfolding issue_email_otp set_email_otp
  issue_otp-Keeps user to = Keeps-bind _ _ (generate_otp_code-Keeps o) λ code.
      Keeps-bind _ _ (search auth_rules)
        λ now. Keeps-bind _ _ (change_user-Keeps k (email_code code _) user) λ _. search auth_rules

  verify_found-Keeps : (u : User) (code : Text) → Keeps P (verify_found o u code)
  unfolding verify_found mark_email_verified
  verify_found-Keeps u code = search (auth_rules, change_user-Keeps k email_verified) depth 16

  verify_otp-Keeps : (email code : Text) → Keeps P (verify_email_otp o email code)
  unfolding verify_email_otp
  verify_otp-Keeps email code = search (auth_rules, verify_found-Keeps) depth 16

  resend-Keeps : (email : Text) → Keeps P (resend_email_otp o email)
  unfolding resend_email_otp
  resend-Keeps email = search (auth_rules, issue_otp-Keeps) depth 16

  register-Keeps : (email password : Text) → Keeps P (register o email password)
  unfolding register
  register-Keeps email password =
      search (auth_rules, hash_password-Keeps, create-Keeps k, issue_otp-Keeps) depth 16

  login-Keeps : (email password f : Text) → Keeps P (login o m email password f)
  unfolding login
  login-Keeps email password f = search (auth_rules, authenticate-Keeps, session-Keeps) depth 16

  admin_login-Keeps : (email password f : Text) → Keeps P (admin_login o m email password f)
  unfolding admin_login
  admin_login-Keeps email password f =
      search (auth_rules, authenticate-Keeps, session-Keeps) depth 16

  link_or_create-Keeps : (c : GoogleClaims) (f : Text) → Keeps P (link_or_create o m c f)
  unfolding link_or_create
  link_or_create-Keeps c f =
      search (auth_rules, create-Keeps k, link_google_id-Keeps k, session-Keeps) depth 16

  google-Keeps : (client raw f : Text) → Keeps P (google_login o m client raw f)
  unfolding google_login
  google-Keeps client raw f =
      search (auth_rules, verify-Keeps, link_or_create-Keeps, session-Keeps) depth 16

  upsert-Keeps : (user f : Text) → Keeps P (upsert_device_async user f)
  unfolding upsert_device_async
  upsert-Keeps user f = search (auth_rules, upsert_device-Keeps k) depth 16

  run_first-Keeps : (jobs : List (Text × Text)) → Keeps P (run_first jobs)
  run_first-Keeps [] = record { at = λ w h. h }
  run_first-Keeps ((user, f) ∷ rest) = record { at = λ w h. (upsert-Keeps user f).at _ h }

  run_spawned-Keeps : Keeps P run_spawned
  unfolding run_spawned
  run_spawned-Keeps = record { at = λ w h. (run_first-Keeps w.spawned).at w h }

  pub serve-Keeps : (r : Request) (w : World) → P w.db → P (serve o m r w).db
  unfolding serve
  serve-Keeps (sign_up email password) w h = (register-Keeps email password).at w h
  serve-Keeps (log_in email password f) w h = (login-Keeps email password f).at w h
  serve-Keeps (log_in_admin email password f) w h = (admin_login-Keeps email password f).at w h
  serve-Keeps (log_in_google client raw f) w h = (google-Keeps client raw f).at w h
  serve-Keeps (renew raw) w h = (refresh-Keeps raw).at w h
  serve-Keeps (log_out raw) w h = (logout-Keeps raw).at w h
  serve-Keeps (verify_code email code) w h = (verify_otp-Keeps email code).at w h
  serve-Keeps (resend_code email) w h = (resend-Keeps email).at w h
  serve-Keeps background w h = run_spawned-Keeps.at w h
  serve-Keeps (wait n) w h = h

  -- What every statement keeps, every sequence of requests keeps, whatever the server does.
  pub serve_all-Keeps : (rs : List Request) (w : World) → P w.db → P (serve_all o m rs w).db
  unfolding serve_all
  serve_all-Keeps [] w h = h
  serve_all-Keeps (r ∷ rs) w h = serve_all-Keeps rs (serve o m r w) (serve-Keeps r w h)
