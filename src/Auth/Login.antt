-- ===== src/Auth/Login.antt =====
-- Who gets a session by a password, and what a refused administrator login leaves.
use olympiad_next.Prelude.{◌≡◌, ◌∙◌, true, some, find, arith}
use olympiad_next.Text.{Text, text_eq, or_empty}
use olympiad_next.Errors.{ok, of_user, UserError}
use olympiad_next.Domain.User.{User, is_admin, has_password}
use olympiad_next.Store.{Tables, World, lift}
use olympiad_next.Store.Answers.{
  Ensures, Ensures-bind, Ensures-require, Ensures-on_result, Ensures-raise, attempt-ok, found-row,
}
use olympiad_next.Postgres.Users.{by_email, find_by_email}
use olympiad_next.Auth.Outside.{Outside}
use olympiad_next.Auth.Jwt.{Manager}
use olympiad_next.Auth.Email.{verify_password}
use olympiad_next.Auth.Session.{TokenPair}
use olympiad_next.Auth.Issued.{IsSessionOf, issue_session-Ensures}
use olympiad_next.Auth.Accounts.{credential, authenticate_password, login, admin_login}

module _ (o : Outside) where
  -- The account of the address, up to letter case, with its password and a verified address.
  pub record IsAuthentic (db : Tables) (email password : Text) (u : User) : Type 0 where
    pub found : find (by_email o.lower email) db.users ≡ some u
    pub has_one : has_password u ≡ true
    pub matching : o.bcrypt_matches (or_empty u.password_hash) password ≡ true
    pub verified : u.email_verified ≡ true

  credential-ok :
      (password : Text) (u v : User)
      → credential o password u ≡ ok v
      → (u ≡ v)
        × (has_password u ≡ true)
        × (o.bcrypt_matches (or_empty u.password_hash) password ≡ true)
        × (u.email_verified ≡ true)
  unfolding credential verify_password
  credential-ok password u v h = ground arith

  authenticate-Ensures :
      (email password : Text) (w : World)
      → Ensures
          (authenticate_password o email password)
          w
          (λ u _. IsAuthentic w.db email password u)
  unfolding authenticate_password find_by_email lift
  authenticate-Ensures email password w = Ensures-bind _ _ w λ found e.
      Ensures-on_result found _ _ _ (λ x bad. Ensures-raise _ _)
        λ u good. record {
          of = λ v h.
              let (there, left) =
                found-row (λ db. find (by_email o.lower email) db.users)
                  (of_user UserError.not_found) w u
                  (attempt-ok (find_by_email o.lower email) w found e ∙ good) in
              let (same, one, matches, verified) = credential-ok password u v h in
              rw (← same)
                (record { found = there; has_one = one; matching = matches; verified = verified });
        }

  module _ (m : Manager) where
    -- An authentic account, whose session the pair is.
    abbrev pub Entered : Tables → Text → Text → TokenPair → User → Type 0
    Entered db email password pair u =
        IsAuthentic db email password u
        × IsSessionOf o m u.id u.email pair.access_token pair.refresh_token

    -- Login, whatever the server does: a session is that of an account of the address whose password
    -- matches and whose address is verified.
    pub login-IsAuthentic :
        (email password fingerprint : Text) (w : World) (pair : TokenPair)
        → (login o m email password fingerprint w).0 ≡ ok pair
        → (u : User) × Entered w.db email password pair u
    unfolding login
    login-IsAuthentic email password fingerprint w pair h =
        (Ensures-bind {P = λ p _. (u : User) × Entered w.db email password p u} _ _ w λ u e.
            record {
              of = λ p k. (
                u,
                (
                  (authenticate-Ensures email password w).of u e,
                  (issue_session-Ensures o m u.id u.email fingerprint _).of p k,
                ),
              );
            }).of
          pair h

    -- AdminLogin, whatever the server does: a session is that of such an account that has the admin role.
    pub admin_login-IsAdmin :
        (email password fingerprint : Text) (w : World) (pair : TokenPair)
        → (admin_login o m email password fingerprint w).0 ≡ ok pair
        → (u : User) × Entered w.db email password pair u × (is_admin u ≡ true)
    unfolding admin_login
    admin_login-IsAdmin email password fingerprint w pair h =
        (Ensures-bind
            {P = λ p _. (u : User) × Entered w.db email password p u × (is_admin u ≡ true)} _ _ w
            λ u e. Ensures-require _ _ _ _ λ role. record {
              of = λ p k. (
                u,
                (
                  (authenticate-Ensures email password w).of u e,
                  (issue_session-Ensures o m u.id u.email fingerprint _).of p k,
                ),
                role,
              );
            }).of
          pair h
