-- ===== src/Http/Tests.antt =====
-- The theorems on the middleware and the handlers at concrete requests.
use olympiad_next.Prelude.{
  ℕ, ◌≡◌, ◌≢◌, ◌↔◌, ◌⊎◌, refl, true, false, none, some, List, [], ◌∷◌, find, any, arith,
}
use olympiad_next.Text.{Text, text_eq, eq_text, codes}
use olympiad_next.Text.Trim.{trim_space}
use olympiad_next.Errors.{ok}
use olympiad_next.Domain.User.{User, VerificationStatus, admin, is_admin, has_password}
use olympiad_next.Postgres
use olympiad_next.Store.{World, attempt, lift, clock, require, on_result, pure, exec, query, ◌>>=◌}
use olympiad_next.Store.Rows.{count, update}
use olympiad_next.Postgres.Users.{
  by_id, get_active_device_fingerprint, find_by_id, change_user, check_rows_affected,
}
use olympiad_next.Postgres.Users.Changes.{update_active_device_fingerprint}
use olympiad_next.Postgres.Tokens as Tokens
use olympiad_next.Auth.Outside.{moment, spawn}
use olympiad_next.Auth.Jwt.{
  AccessClaims, parse_access_token, generate_access_token, generate_refresh_token, new_jti,
}
use olympiad_next.Auth.Session.{issue_session_after_auth, issue_token_pair, bind_device}
use olympiad_next.Auth.Email.{verify_password}
use olympiad_next.Auth.Accounts.{admin_login, authenticate_password, credential}
use olympiad_next.Auth.Issued.{IsSigned}
use olympiad_next.Auth.Login.{IsAuthentic}
use olympiad_next.Auth.Sample.{outside, manager, session, tables, a_pair, a_user}
use olympiad_next.Http.{done, refused, Handler, answer, call}
use olympiad_next.Http.Gates.{extract_bearer_token, require_access_token}
use olympiad_next.Http.Files.{is_clean_segment, serve_protected_file, protected_file_path}
use olympiad_next.Http.Profile.{SubmitProfileRequest, submit_profile, verify_user}
use olympiad_next.Http.Device.{session-one_device}
use olympiad_next.Http.Admin.{admin_route, Administers, admin_route-Administers}
use olympiad_next.Http.Cookies.{
  Cookie, student_refresh_cookie_name, student_refresh_cookie_path, admin_refresh_cookie_name,
  admin_refresh_cookie_path,
}
use olympiad_next.Http.Sessions.{
  AuthHandler, AuthResponse, new_auth_handler, new_admin_auth_handler, post_login, call_page,
  respond_with_session, with_cookie,
}
use olympiad_next.Http.Entry.{renew, cookie_after, EachGuarded, post-Guarded_each}
use olympiad_next.Http.Logins.{post_login-IsAuthentic}
use olympiad_next.Http.Uploads.{public_upload, public_upload-protected_file_path}
use olympiad_next.Http.Owners.{
  IsSegment, IsFileOf, MaySee, is_clean_segment_iff, serve_protected_file-MaySee,
}
use olympiad_next.Http.Reviewed.{IsReviewed, submit_profile-IsReviewed}
use olympiad_next.Fixtures.{user_id}

abbrev some_claims : AccessClaims
some_claims = record {
  user_id = user_id;
  email = [];
  jti = codes "raw";
  issued_at = 1;
  expires_at = 900;
}

abbrev header : Text
header = codes "Bearer raw"

-- A handler that answers with the user of its claims.
abbrev me : AccessClaims → Handler Text
me claims = answer 200 claims.user_id

first_login :
    (issue_session_after_auth outside manager user_id (codes "u@x") (codes "d") session).0
    ≡ ok (a_pair 0)
unfolding issue_session_after_auth issue_token_pair generate_access_token generate_refresh_token
    new_jti moment bind_device Tokens.create ◌>>=◌ attempt lift clock pure exec any count update
    eq_text update_active_device_fingerprint change_user check_rows_affected spawn
first_login = refl

-- The world after the login.
abbrev bound : World
bound = (issue_session_after_auth outside manager user_id (codes "u@x") (codes "d") session).1

signed : (parse_access_token outside manager (extract_bearer_token header) bound).0 ≡ ok some_claims
unfolding issue_session_after_auth issue_token_pair generate_access_token generate_refresh_token
    new_jti moment bind_device Tokens.create ◌>>=◌ attempt lift clock pure exec any count update
    eq_text update_active_device_fingerprint change_user check_rows_affected spawn
    parse_access_token extract_bearer_token trim_space
signed = refl

other_device : codes "e" ≢ codes "d"
other_device h = ground arith

session-one_device_example :
    (require_access_token outside manager header (codes "e") me bound).0 ≢ done 200 user_id
session-one_device_example =
    session-one_device outside manager user_id (codes "u@x") (codes "d") (codes "e") header session
      (a_pair 0) some_claims me 200 user_id (λ h. cc) other_device first_login signed refl

is_clean_segment_iff_example : (is_clean_segment (codes "a.png") ≡ true) ↔ IsSegment (codes "a.png")
is_clean_segment_iff_example = is_clean_segment_iff (codes "a.png")

abbrev a_path : List Text
a_path = codes "users" ∷ user_id ∷ codes "a.png" ∷ []

served :
    (serve_protected_file outside manager (codes "users") header user_id (codes "a.png") session).0
    ≡ done 200 a_path
unfolding serve_protected_file protected_file_path is_clean_segment extract_bearer_token
    parse_access_token call answer ◌>>=◌ lift clock pure any eq_text trim_space
served = refl

serve_protected_file-MaySee_example :
    (claims : AccessClaims) × ((parse_access_token outside manager
        (extract_bearer_token header)
        session).0
      ≡ ok claims)
    × MaySee outside manager session.db claims user_id
    × IsFileOf (codes "users") user_id (codes "a.png") a_path
serve_protected_file-MaySee_example =
    serve_protected_file-MaySee outside manager (codes "users") header user_id (codes "a.png")
      session 200 a_path served

-- The student names another level, with a new document.
abbrev a_request : SubmitProfileRequest
a_request = record {
  full_name = codes " U ";
  institution_name = codes "S";
  level = codes "Secondary";
  medium = codes "English";
  verification_doc = codes "/uploads/users/u/a.png";
  profile_picture = [];
}

found_user : find (by_id user_id) session.db.users ≡ some a_user
unfolding find eq_text
found_user = refl

submit_profile-IsReviewed_example :
    IsReviewed user_id a_user (submit_profile (some some_claims) a_request session).1.db
submit_profile-IsReviewed_example =
    submit_profile-IsReviewed some_claims a_request a_user session found_user

-- The account of the token is an administrator's, who verifies the student.
abbrev office : World
office = record session { db = record tables { users = record a_user { role = admin } ∷ [] } }

abbrev a_review : Handler (Text × VerificationStatus)
a_review = verify_user user_id (codes "verified")

admin_route-Administers_example :
    let r = admin_route outside manager header [] a_review office in
    ((s : ℕ) × (message : Text) × (r.0 ≡ refused s message) × (r.1.db ≡ office.db))
    ⊎ Administers outside manager header [] a_review office r
admin_route-Administers_example = admin_route-Administers outside manager header [] a_review office

-- The deployment sets SameSite=None and forgets Secure.
abbrev console : AuthHandler
console = new_admin_auth_handler [] false (codes "None")

post-Guarded_each_example :
    EachGuarded student_refresh_cookie_name student_refresh_cookie_path (
      cookie_after outside manager
        (new_auth_handler [] false (codes "None"))
        (renew (some (codes "raw")))
        session)
    × EachGuarded admin_refresh_cookie_name admin_refresh_cookie_path
        (cookie_after outside manager console (renew (some (codes "raw"))) session)
post-Guarded_each_example =
    post-Guarded_each outside manager [] false (codes "None") (renew (some (codes "raw"))) session

abbrev a_response : AuthResponse
a_response = record { access_token = (a_pair 1).access_token; access_token_expires_at = 20 }

logged_in :
    (post_login console outside manager (codes "admin@x") (codes "secret") [] session).0.0
    ≡ done 200 a_response
unfolding post_login call_page respond_with_session with_cookie answer admin_login
    authenticate_password credential verify_password Postgres.Users.find_by_email
    issue_session_after_auth issue_token_pair generate_access_token generate_refresh_token new_jti
    moment bind_device Tokens.create ◌>>=◌ attempt lift clock pure require exec query find any
    on_result eq_text is_admin has_password
logged_in = refl

post_login-IsAuthentic_example :
    (u : User) × IsAuthentic outside session.db (codes "admin@x") (codes "secret") u
    × (is_admin u ≡ true)
    × IsSigned outside manager.access_secret u.id (some u.email) a_response.access_token
    × (c : Cookie) × ((post_login console outside manager
          (codes "admin@x")
          (codes "secret")
          []
          session).0.1
        ≡ some c)
    × IsSigned outside manager.refresh_secret u.id none c.value
post_login-IsAuthentic_example =
    post_login-IsAuthentic outside manager console (codes "admin@x") (codes "secret") [] session 200
      a_response logged_in

guarded : protected_file_path (codes "users") user_id (codes "a.png") ≡ some a_path
unfolding protected_file_path is_clean_segment any eq_text
guarded = refl

public_upload-protected_file_path_example :
    (public_upload (codes "/uploads//users/u/a.png") session).0 ≡ done 200 a_path
public_upload-protected_file_path_example =
    public_upload-protected_file_path (codes "users") user_id (codes "a.png") a_path session guarded
