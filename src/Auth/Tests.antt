-- ===== src/Auth/Tests.antt =====
-- The theorems on accounts and sessions at a student's, and runs of the service.
use olympiad_next.Prelude.{
  ◌≡◌, ◌≢◌, refl, arith, ◌⊎◌, true, none, some, [], ◌∷◌, find, any, length, All,
}
use olympiad_next.Text.{codes, eq_text}
use olympiad_next.Errors.{ok, err, of_auth, AuthError}
use olympiad_next.Domain.User.{User}
use olympiad_next.Domain.Token.{is_active}
use olympiad_next.Store.{
  World, healthy, exec, query, ◌>>=◌, attempt, lift, clock, pure, require, on_result,
}
use olympiad_next.Postgres.Users.{by_email}
use olympiad_next.Postgres
use olympiad_next.Postgres.Users.Changes.{with_email_otp, mark_email_verified}
use olympiad_next.Postgres.Users.State.{AccountsAreValid}
use olympiad_next.Postgres.Tokens as Tokens
use olympiad_next.Postgres.Tokens.{unrevoked_of, by_hash}
use olympiad_next.Store.Rows.{count, update}
use olympiad_next.Auth.Outside.{Claims, moment}
use olympiad_next.Auth.Jwt.{
  parse_refresh_token, generate_access_token, generate_refresh_token, new_jti,
}
use olympiad_next.Auth.Session.{
  refresh, rotate, refresh_stored, issue_rotated, issue_token_pair, bind_device,
}
use olympiad_next.Auth.Otp.{
  draw, generate_otp_code, issue_email_otp, verify_email_otp, verify_found,
}
use olympiad_next.Auth.Requests.{serve_all, log_in, log_out, background, wait}
use olympiad_next.Auth.Rotation.{rotate_once}
use olympiad_next.Auth.Refresh.{refresh_once}
use olympiad_next.Auth.Reused.{refresh-reuse}
use olympiad_next.Auth.Codes.{
  DrawsDigits, IsDigit, IsKnown, generate_otp_code-IsCode, verify_email_otp-IsKnown,
}
use olympiad_next.Auth.Verified.{issue-verify}
use olympiad_next.Auth.Valid.{serve_all-AccountsAreValid}
use olympiad_next.Auth.Sample.{
  outside, manager, session, a_pair, after_use, signed_up, a_user, newcomer, a_token, used_token,
  tables,
}
use olympiad_next.Fixtures.{user_id}

refreshed : (refresh outside manager (codes "raw") session).0 ≡ ok (a_pair 3)
unfolding refresh refresh_stored rotate issue_rotated issue_token_pair parse_refresh_token
    generate_access_token generate_refresh_token new_jti moment bind_device
    Tokens.find_by_token_hash Tokens.revoke Tokens.create Postgres.Users.find_by_id ◌>>=◌ attempt
    lift clock pure require exec query find any count update is_active eq_text
refreshed = refl

refresh_once_example :
    (refresh outside manager (codes "raw") (
      serve_all outside manager
        (background ∷ wait 10 ∷ [])
        (refresh outside manager (codes "raw") session).1)).0
    ≢ ok (a_pair 9)
refresh_once_example =
    refresh_once outside manager (codes "raw") (background ∷ wait 10 ∷ []) session (a_pair 3)
      (a_pair 9) refreshed

rotated : (rotate outside manager a_token a_user session).0 ≡ ok (a_pair 1)
unfolding rotate issue_rotated issue_token_pair generate_access_token generate_refresh_token new_jti
    moment bind_device Tokens.revoke Tokens.create ◌>>=◌ attempt lift clock pure require exec find
    any count update eq_text
rotated = refl

-- The second of two requests that have read the token.
rotate_once_example :
    (rotate outside manager a_token a_user (
      serve_all outside manager
        (log_out (codes "r") ∷ [])
        (rotate outside manager a_token a_user session).1)).0
    ≢ ok (a_pair 4)
rotate_once_example =
    rotate_once outside manager a_token a_token a_user a_user (log_out (codes "r") ∷ []) session
      (a_pair 1) (a_pair 4) refl rotated

abbrev some_claims : Claims
some_claims = record {
  user_id = user_id;
  email = none;
  jti = codes "raw";
  issued_at = 1;
  expires_at = 900;
}

found_used : find (by_hash (codes "raw")) after_use.db.refresh_tokens ≡ some used_token
unfolding find eq_text
found_used = refl

refresh-reuse_example :
    ((refresh outside manager (codes "raw") (healthy after_use)).0
      ≡ err (of_auth AuthError.session_expired))
    × All
        (λ x. (x.user_id ≢ user_id) ⊎ (x.revoked_at ≢ none))
        (refresh outside manager (codes "raw") (healthy after_use)).1.db.refresh_tokens
refresh-reuse_example =
    refresh-reuse outside manager (codes "raw") some_claims used_token after_use refl found_used
      refl

digits : DrawsDigits outside
digits step i d e = ground arith

drawn : (generate_otp_code outside session).0 ≡ ok (codes "777777")
unfolding generate_otp_code draw moment lift ◌>>=◌
drawn = refl

generate_otp_code-IsCode_example : (length (codes "777777") ≡ 6) × All IsDigit (codes "777777")
generate_otp_code-IsCode_example =
    generate_otp_code-IsCode outside digits (codes "777777") session drawn

-- The newcomer has been sent the code.
abbrev waiting : World
waiting = record signed_up {
  db = record tables { users = with_email_otp (codes "777777") 100 5 newcomer ∷ [] };
}

entered : (verify_email_otp outside (codes "u@x") (codes "777777") waiting).0 ≡ ok tt
unfolding verify_email_otp verify_found Postgres.Users.find_by_email mark_email_verified
    Postgres.Users.change_user Postgres.Users.check_rows_affected ◌>>=◌ attempt lift clock pure
    require exec query find count update on_result eq_text
entered = refl

verify_email_otp-IsKnown_example :
    (u : User) × (find (by_email outside.lower (codes "u@x")) waiting.db.users ≡ some u)
    × IsKnown outside 5 (codes "777777") u
verify_email_otp-IsKnown_example =
    verify_email_otp-IsKnown outside (codes "u@x") (codes "777777") waiting entered

found_newcomer : find (by_email outside.lower (codes "u@x")) signed_up.db.users ≡ some newcomer
unfolding find eq_text
found_newcomer = refl

drawn_first : draw outside 0 0 6 ≡ some (codes "777777")
unfolding draw
drawn_first = refl

issue-verify_example :
    let w1 = (issue_email_otp outside user_id (codes "u@x") (healthy signed_up)).1 in
    let r = verify_email_otp outside (codes "u@x") (codes "777777") (record w1 { now = 15 }) in
    (r.0 ≡ ok tt)
    × (find (by_email outside.lower (codes "u@x")) r.1.db.users
        ≡ some (record newcomer {
          email_verified = true;
          email_otp = none;
          email_otp_expiry = none;
          updated_at = 15;
        }))
issue-verify_example =
    issue-verify outside newcomer (codes "u@x") (codes "777777") signed_up 10 found_newcomer refl
      drawn_first (omega arith)

valid : AccountsAreValid outside.lower session.db
unfolding any eq_text
valid = record {
  accounts = (
    record { credential = refl; email_code = refl; phone_code = refl },
    (record { credential = refl; email_code = refl; phone_code = refl }, tt),
  );
  unique = (refl, (refl, tt));
  tokens = (record { generated = refl }, tt);
  unique_tokens = (refl, tt);
}

serve_all-AccountsAreValid_example :
    AccountsAreValid outside.lower
      (serve_all outside manager
        (log_in (codes "u@x") (codes "secret") (codes "d") ∷ [])
        session).db
serve_all-AccountsAreValid_example =
    serve_all-AccountsAreValid outside manager
      (log_in (codes "u@x") (codes "secret") (codes "d") ∷ []) session valid
