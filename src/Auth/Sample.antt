-- ===== src/Auth/Sample.antt =====
-- A concrete outside world, and worlds with accounts and sessions, for the tests.
use olympiad_next.Prelude.{ℕ, true, false, none, some, [], ◌∷◌, ◌++◌, ◌==◌, ltb, if◌then◌else◌}
use olympiad_next.Text.{text_eq, codes}
use olympiad_next.Domain.User.{User, admin}
use olympiad_next.Domain.Token.{RefreshToken}
use olympiad_next.Domain.Message.{sent}
use olympiad_next.Store.{Tables, World}
use olympiad_next.Auth.Outside.{Outside}
use olympiad_next.Auth.Jwt.{Manager}
use olympiad_next.Auth.Session.{TokenPair}
use olympiad_next.Fixtures.{a_student, user_id, no_tables, world}

-- A token is its secret with its id. Every text is a good token of the student until the instant 900.
abbrev pub outside : Outside
outside = record {
  lower = λ s. s;
  parses_address = λ s. true;
  bcrypt = λ step plain. some plain;
  bcrypt_matches = λ hash plain. hash == plain;
  sha256_hex = λ s. s;
  random_digit = λ step i. some 7;
  random_id = λ step i. some (step ∷ i ∷ []);
  numeric_date = λ t. t;
  signed_string = λ secret c. some (secret ++ c.jti);
  parse_with_claims = λ secret now raw.
      if ltb now 900
      then some
          (record { user_id = user_id; email = none; jti = raw; issued_at = 1; expires_at = 900 })
      else none;
  validate_id_token = λ client now raw. none;
  deliver = λ step m. sent;
}

abbrev pub manager : Manager
manager = record {
  access_secret = codes "a";
  refresh_secret = codes "r";
  access_ttl = 15;
  refresh_ttl = 600;
}

abbrev pub a_user : User
a_user = record a_student { password_hash = some (codes "secret") }

abbrev pub an_admin : User
an_admin = record a_user { id = codes "admin"; email = codes "admin@x"; role = admin }

abbrev pub a_token : RefreshToken
a_token = record {
  id = codes "t";
  user_id = user_id;
  token_hash = codes "raw";
  expires_at = 500;
  created_at = 1;
  revoked_at = none;
  revoked = false;
}

abbrev pub used_token : RefreshToken
used_token = record a_token { revoked_at = some 3; revoked = true }

abbrev pub tables : Tables
tables = record no_tables { users = a_user ∷ an_admin ∷ []; refresh_tokens = a_token ∷ [] }

abbrev pub session : World
session = world tables 5

-- The token has been used.
abbrev pub after_use : World
after_use = world (record tables { refresh_tokens = used_token ∷ [] }) 5

-- The student has not verified the address.
abbrev pub newcomer : User
newcomer = record a_user { email_verified = false }

abbrev pub signed_up : World
signed_up = world (record tables { users = newcomer ∷ [] }) 5

-- The pair that is issued at the instant 5, whose ids have the step at which they were drawn.
abbrev pub a_pair : ℕ → TokenPair
a_pair step = record {
  access_token = codes "a" ++ step ∷ 0 ∷ [];
  access_token_expires_at = 20;
  refresh_token = codes "r" ++ step ∷ 1 ∷ [];
  refresh_token_expires_at = 605;
}
