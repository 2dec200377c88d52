-- ===== src/Postgres/Users/State.antt =====
-- What is valid in the tables users and refresh_tokens.
use olympiad_next.Prelude.{◌≡◌, Bool, true, false, not, ◌||◌, Option, none, some, All, nat_eq}
use olympiad_next.Text.{Text, text_eq}
use olympiad_next.Domain.User.{User}
use olympiad_next.Domain.Token.{RefreshToken, is_unrevoked}
use olympiad_next.Store.{Tables}
use olympiad_next.Store.Unique.{Distinct}
use olympiad_next.Postgres.Users.{has_credential, is_taken}
use olympiad_next.Postgres.Tokens as Tokens
use olympiad_next.Postgres.Tokens.{
  NewToken, insert_token, revoke_stmt, revoke_all_stmt, upsert_stmt, revoked_row, unrevoked_by_id,
  unrevoked_of, by_hash,
}

-- A column that is NULL, of any type.
abbrev pub is_missing {ℓ} : {A : Type ℓ} → Option A → Bool
is_missing none = true
is_missing (some _) = false

-- An account can log in by one of the two ways; a code and its expiry come together, by
-- e-mail and on the phone.
pub record AccountIsValid (u : User) : Type 0 where
  pub credential : has_credential u ≡ true
  pub email_code : is_missing u.email_otp ≡ is_missing u.email_otp_expiry
  pub phone_code : is_missing u.notification_phone_otp ≡ is_missing u.notification_phone_otp_expiry

-- The generated column says what it is generated from.
pub record TokenIsValid (t : RefreshToken) : Type 0 where
  pub generated : t.revoked ≡ not (is_unrevoked t)

-- Two tokens that the primary key or the unique index forbids together.
abbrev pub clash_token : RefreshToken → RefreshToken → Bool
clash_token t n = Tokens.by_id n.id t || by_hash n.token_hash t

module _ (lower : Text → Text) where
  abbrev pub clash_user : User → User → Bool
  clash_user u n = is_taken lower n u

  pub record AccountsAreValid (db : Tables) : Type 0 where
    pub accounts : All AccountIsValid db.users
    pub unique : Distinct clash_user db.users
    pub tokens : All TokenIsValid db.refresh_tokens
    pub unique_tokens : Distinct clash_token db.refresh_tokens
