-- ===== src/Postgres/Users/Lift.antt =====
-- What the statements on accounts, tokens and devices keep of the tables, the methods around them keep.
use olympiad_next.Prelude.{ℕ, zero, suc, Bool}
use olympiad_next.Text.{Text}
use olympiad_next.Domain.User.{User, VerificationStatus, OnboardingProfile, email}
use olympiad_next.Store.{Tables}
use olympiad_next.Store.Keeps.{Keeps, StmtKeeps, keeps_rules, Keeps-exec, Keeps-bind, Keeps-pure}
use olympiad_next.Postgres.Users.{
  NewUser, insert_user, create, find_by_id, find_by_email, find_by_google_id, update_users,
  change_user, check_rows_affected,
}
use olympiad_next.Postgres.Users.Changes
use olympiad_next.Postgres.Users.Changes.{
  link_google, link_google_id, with_device, with_email_otp, with_email_verified, onboard,
  with_verification_status, with_method, with_phone_otp, with_phone_verified,
}
use olympiad_next.Postgres.Tokens as Tokens
use olympiad_next.Postgres.Tokens.{
  NewToken, insert_token, revoke_stmt, revoke_all_stmt, upsert_stmt,
}

-- The UPDATEs of one row that leave its keys and credentials alone.
pub data Change : Type 0 where
  device : Text → Change
  email_code : Text → ℕ → Change
  email_verified : Change
  review : VerificationStatus → Change
  by_mail : Change
  phone_code : Text → Text → ℕ → Change
  phone_verified : Change

abbrev pub changed : Change → ℕ → User → User
changed (device fingerprint) = with_device fingerprint
changed (email_code code expires) = with_email_otp code expires
changed email_verified = with_email_verified
changed (review status) = with_verification_status status
changed by_mail = with_method email
changed (phone_code number code expires) = with_phone_otp number code expires
changed phone_verified = with_phone_verified

pub record StatementsKeep (lower : Text → Text) (P : Tables → Type 0) : Type 0 where
  pub inserts : (n : NewUser) → StmtKeeps P (insert_user lower n)
  pub links : (id google_id : Text) (v : Bool) → StmtKeeps P (link_google id google_id v)
  pub changes : (c : Change) (id : Text) → StmtKeeps P (update_users (changed c) id)
  pub onboards : (id : Text) (p : OnboardingProfile) → StmtKeeps P (onboard id p)
  pub tokens : (n : NewToken) → StmtKeeps P (insert_token n)
  pub revokes : (id : Text) → StmtKeeps P (revoke_stmt id)
  pub revokes_all : (user : Text) → StmtKeeps P (revoke_all_stmt user)
  pub devices : (user fingerprint : Text) → StmtKeeps P (upsert_stmt user fingerprint)

module _ {P : Tables → Type 0} where
  check-Keeps : (n : ℕ) → Keeps P (check_rows_affected n)
  unfolding check_rows_affected
  check-Keeps zero = search keeps_rules
  check-Keeps (suc n) = search keeps_rules

  pub find_by_id-Keeps : (id : Text) → Keeps P (find_by_id id)
  unfolding find_by_id
  find_by_id-Keeps id = search keeps_rules

  pub find_by_google_id-Keeps : (id : Text) → Keeps P (find_by_google_id id)
  unfolding find_by_google_id
  find_by_google_id-Keeps id = search keeps_rules

  pub find_by_email-Keeps : (lower : Text → Text) (e : Text) → Keeps P (find_by_email lower e)
  unfolding find_by_email
  find_by_email-Keeps lower e = search keeps_rules

  pub find_by_token_hash-Keeps : (h : Text) → Keeps P (Tokens.find_by_token_hash h)
  unfolding Tokens.find_by_token_hash
  find_by_token_hash-Keeps h = search keeps_rules

module _ {lower : Text → Text} {P : Tables → Type 0} (k : StatementsKeep lower P) where
  pub create-Keeps : (n : NewUser) → Keeps P (create lower n)
  unfolding create
  create-Keeps n = Keeps-exec _ (k.inserts n)

  pub link_google_id-Keeps : (id g : Text) (v : Bool) → Keeps P (link_google_id id g v)
  unfolding link_google_id
  link_google_id-Keeps id g v = Keeps-bind _ _ (Keeps-exec _ (k.links id g v)) check-Keeps

  pub change_user-Keeps : (c : Change) (id : Text) → Keeps P (change_user (changed c) id)
  unfolding change_user
  change_user-Keeps c id = Keeps-bind _ _ (Keeps-exec _ (k.changes c id)) check-Keeps

  pub submit_onboarding_profile-Keeps :
      (id : Text) (p : OnboardingProfile) → Keeps P (Changes.submit_onboarding_profile id p)
  unfolding Changes.submit_onboarding_profile
  submit_onboarding_profile-Keeps id p = Keeps-exec _ (k.onboards id p)

  pub create_token-Keeps : (n : NewToken) → Keeps P (Tokens.create n)
  unfolding Tokens.create
  create_token-Keeps n = Keeps-exec _ (k.tokens n)

  pub revoke-Keeps : (id : Text) → Keeps P (Tokens.revoke id)
  unfolding Tokens.revoke
  revoke-Keeps id = Keeps-bind _ _ (Keeps-exec _ (k.revokes id)) (λ n. Keeps-pure _)

  pub revoke_all-Keeps : (user : Text) → Keeps P (Tokens.revoke_all_for_user user)
  unfolding Tokens.revoke_all_for_user
  revoke_all-Keeps user = Keeps-exec _ (k.revokes_all user)

  pub upsert_device-Keeps : (user f : Text) → Keeps P (Tokens.upsert_device user f)
  unfolding Tokens.upsert_device
  upsert_device-Keeps user f = Keeps-exec _ (k.devices user f)
