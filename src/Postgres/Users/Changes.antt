-- ===== src/Postgres/Users/Changes.antt =====
-- user_repository.go: each UPDATE of one account.
use olympiad_next.Prelude.{
  ℕ, Bool, true, false, not, ◌&&◌, Option, none, some, [], any, find, ◌==◌, if◌then◌else◌,
}
use olympiad_next.Text.{Text, text_eq}
use olympiad_next.Errors.{of_user, UserError, Result, ok, err}
use olympiad_next.Domain.User.{
  User, VerificationStatus, pending, OnboardingProfile, NotificationMethod, phone,
}
use olympiad_next.Store.{App, Stmt, exec, ◌>>=◌}
use olympiad_next.Store.Rows.{update, count}
use olympiad_next.Postgres.Users.{by_id, by_google_id, change_user, check_rows_affected}

abbrev pub linked_row : Text → Bool → ℕ → User → User
linked_row google_id verified now u = record u {
  google_id = some google_id;
  email_verified = verified;
  updated_at = now;
}

-- The UPDATE of LinkGoogleID, under idx_users_google_id.
unfoldable pub link_google : Text → Text → Bool → Stmt ℕ
link_google id google_id verified _ now db =
    if any (by_id id) db.users && any (λ u. not (by_id id u) && by_google_id google_id u) db.users
    then (err (of_user UserError.google_id_taken), db)
    else (
      ok (count (by_id id) db.users),
      record db { users = update (by_id id) (linked_row google_id verified now) db.users },
    )

-- UserRepository.LinkGoogleID
unfoldable pub link_google_id : Text → Text → Bool → App Unit
unfolding link_google
link_google_id id google_id verified = do
  n ← exec (link_google id google_id verified)
  check_rows_affected n

abbrev pub with_password : Text → ℕ → User → User
with_password hash now u = record u { password_hash = some hash; updated_at = now }

-- UserRepository.UpdatePassword
unfoldable pub update_password : Text → Text → App Unit
update_password id hash = change_user (with_password hash) id

abbrev pub with_device : Text → ℕ → User → User
with_device fingerprint now u = record u {
  active_device_fingerprint = some fingerprint;
  updated_at = now;
}

-- UserRepository.UpdateActiveDeviceFingerprint
unfoldable pub update_active_device_fingerprint : Text → Text → App Unit
update_active_device_fingerprint id fingerprint = change_user (with_device fingerprint) id

abbrev pub with_email_otp : Text → ℕ → ℕ → User → User
with_email_otp code expires now u = record u {
  email_otp = some code;
  email_otp_expiry = some expires;
  updated_at = now;
}

-- UserRepository.SetEmailOTP
unfoldable pub set_email_otp : Text → Text → ℕ → App Unit
set_email_otp id code expires = change_user (with_email_otp code expires) id

abbrev pub with_email_verified : ℕ → User → User
with_email_verified now u = record u {
  email_verified = true;
  email_otp = none;
  email_otp_expiry = none;
  updated_at = now;
}

-- UserRepository.MarkEmailVerified
unfoldable pub mark_email_verified : Text → App Unit
mark_email_verified id = change_user with_email_verified id

-- COALESCE
abbrev pub coalesce : Option Text → Option Text → Option Text
coalesce none old = old
coalesce (some s) old = some s

abbrev pub onboarded_row : OnboardingProfile → ℕ → User → User
onboarded_row p now u = record u {
  full_name = some p.full_name;
  institution_name = some p.institution_name;
  level = some p.level;
  medium = some p.medium;
  profile_picture = coalesce p.profile_picture u.profile_picture;
  verification_doc =
      if not (p.verification_doc == []) then some p.verification_doc else u.verification_doc;
  verification_status = if not (p.verification_doc == []) then pending else u.verification_status;
  updated_at = now;
}

-- The UPDATE of SubmitOnboardingProfile, which returns verification_status.
unfoldable pub onboard : Text → OnboardingProfile → Stmt VerificationStatus
onboard id p _ now db =
    let users = update (by_id id) (onboarded_row p now) db.users in
    let answer : Result VerificationStatus = elim (find (by_id id) users) [
      | none ↦ err (of_user UserError.not_found)
      | some u ↦ ok u.verification_status
    ] in
    (answer, record db { users = users })

-- UserRepository.SubmitOnboardingProfile
unfoldable pub submit_onboarding_profile : Text → OnboardingProfile → App VerificationStatus
unfolding onboard
submit_onboarding_profile id p = exec (onboard id p)

abbrev pub with_verification_status : VerificationStatus → ℕ → User → User
with_verification_status status now u = record u { verification_status = status; updated_at = now }

-- UserRepository.SetVerificationStatus
unfoldable pub set_verification_status : Text → VerificationStatus → App Unit
set_verification_status id status = change_user (with_verification_status status) id

abbrev pub with_method : NotificationMethod → ℕ → User → User
with_method method now u = record u { notification_method = method; updated_at = now }

-- UserRepository.SetNotificationMethod
unfoldable pub set_notification_method : Text → NotificationMethod → App Unit
set_notification_method id method = change_user (with_method method) id

abbrev pub with_phone_otp : Text → Text → ℕ → ℕ → User → User
with_phone_otp number code expires now u = record u {
  notification_phone = some number;
  notification_phone_otp = some code;
  notification_phone_otp_expiry = some expires;
  notification_phone_verified = false;
  updated_at = now;
}

-- UserRepository.SetNotificationPhoneOTP
unfoldable pub set_notification_phone_otp : Text → Text → Text → ℕ → App Unit
set_notification_phone_otp id number code expires =
    change_user (with_phone_otp number code expires) id

abbrev pub with_phone_verified : ℕ → User → User
with_phone_verified now u = record u {
  notification_phone_verified = true;
  notification_method = phone;
  notification_phone_otp = none;
  notification_phone_otp_expiry = none;
  updated_at = now;
}

-- UserRepository.MarkNotificationPhoneVerified
unfoldable pub mark_notification_phone_verified : Text → App Unit
mark_notification_phone_verified id = change_user with_phone_verified id
