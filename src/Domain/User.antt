-- ===== src/Domain/User.antt =====
-- internal/domain/user: the account and its review states.
use olympiad_next.Prelude.{ℕ, Bool, true, false, Option, none, some, [], not, ◌==◌}
use olympiad_next.Text.{Text, text_eq}

pub data AuthProvider : Type 0 where
  local google : AuthProvider

pub data Role : Type 0 where
  student admin : Role
  other : Text → Role

pub data VerificationStatus : Type 0 where
  unverified pending verified rejected : VerificationStatus
  other : Text → VerificationStatus

-- VerificationStatus.Valid
unfoldable pub is_valid : VerificationStatus → Bool
is_valid (VerificationStatus.other _) = false
is_valid _ = true

-- `s == VerificationVerified`
abbrev pub is_verified : VerificationStatus → Bool
is_verified verified = true
is_verified _ = false

-- Go's `==` on the status, which is a string there.
abbrev pub same_verification : VerificationStatus → VerificationStatus → Bool
same_verification unverified unverified = true
same_verification pending pending = true
same_verification verified verified = true
same_verification rejected rejected = true
same_verification (VerificationStatus.other s) (VerificationStatus.other t) = s == t
same_verification _ _ = false

pub data NotificationMethod : Type 0 where
  email phone : NotificationMethod

-- CreatedAt and UpdatedAt are instants in nanoseconds.
pub record User : Type 0 where
  pub id : Text
  pub email : Text
  pub full_name : Option Text
  pub password_hash : Option Text
  pub auth_provider : AuthProvider
  pub google_id : Option Text
  pub active_device_fingerprint : Option Text
  pub role : Role
  pub email_verified : Bool
  pub email_otp : Option Text
  pub email_otp_expiry : Option ℕ
  pub institution_name : Option Text
  pub level : Option Text
  pub medium : Option Text
  pub profile_picture : Option Text
  pub verification_doc : Option Text
  pub verification_status : VerificationStatus
  pub notification_method : NotificationMethod
  pub notification_phone : Option Text
  pub notification_phone_verified : Bool
  pub notification_phone_otp : Option Text
  pub notification_phone_otp_expiry : Option ℕ
  pub created_at : ℕ
  pub updated_at : ℕ

-- The payload of PUT /api/user/profile.
pub record OnboardingProfile : Type 0 where
  pub full_name : Text
  pub institution_name : Text
  pub level : Text
  pub medium : Text
  pub verification_doc : Text
  pub profile_picture : Option Text

unfoldable pub is_admin : User → Bool
is_admin u = elim u.role [ admin ↦ true | _ ↦ false ]

abbrev is_filled : Option Text → Bool
is_filled none = false
is_filled (some s) = not (s == [])

unfoldable pub has_password : User → Bool
has_password u = is_filled u.password_hash

unfoldable pub has_google_linked : User → Bool
has_google_linked u = is_filled u.google_id
