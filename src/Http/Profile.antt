-- ===== src/Http/Profile.antt =====
-- handler/profile_fields.go, SubmitProfile of handler/user_handler.go, and handler/admin_handler.go.
use olympiad_next.Prelude.{
  ℕ, Bool, true, false, not, ◌&&◌, ◌||◌, Option, none, some, List, [], ◌==◌, ltb, if◌then◌else◌,
}
use olympiad_next.Text.{Text, text_eq, lit, byte_length, or_empty}
use olympiad_next.Text.Trim.{trim_space}
use olympiad_next.Errors.{Error, is_user_not_found}
use olympiad_next.Domain.User.{
  User, VerificationStatus, verified, rejected, unverified, pending, is_valid, OnboardingProfile,
}
use olympiad_next.Postgres
use olympiad_next.Auth.Jwt.{AccessClaims}
use olympiad_next.Http.{Handler, answer, refuse, call}
use olympiad_next.Http.Files.{is_owned_user_file_url}

-- maxProfileFieldLength
abbrev pub max_profile_field_length : ℕ
max_profile_field_length = 255

-- allowedLevels and allowedMediums
abbrev pub is_allowed_level : Text → Bool
is_allowed_level level =
    level == lit "Junior" || level == lit "Secondary" || level == lit "Higher Secondary"

abbrev pub is_allowed_medium : Text → Bool
is_allowed_medium medium = medium == lit "Bangla" || medium == lit "English"

-- dto.SubmitProfileRequest
pub record SubmitProfileRequest : Type 0 where
  pub full_name : Text
  pub institution_name : Text
  pub level : Text
  pub medium : Text
  pub verification_doc : Text
  pub profile_picture : Text

-- The four fields of a profile, trimmed.
pub record Fields : Type 0 where
  pub full_name : Text
  pub institution : Text
  pub level : Text
  pub medium : Text

pub data Checked : Type 0 where
  good : Fields → Checked
  bad : Text → Checked

-- validateProfileFields
unfoldable pub validate_profile_fields : Text → Text → Text → Text → Checked
validate_profile_fields full_name institution level medium =
    let f : Fields = record {
      full_name = trim_space full_name;
      institution = trim_space institution;
      level = trim_space level;
      medium = trim_space medium;
    } in
    if f.full_name == [] || f.institution == [] || f.level == [] || f.medium == []
    then bad (lit "full_name, institution_name, level, and medium are required")
    else if ltb max_profile_field_length (byte_length f.full_name)
    then bad (lit "full_name must be 255 characters or fewer")
    else if ltb max_profile_field_length (byte_length f.institution)
    then bad (lit "institution_name must be 255 characters or fewer")
    else if not (is_allowed_level f.level)
    then bad (lit "level must be one of: Junior, Secondary, Higher Secondary")
    else if not (is_allowed_medium f.medium)
    then bad (lit "medium must be one of: Bangla, English")
    else good f

-- requiresNewVerificationDoc
unfoldable pub requires_new_verification_doc : Text → Text → Text → Text → Text → Bool
requires_new_verification_doc current_level current_institution new_level new_institution doc =
    if not (doc == [])
    then false
    else not (new_level == current_level) || not (new_institution == current_institution)

abbrev pub internal_error : Text
internal_error = lit "internal server error"

-- The handlers' errors of a lookup or an UPDATE of an account.
unfoldable pub user_error : {A : Type 0} → Error → Handler A
user_error e =
    if is_user_not_found e then refuse 404 (lit "user not found") else refuse 500 internal_error

-- The picture of the request, which is optional.
abbrev pub picture_of : Text → Option Text
picture_of p = if p == [] then none else some p

abbrev pub profile_of : Fields → Text → Text → OnboardingProfile
profile_of f doc picture = record {
  full_name = f.full_name;
  institution_name = f.institution;
  level = f.level;
  medium = f.medium;
  verification_doc = doc;
  profile_picture = picture_of picture;
}

-- SubmitProfile, once the fields are good and the account is read.
unfoldable pub submit_checked : Text → Fields → Text → Text → User → Handler VerificationStatus
unfolding requires_new_verification_doc user_error
submit_checked user f doc picture current =
    if not (doc == []) && not (is_owned_user_file_url doc user)
    then refuse 400 (lit "verification_doc must be a file you uploaded")
    else if requires_new_verification_doc (or_empty current.level)
        (or_empty current.institution_name) f.level f.institution doc
    then refuse 400
        (lit "changing your level or school requires submitting a new verification document")
    else if not (picture == []) && not (is_owned_user_file_url picture user)
    then refuse 400 (lit "profile_picture must be a file you uploaded")
    else call (Postgres.Users.Changes.submit_onboarding_profile user (profile_of f doc picture))
        user_error λ status. answer 200 status

unfoldable pub submit_fields : Text → Checked → Text → Text → Handler VerificationStatus
unfolding submit_checked
submit_fields user (bad message) doc picture = refuse 400 message
submit_fields user (good f) doc picture =
    call (Postgres.Users.find_by_id user) user_error
      λ current. submit_checked user f doc picture current

-- UserHandler.SubmitProfile, at the claims of the context.
unfoldable pub submit_profile :
    Option AccessClaims → SubmitProfileRequest → Handler VerificationStatus
unfolding validate_profile_fields submit_fields
submit_profile none req = refuse 401 (lit "unauthenticated")
submit_profile (some claims) req =
    submit_fields claims.user_id
      (validate_profile_fields req.full_name req.institution_name req.level req.medium)
      (trim_space req.verification_doc) (trim_space req.profile_picture)

-- user.VerificationStatus(raw)
abbrev pub status_of : Text → VerificationStatus
status_of raw =
    if raw == lit "unverified"
    then unverified
    else if raw == lit "pending"
    then pending
    else if raw == lit "verified"
    then verified
    else if raw == lit "rejected"
    then rejected
    else VerificationStatus.other raw

abbrev pub is_decision : VerificationStatus → Bool
is_decision verified = true
is_decision rejected = true
is_decision _ = false

-- AdminHandler.VerifyUser, at the id of the path and the status of the body.
unfoldable pub verify_user : Text → Text → Handler (Text × VerificationStatus)
unfolding user_error
verify_user raw_id raw_status =
    let id = trim_space raw_id in
    let status = status_of (trim_space raw_status) in
    if id == []
    then refuse 400 (lit "user id is required")
    else if not (is_decision status)
    then refuse 400 (lit "status must be \"verified\" or \"rejected\"")
    else call (Postgres.Users.Changes.set_verification_status id status) user_error
        λ _. answer 200 (id, status)

-- maxUserListLimit
abbrev pub max_user_list_limit : ℕ
max_user_list_limit = 200

-- AdminHandler.ListUsers, at the query parameter `status`.
unfoldable pub list_users : Text → Handler (List User)
unfolding is_valid
list_users raw_status =
    let raw = trim_space raw_status in
    if not (raw == []) && not (is_valid (status_of raw))
    then refuse 400 (lit "status must be one of: unverified, pending, verified, rejected")
    else call (Postgres.Users.list_users (status_of raw) max_user_list_limit)
        (λ _. refuse 500 internal_error) λ users. answer 200 users
