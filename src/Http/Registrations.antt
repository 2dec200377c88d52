-- ===== src/Http/Registrations.antt =====
-- handler/registration_handler.go, at decoded bodies and the claims of the context. `received` is what
-- reading the form, checking the PDF and storing it come to: a refusal, or the URL of the file.
use olympiad_next.Prelude.{ℕ, not, Option, none, some, List, [], ◌++◌, ◌==◌, if◌then◌else◌}
use olympiad_next.Text.{Text, text_eq, lit}
use olympiad_next.Text.Trim.{trim_space}
use olympiad_next.Errors.{
  Error, of_registration, RegistrationError, of_registrations, RegistrationsError,
}
use olympiad_next.Domain.Registration.{
  Registration, Status, pending, approved, rejected, is_valid, is_approved,
}
use olympiad_next.Postgres.Details.{Detail}
use olympiad_next.Registrations as Registrations
use olympiad_next.Registrations.{RegisterInput}
use olympiad_next.Auth.Outside.{Outside}
use olympiad_next.Auth.Jwt.{AccessClaims}
use olympiad_next.Notify.{notify_admit_card_ready}
use olympiad_next.Http.{Handler, answer, refuse, call}

-- The status and the message of handleError.
unfoldable pub registration_refusal : Error → ℕ × Text
registration_refusal (of_registrations (RegistrationsError.validation message)) =
    (400, lit "registrations: invalid submission: " ++ message)
registration_refusal (of_registrations RegistrationsError.event_not_found) =
    (404, lit "event not found")
registration_refusal (of_registrations RegistrationsError.event_not_active) =
    (409, lit "this event is not open for registration")
registration_refusal (of_registration RegistrationError.duplicate_transaction_id) =
    (409, lit "this transaction id has already been submitted")
registration_refusal (of_registration RegistrationError.already_registered) =
    (409, lit "you are already registered for this event")
registration_refusal (of_registration RegistrationError.not_found) =
    (404, lit "registration not found")
registration_refusal (of_registration RegistrationError.already_reviewed) =
    (409, lit "this registration has already been reviewed")
registration_refusal (of_registration RegistrationError.invalid_unreject_transition) =
    (409, lit "only a rejected registration can be returned to pending")
registration_refusal (of_registration RegistrationError.not_approved) =
    (409, lit "an admit card can only be issued for an approved registration")
registration_refusal _ = (500, lit "internal server error")

-- RegistrationHandler.handleError
unfoldable pub registration_error : {A : Type 0} → Error → Handler A
unfolding registration_refusal
registration_error e = let (status, message) = registration_refusal e in refuse status message

abbrev pub unauthenticated : {A : Type 0} → Handler A
unauthenticated = refuse 401 (lit "unauthenticated")

-- RegistrationHandler.Create
unfoldable pub create : Option AccessClaims → RegisterInput → Handler Registration
create none in' = unauthenticated
create (some claims) in' =
    call (Registrations.register claims.user_id in') registration_error λ reg. answer 201 reg

-- RegistrationHandler.ListMine
unfoldable pub list_mine : Option AccessClaims → Handler (List Detail)
list_mine none = unauthenticated
list_mine (some claims) =
    call (Registrations.list_for_user claims.user_id)
      (λ _. refuse 500 (lit "internal server error")) λ details. answer 200 details

-- RegistrationHandler.MyRegistrationStatus
unfoldable pub my_registration_status : Option AccessClaims → Text → Handler Text
my_registration_status none raw = unauthenticated
my_registration_status (some claims) raw =
    let event_id = trim_space raw in
    if event_id == []
    then refuse 400 (lit "event id is required")
    else call (Registrations.my_registration_status claims.user_id event_id) registration_error
        λ status. answer 200 status

-- registration.Status(raw)
abbrev pub status_of : Text → Status
status_of raw =
    if raw == lit "pending"
    then pending
    else if raw == lit "approved"
    then approved
    else if raw == lit "rejected"
    then rejected
    else Status.other raw

-- maxRegistrationListLimit
abbrev pub max_registration_list_limit : ℕ
max_registration_list_limit = 200

-- RegistrationHandler.ListForReview, at the query parameters `status` and `event_id`.
unfoldable pub list_for_review : Text → Text → Handler (List Detail)
list_for_review raw_status raw_event =
    let raw = trim_space raw_status in
    if not (raw == [])
    then if not (is_valid (status_of raw))
      then refuse 400 (lit "status must be one of: pending, approved, rejected")
      else listed (status_of raw)
    else listed (Status.other [])
  where
    listed : Status → Handler (List Detail)
    listed status =
        call
          (Registrations.list_for_review status (trim_space raw_event) max_registration_list_limit)
          registration_error λ details. answer 200 details

-- RegistrationHandler.Review, at the id of the path and the status of the body.
unfoldable pub review : Option AccessClaims → Text → Text → Handler (Text × Status)
review none raw_id raw_status = unauthenticated
review (some claims) raw_id raw_status =
    let id = trim_space raw_id in
    let decision = status_of (trim_space raw_status) in
    if id == []
    then refuse 400 (lit "registration id is required")
    else call (Registrations.review id claims.user_id decision) registration_error
        λ _. answer 200 (id, decision)

-- RegistrationHandler.Unreject
unfoldable pub unreject : Option AccessClaims → Text → Handler (Text × Status)
unreject none raw_id = unauthenticated
unreject (some claims) raw_id =
    let id = trim_space raw_id in
    if id == []
    then refuse 400 (lit "registration id is required")
    else call (Registrations.unreject id claims.user_id) registration_error
        λ _. answer 200 (id, pending)

pub data Received : Type 0 where
  rejected_file : ℕ → Text → Received
  stored : Text → Received

module _ (o : Outside) (received : Text → Received) where
  -- UploadAdmitCard, once the file is stored.
  unfoldable pub attach_and_notify : Text → Registration → Received → Handler (Text × Text)
  attach_and_notify id reg (rejected_file status message) = refuse status message
  attach_and_notify id reg (stored url) =
      call (Registrations.attach_admit_card id url) registration_error λ title.
        call (notify_admit_card_ready o reg.user_id title) registration_error
          λ _. answer 201 (id, url)

  -- RegistrationHandler.UploadAdmitCard; `received` is asked for the directory of the student.
  unfoldable pub upload_admit_card : Text → Handler (Text × Text)
  unfolding attach_and_notify
  upload_admit_card raw_id =
      let id = trim_space raw_id in
      if id == []
      then refuse 400 (lit "registration id is required")
      else call (Registrations.get id) registration_error λ reg.
        if not (is_approved reg.status)
        then refuse 409 (lit "an admit card can only be issued for an approved registration")
        else attach_and_notify id reg (received reg.user_id)
