-- ===== src/Registrations.antt =====
-- internal/app/registrations/service.go: submission, review and correction of exam registrations.
pub mod Requests
pub mod Life
pub mod Machine
pub mod Issue
pub mod Submit
pub mod Once
pub mod Tests
use olympiad_next.Prelude.{
  ℕ, Bool, true, false, ◌||◌, Option, none, some, [], List, ◌∷◌, arith, if◌then◌else◌, ◌==◌,
}
use olympiad_next.Text.{Text, lit, text_eq}
use olympiad_next.Text.Trim.{trim_space}
use olympiad_next.Text.Case.{to_upper, to_lower}
use olympiad_next.Text.Pattern.{Class, range, matches_repeat}
use olympiad_next.Phone.{normalize_sender_number}
use olympiad_next.Errors.{
  Error, of_registrations, of_registration, RegistrationsError, RegistrationError, validation,
  event_not_active, Result, ok, err,
}
use olympiad_next.Domain.Event.{Event}
use olympiad_next.Domain.Registration.{
  Status, pending, approved, rejected, Registration, payment_method, is_valid_method, can_unreject,
  is_approved, is_rejected, status_text,
}
use olympiad_next.Store.{App, pure, lift, attempt, require, ◌>>=◌, ◌>>◌}
use olympiad_next.Postgres
use olympiad_next.Postgres.Details.{Detail}

abbrev pub upper_alphanumeric : Class
upper_alphanumeric c = range b'A' b'Z' c || range b'0' b'9' c

-- `^[A-Z0-9]{6,20}$`
unfoldable pub is_transaction_id : Text → Bool
unfolding matches_repeat
is_transaction_id = matches_repeat upper_alphanumeric 6 20

pub record RegisterInput : Type 0 where
  pub event_id : Text
  pub payment_method : Text
  pub sender_number : Text
  pub transaction_id : Text

abbrev pub invalid : Text → Error
invalid message = of_registrations (validation message)

unfoldable pub sender_of : Option Text → Result Text
sender_of none = err (invalid (lit "sender_number must be a valid Bangladeshi mobile number"))
sender_of (some n) = ok n

-- The service's own sentinel takes the place of event.ErrNotFound.
abbrev pub event_error : Result Event → Result Event
event_error (err Error.event_not_found) = err (of_registrations RegistrationsError.event_not_found)
event_error r = r

unfoldable pub load_event : Text → App Event
load_event id = do found ← attempt (Postgres.Events.find_by_id id); lift (event_error found)

-- Service.Register. Both branches after a failed Create return what errors.Is finds in its error.
unfoldable pub register : Text → RegisterInput → App Registration
unfolding sender_of load_event
register user in' = do
  let method = payment_method (to_lower (trim_space in'.payment_method))
  require (is_valid_method method) (invalid (lit "payment_method must be 'bkash' or 'nagad'"))
  sender_number ← lift (sender_of (normalize_sender_number in'.sender_number))
  let trx_id = to_upper (trim_space in'.transaction_id)
  require (is_transaction_id trx_id)
      (invalid (lit "transaction_id is not a valid bKash/Nagad transaction id"))
  ev ← load_event (trim_space in'.event_id)
  require ev.is_active (of_registrations event_not_active)
  Postgres.Registrations.create (record {
    user_id = user;
    event_id = ev.id;
    payment_method = method;
    sender_number = sender_number;
    transaction_id = trx_id;
  })

-- Service.Get
unfoldable pub get : Text → App Registration
get id = Postgres.Registrations.find_by_id (trim_space id)

abbrev pub title_of : Result Event → Text
title_of (ok ev) = ev.title
title_of (err _) = []

abbrev pub best_effort_title : Result Registration → App Text
best_effort_title (err _) = pure []
best_effort_title (ok reg) = do
  ev ← attempt (Postgres.Events.find_by_id reg.event_id)
  pure (title_of ev)

-- Service.AttachAdmitCard
unfoldable pub attach_admit_card : Text → Text → App Text
attach_admit_card raw url = do
  let id = trim_space raw
  Postgres.Registrations.set_admit_card id url
  reg ← attempt (Postgres.Registrations.find_by_id id)
  best_effort_title reg

-- Service.IsRegistered
unfoldable pub is_registered : Text → Text → App Bool
is_registered user event =
    Postgres.Registrations.exists_for_user_event (trim_space user) (trim_space event)

-- Service.ListForUser
unfoldable pub list_for_user : Text → App (List Detail)
list_for_user = Postgres.Details.list_by_user

-- The event of a review filter must exist, if one is given.
unfoldable pub check_event : Text → App Unit
unfolding load_event
check_event [] = pure tt
check_event (c ∷ s) = do load_event (c ∷ s); pure tt

-- Service.ListForReview
unfoldable pub list_for_review : Status → Text → ℕ → App (List Detail)
unfolding check_event
list_for_review status raw limit = do
  let event_id = trim_space raw
  check_event event_id
  Postgres.Details.list_by_status status event_id limit

-- Service.Review
unfoldable pub review : Text → Text → Status → App Unit
review id admin decision = do
  require (is_approved decision || is_rejected decision)
      (invalid (lit "status must be 'approved' or 'rejected'"))
  Postgres.Registrations.review id admin decision

abbrev status_or_none : Result Registration → Result Text
status_or_none (ok reg) = ok (status_text reg.status)
status_or_none (err (of_registration RegistrationError.not_found)) = ok (lit "none")
status_or_none (err e) = err e

-- Service.MyRegistrationStatus
unfoldable pub my_registration_status : Text → Text → App Text
unfolding status_text
my_registration_status user event = do
  found ← attempt (Postgres.Registrations.find_by_user_and_event user event)
  lift (status_or_none found)

-- Service.Unreject; the administrator's id is only logged.
unfoldable pub unreject : Text → Text → App Unit
unfolding can_unreject
unreject id admin = do
  reg ← Postgres.Registrations.find_by_id id
  require (can_unreject reg.status) (of_registration RegistrationError.invalid_unreject_transition)
  Postgres.Registrations.unreject id
