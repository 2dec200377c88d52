-- ===== src/Postgres/Registrations.antt =====
-- registration_repository.go over the table exam_registrations.
pub mod Lift
pub mod Valid
pub mod States
pub mod Guard
use olympiad_next.Prelude.{
  ℕ, zero, suc, Bool, true, false, not, ◌&&◌, Option, none, some, List, [], ◌∷◌, ◌++◌, find, any,
  filter, ◌==◌, leb, if◌then◌else◌,
}
use olympiad_next.Text.{Text, text_eq}
use olympiad_next.Errors.{internal, of_registration, RegistrationError, Result, ok, err}
use olympiad_next.Domain.Registration.{
  PaymentMethod, Status, pending, Registration, is_valid_method, is_valid, status_text, is_pending,
  is_approved, is_rejected,
}
use olympiad_next.Store.{Tables, App, Stmt, exec, query, attempt, pure, raise, ◌>>=◌}
use olympiad_next.Store.Rows.{update, count, order_by, limit, or_err}
use olympiad_next.Postgres.Users.{exists_user}
use olympiad_next.Postgres.Events.{exists_event}

-- The columns that the caller supplies to Create.
pub record NewRegistration : Type 0 where
  pub user_id : Text
  pub event_id : Text
  pub payment_method : PaymentMethod
  pub sender_number : Text
  pub transaction_id : Text

abbrev pub by_id : Text → Registration → Bool
by_id id r = r.id == id

abbrev pub by_transaction : Text → Registration → Bool
by_transaction t r = r.transaction_id == t

abbrev pub by_user_event : Text → Text → Registration → Bool
by_user_event user event r = r.user_id == user && r.event_id == event

-- The row that Create inserts.
abbrev pub new_row : NewRegistration → Text → ℕ → Registration
new_row n id now = record {
  id = id;
  user_id = n.user_id;
  event_id = n.event_id;
  payment_method = n.payment_method;
  sender_number = n.sender_number;
  transaction_id = n.transaction_id;
  status = pending;
  reviewed_by = none;
  reviewed_at = none;
  admit_card_url = none;
  admit_card_uploaded_at = none;
  created_at = now;
  updated_at = now;
}

-- The INSERT: the CHECK, the primary key, the two UNIQUE constraints in their order, the foreign keys.
unfoldable pub insert_registration : NewRegistration → Stmt Registration
insert_registration n id now db =
    if not (is_valid_method n.payment_method)
    then (err internal, db)
    else if any (by_id id) db.registrations
    then (err internal, db)
    else if any (by_transaction n.transaction_id) db.registrations
    then (err (of_registration RegistrationError.duplicate_transaction_id), db)
    else if any (by_user_event n.user_id n.event_id) db.registrations
    then (err (of_registration RegistrationError.already_registered), db)
    else if not (exists_user n.user_id db && exists_event n.event_id db)
    then (err internal, db)
    else (
      ok (new_row n id now),
      record db { registrations = db.registrations ++ new_row n id now ∷ [] },
    )

-- RegistrationRepository.Create
unfoldable pub create : NewRegistration → App Registration
unfolding insert_registration
create n = exec (insert_registration n)

-- RegistrationRepository.FindByID
unfoldable pub find_by_id : Text → App Registration
find_by_id id =
    query
      λ db. or_err (find (by_id id) db.registrations) (of_registration RegistrationError.not_found)

-- RegistrationRepository.ExistsForUserEvent
unfoldable pub exists_for_user_event : Text → Text → App Bool
exists_for_user_event user event = query λ db. ok (any (by_user_event user event) db.registrations)

abbrev pub approved_for : Text → Text → Registration → Bool
approved_for user event r = by_user_event user event r && is_approved r.status

-- RegistrationRepository.ExistsApprovedForUserEvent
unfoldable pub exists_approved_for_user_event : Text → Text → App Bool
exists_approved_for_user_event user event =
    query λ db. ok (any (approved_for user event) db.registrations)

-- RegistrationRepository.FindByUserAndEvent
unfoldable pub find_by_user_and_event : Text → Text → App Registration
find_by_user_and_event user event = query λ db.
    or_err (find (by_user_event user event) db.registrations)
      (of_registration RegistrationError.not_found)

-- A guarded UPDATE: the number of rows it changed, or a violated CHECK on the new status.
unfoldable pub update_registrations :
    (Registration → Bool) → (ℕ → Registration → Registration) → Stmt ℕ
update_registrations p f id now db =
    (ok (count p db.registrations), record db { registrations = update p (f now) db.registrations })

abbrev checked : Bool → Stmt ℕ → (Registration → Bool) → Stmt ℕ
checked fine q p id now db =
    if fine then q id now db else if any p db.registrations then (err internal, db) else (ok 0, db)

-- `errors.Is(findErr, registration.ErrNotFound)`
abbrev pub is_not_found : Result Registration → Bool
is_not_found (err (of_registration RegistrationError.not_found)) = true
is_not_found _ = false

-- No row was changed: an unknown id, or a row that is not in the state that the guard wants.
unfoldable pub explain : Text → RegistrationError → App Unit
unfolding find_by_id
explain id e = do
  found ← attempt (find_by_id id)
  raise (of_registration (if is_not_found found then RegistrationError.not_found else e))

unfoldable pub guarded : ℕ → App Unit → App Unit
guarded zero m = m
guarded (suc n) m = pure tt

abbrev pub pending_row : Text → Registration → Bool
pending_row id r = by_id id r && is_pending r.status

abbrev pub reviewed_row : Status → Text → ℕ → Registration → Registration
reviewed_row status by now r = record r {
  status = status;
  reviewed_by = some by;
  reviewed_at = some now;
  updated_at = now;
}

abbrev pub review_stmt : Text → Text → Status → Stmt ℕ
review_stmt id by status =
    checked (is_valid status) (update_registrations (pending_row id) (reviewed_row status by))
      (pending_row id)

-- RegistrationRepository.Review
unfoldable pub review : Text → Text → Status → App Unit
unfolding update_registrations explain guarded
review id by status = do
  n ← exec (review_stmt id by status)
  guarded n (explain id RegistrationError.already_reviewed)

abbrev pub rejected_row : Text → Registration → Bool
rejected_row id r = by_id id r && is_rejected r.status

abbrev pub unrejected_row : ℕ → Registration → Registration
unrejected_row now r = record r {
  status = pending;
  reviewed_by = none;
  reviewed_at = none;
  updated_at = now;
}

-- RegistrationRepository.Unreject
unfoldable pub unreject : Text → App Unit
unfolding update_registrations explain guarded
unreject id = do
  n ← exec (update_registrations (rejected_row id) unrejected_row)
  guarded n (explain id RegistrationError.invalid_unreject_transition)

abbrev pub approved_row : Text → Registration → Bool
approved_row id r = by_id id r && is_approved r.status

abbrev pub carded_row : Text → ℕ → Registration → Registration
carded_row url now r = record r {
  admit_card_url = some url;
  admit_card_uploaded_at = some now;
  updated_at = now;
}

-- RegistrationRepository.SetAdmitCard
unfoldable pub set_admit_card : Text → Text → App Unit
unfolding update_registrations explain guarded
set_admit_card id url = do
  n ← exec (update_registrations (approved_row id) (carded_row url))
  guarded n (explain id RegistrationError.not_approved)
