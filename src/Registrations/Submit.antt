-- ===== src/Registrations/Submit.antt =====
-- What an accepted submission says: of its input, of the tables before it, and of those after it.
use olympiad_next.Prelude.{
  subst, ℕ, ◌≡◌, refl, sym, ◌∙◌, ap, true, false, some, [], ◌∷◌, ◌++◌, find, any, arith, ◌==◌,
  find-passes, ==_iff,
}
use olympiad_next.Text.{Text, text_eq}
use olympiad_next.Text.Trim.{trim_space}
use olympiad_next.Text.Case.{to_upper, to_lower}
use olympiad_next.Phone.{normalize_sender_number}
use olympiad_next.Errors.{Error, ok}
use olympiad_next.Domain.Event.{Event}
use olympiad_next.Domain.Registration.{pending, Registration, payment_method, is_valid_method}
use olympiad_next.Store.Keeps.{Keeps}
use olympiad_next.Store.{Tables, World, ◌>>=◌}
use olympiad_next.Store.Rows.{or_err}
use olympiad_next.Store.Answers.{
  Ensures, Ensures-bind, Ensures-require, Ensures-lift, exec-ok, query-ok,
}
use olympiad_next.Postgres
use olympiad_next.Postgres.Registrations.{
  update_registrations, reviewed_row, unrejected_row, carded_row, pending_row, rejected_row,
  approved_row, NewRegistration, new_row, by_id, by_transaction, by_user_event, insert_registration,
}
use olympiad_next.Registrations.{RegisterInput, register, load_event, is_transaction_id}
use olympiad_next.Registrations.Requests.{load_event-Keeps, sender_of-ok}

-- The row fits the table: nothing clashes with it, and its student and event exist.
pub record Fits (r : Registration) (db : Tables) : Type 0 where
  pub new_transaction : any (by_transaction r.transaction_id) db.registrations ≡ false
  pub new_pair : any (by_user_event r.user_id r.event_id) db.registrations ≡ false

-- The tables with one more registration.
abbrev pub with_row : Registration → Tables → Tables
with_row r db = record db { registrations = db.registrations ++ r ∷ [] }

-- The INSERT that answers has added the row, which fits.
inserted :
    (n : NewRegistration) (id : Text) (now : ℕ) (db : Tables) (r : Registration)
    → (insert_registration n id now db).0 ≡ ok r
    → (r ≡ new_row n id now) × Fits r db × ((insert_registration n id now db).1 ≡ with_row r db)
unfolding insert_registration
inserted n id now db r h =
    (ground arith, record { new_transaction = ground arith; new_pair = ground arith }, ground arith)

create-ok :
    (n : NewRegistration) (w : World) (r : Registration)
    → (Postgres.Registrations.create n w).0 ≡ ok r
    → (r ≡ new_row n (w.uuid w.step) w.now)
      × Fits r w.db
      × ((Postgres.Registrations.create n w).1.db ≡ with_row r w.db)
unfolding Postgres.Registrations.create
create-ok n w r h =
    let (said, ran) = exec-ok (insert_registration n) w r h in
    let (row, fits, left) = inserted n (w.uuid w.step) w.now w.db r said in
    (row, fits, ap (λ s. s.1.db) ran ∙ left)

load_event-ok :
    (id : Text) (w : World) (ev : Event)
    → (load_event id w).0 ≡ ok ev
    → (find (λ e. e.id == id) w.db.events ≡ some ev) × ((load_event id w).1.db ≡ w.db)
unfolding load_event ◌>>=◌ Postgres.Events.find_by_id
load_event-ok id w ev h =
    let read =
      query-ok (λ db. or_err (find (λ e. e.id == id) db.events) Error.event_not_found) w ev in
    let kept : Keeps (λ db. db ≡ w.db) (load_event id) = load_event-Keeps id in
    (ground (arith, read), kept.at w refl)

-- The submission that the input asks for.
pub record Asks (user : Text) (i : RegisterInput) (db : Tables) (r : Registration) : Type 0 where
  pub student : r.user_id ≡ user
  pub event : r.event_id ≡ trim_space i.event_id
  pub active :
      (ev : Event) × (find (λ e. e.id == r.event_id) db.events ≡ some ev) × (ev.is_active ≡ true)
  pub method : r.payment_method ≡ payment_method (to_lower (trim_space i.payment_method))
  pub known_method : is_valid_method r.payment_method ≡ true
  pub number : normalize_sender_number i.sender_number ≡ some r.sender_number
  pub trx : r.transaction_id ≡ to_upper (trim_space i.transaction_id)
  pub trx_format : is_transaction_id r.transaction_id ≡ true
  pub waits : r.status ≡ pending

-- An accepted submission, between the tables before and after it.
pub record Accepted (user : Text) (i : RegisterInput) (db : Tables) (r : Registration)
    (left : Tables) : Type 0 where
  pub asked : Asks user i db r
  pub fits : Fits r db
  pub added : left ≡ with_row r db

register-Ensures :
    (user : Text) (i : RegisterInput) (w : World)
    → Ensures (register user i) w (λ r w'. Accepted user i w.db r w'.db)
unfolding register
register-Ensures user i w =
    let loaded_world = (load_event (trim_space i.event_id) w).1 in
    Ensures-require _ _ _ w λ method. Ensures-lift _ _ w λ number is_number.
      Ensures-require _ _ _ w λ trx. Ensures-bind _ _ w λ ev loaded.
        Ensures-require _ _ _ loaded_world λ active.
          let (found, same) = load_event-ok (trim_space i.event_id) w ev loaded in
          record {
            of = λ r h.
                let (row, fits, left) = create-ok _ loaded_world r h in
                let key =
                  (==_iff ev.id (trim_space i.event_id)).0 (find-passes _ w.db.events ev found) in
                let event : r.event_id ≡ trim_space i.event_id = ap (λ x. x.event_id) row ∙ key in
                record {
                  asked = record {
                    student = ap (λ x. x.user_id) row;
                    event = event;
                    active = (ev, rw event found, active);
                    method = ap (λ x. x.payment_method) row;
                    known_method = ap (λ x. is_valid_method x.payment_method) row ∙ method;
                    number =
                        sender_of-ok _ number is_number ∙ sym (ap (λ x. some x.sender_number) row);
                    trx = ap (λ x. x.transaction_id) row;
                    trx_format = ap (λ x. is_transaction_id x.transaction_id) row ∙ trx;
                    waits = ap (λ x. x.status) row;
                  };
                  fits = subst (Fits r) same fits;
                  added = left ∙ ap (with_row r) same;
                };
          }

-- A submission that is answered with a registration is a pending one for the student, made of the
-- checked input, for an active event; no row had its transaction id, or its student and event; and it
-- is now the last row of the table, where nothing else has changed.
pub register-Accepted :
    (user : Text) (i : RegisterInput) (w : World) (r : Registration)
    → (register user i w).0 ≡ ok r
    → Accepted user i w.db r (register user i w).1.db
register-Accepted user i w = (register-Ensures user i w).of
