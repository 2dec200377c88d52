-- ===== src/Registrations/Tests.antt =====
-- The theorems on registrations at a student's submission, and runs of the service.
use olympiad_next.Prelude.{◌≡◌, ◌≢◌, refl, some, none, [], ◌∷◌, find, any}
use olympiad_next.Text.Trim.{trim_space}
use olympiad_next.Text.Case.{to_lower, to_upper}
use olympiad_next.Phone.{normalize_sender_number}
use olympiad_next.Text.{codes, lit, eq_text}
use olympiad_next.Errors.{ok, err, RegistrationError, of_registration}
use olympiad_next.Domain.Registration.{
  is_valid_method, nagad, Registration, bkash, approved, payment_method,
}
use olympiad_next.Store.{World, healthy, ◌>>=◌, query}
use olympiad_next.Postgres
use olympiad_next.Postgres.Registrations.{new_row, reviewed_row, unrejected_row}
use olympiad_next.Postgres.Registrations.States.{status_of}
use olympiad_next.Registrations.Life.{ReviewRun, serve_all-ReviewRun}
use olympiad_next.Registrations.{
  is_transaction_id, RegisterInput, register, review, unreject, attach_admit_card,
}
use olympiad_next.Registrations.Requests.{submit, decide, serve_all, IsValid, serve_all-IsValid}
use olympiad_next.Registrations.Machine.{
  Refines, guarded_step, review-Refines, from_pending, from_rejected, decided_row, reopened_row,
}
use olympiad_next.Registrations.Issue.{issue_step, unreject_attach-Refine}
use olympiad_next.Registrations.Submit.{Accepted, register-Accepted}
use olympiad_next.Registrations.Once.{register_once}
use olympiad_next.Fixtures.{user_id, event_id, no_tables, world}

abbrev an_input : RegisterInput
an_input = record {
  event_id = codes " e ";
  payment_method = codes "bKash";
  sender_number = codes "+880 1712-345678";
  transaction_id = codes "abc123";
}

abbrev another_input : RegisterInput
another_input = record {
  event_id = codes "e";
  payment_method = codes "nagad";
  sender_number = codes "01812345678";
  transaction_id = codes "XYZ789";
}

abbrev w0 : World
w0 = world no_tables 5

abbrev a_row : Registration
a_row =
    new_row
      (record {
        user_id = user_id;
        event_id = event_id;
        payment_method = bkash;
        sender_number = codes "01712345678";
        transaction_id = codes "ABC123";
      })
      (1 ∷ []) 5

valid0 : IsValid no_tables
valid0 = record { rows = tt; unique = tt }

-- The world with one pending registration.
abbrev w1 : World
w1 = serve_all (submit user_id an_input ∷ []) w0

valid1 : IsValid w1.db
valid1 = serve_all-IsValid (submit user_id an_input ∷ []) w0 valid0

serve_all-IsValid_example : IsValid (serve_all (submit user_id an_input ∷ []) w0).db
serve_all-IsValid_example = serve_all-IsValid (submit user_id an_input ∷ []) w0 valid0

-- The input is accepted, in its stored form.
registered : (register user_id an_input w0).0 ≡ ok a_row
unfolding register ◌>>=◌ is_valid_method payment_method eq_text to_lower trim_space lit
    normalize_sender_number is_transaction_id to_upper Postgres.Events.find_by_id query find
    Postgres.Registrations.create any
registered = refl

abbrev w2 : World
w2 = (register user_id an_input w0).1

abbrev another_row : Registration
another_row =
    new_row
      (record {
        user_id = codes "v";
        event_id = event_id;
        payment_method = nagad;
        sender_number = codes "01812345678";
        transaction_id = codes "XYZ789";
      })
      (3 ∷ []) 5

registered_too : (register (codes "v") another_input w2).0 ≡ ok another_row
unfolding register ◌>>=◌ is_valid_method payment_method eq_text to_lower trim_space lit
    normalize_sender_number is_transaction_id to_upper Postgres.Events.find_by_id query find
    Postgres.Registrations.create any
registered_too = refl

-- A second submission of the student is refused.
refused_again :
    (register user_id another_input w2).0
    ≡ err (of_registration RegistrationError.already_registered)
unfolding register ◌>>=◌ is_valid_method payment_method eq_text to_lower trim_space lit
    normalize_sender_number is_transaction_id to_upper Postgres.Events.find_by_id query find
    Postgres.Registrations.create any
refused_again = refl

serve_all-ReviewRun_example :
    let t = status_of (1 ∷ []) (serve_all (decide (1 ∷ []) (codes "admin") approved ∷ []) w1).db in
    let s = status_of (1 ∷ []) w1.db in
    ReviewRun (1 ∷ []) (decide (1 ∷ []) (codes "admin") approved ∷ []) s t
    × (s ≡ some approved → t ≡ some approved)
    × (s ≢ none → t ≢ none)
serve_all-ReviewRun_example =
    serve_all-ReviewRun (1 ∷ []) (decide (1 ∷ []) (codes "admin") approved ∷ []) w1

review-Refines_example :
    Refines (1 ∷ []) (review (1 ∷ []) (codes "admin") approved (healthy w1)) w1.db (
      guarded_step from_pending
        (decided_row approved (codes "admin") w1.now)
        RegistrationError.already_reviewed)
review-Refines_example = review-Refines (1 ∷ []) (codes "admin") approved w1 valid1 refl

unreject_attach-Refine_example :
    Refines (1 ∷ []) (unreject (1 ∷ []) (codes "admin") (healthy w1)) w1.db (
      guarded_step from_rejected
        (reopened_row w1.now)
        RegistrationError.invalid_unreject_transition)
    × Refines
        (trim_space (1 ∷ []))
        (attach_admit_card (1 ∷ []) (codes "/card") (healthy w1))
        w1.db
        (issue_step (codes "/card") w1.now w1.db)
unreject_attach-Refine_example =
    unreject_attach-Refine (1 ∷ []) (codes "admin") (1 ∷ []) (codes "/card") w1 valid1

register-Accepted_example : Accepted user_id an_input w0.db a_row w2.db
register-Accepted_example = register-Accepted user_id an_input w0 a_row registered

register_once_example :
    (codes "XYZ789" ≢ codes "ABC123")
    × (codes "v" ≡ user_id → trim_space (codes "e") ≢ trim_space (codes " e "))
unfolding serve_all
register_once_example =
    register_once user_id an_input w0 a_row registered [] (codes "v") another_input another_row
      registered_too
