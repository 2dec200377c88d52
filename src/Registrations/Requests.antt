-- ===== src/Registrations/Requests.antt =====
-- Any sequence of requests to the registrations service, on any server, keeps the table valid.
use olympiad_next.Prelude.{
  ℕ, ◌≡◌, ◌≤◌, ◌+◌, true, false, ◌||◌, List, [], ◌∷◌, Option, none, some, arith, All, length,
}
use olympiad_next.Text.{Text}
use olympiad_next.Text.Pattern.{all_in_iff}
use olympiad_next.Phone.Forms.{IsSender, normalize_sender_number_iff}
use olympiad_next.Errors.{Result, ok, err}
use olympiad_next.Domain.Registration.{Status, Registration, is_pending, is_approved, is_rejected}
use olympiad_next.Store.{Tables, World}
use olympiad_next.Store.Keeps.{Keeps, StmtKeeps, Keeps-bind, Keeps-require-bind, Keeps-lift-bind}
use olympiad_next.Postgres.Reads.{reads}
use olympiad_next.Text.Trim.{trim_space}
use olympiad_next.Postgres.Registrations.{
  NewRegistration, insert_registration, review_stmt, update_registrations, rejected_row,
  unrejected_row, approved_row, carded_row,
}
use olympiad_next.Postgres.Registrations.Lift.{
  StatementsKeep, create-Keeps, review-Keeps, unreject-Keeps, set_admit_card-Keeps,
}
use olympiad_next.Postgres.Registrations.Valid.{TableIsValid, statements-TableIsValid}
use olympiad_next.Registrations.{
  RegisterInput, register, get, attach_admit_card, is_registered, list_for_user, list_for_review,
  review, my_registration_status, unreject, best_effort_title, sender_of, load_event, check_event,
  upper_alphanumeric, is_transaction_id,
}

-- Six to twenty upper-case letters and digits.
abbrev pub IsTransactionId : Text → Type 0
IsTransactionId s = (6 ≤ length s) × (length s ≤ 20) × All (λ c. upper_alphanumeric c ≡ true) s

is_transaction_id→IsTransactionId : (s : Text) → is_transaction_id s ≡ true → IsTransactionId s
unfolding is_transaction_id
is_transaction_id→IsTransactionId s h = ground (arith, all_in_iff upper_alphanumeric s)

abbrev pub Format : Text → Text → Type 0
Format number trx = IsSender number × IsTransactionId trx

pub data Request : Type 0 where
  submit : Text → RegisterInput → Request
  decide : Text → Text → Status → Request
  correct : Text → Text → Request
  attach : Text → Text → Request
  look : Text → Request
  ask : Text → Text → Request
  ask_status : Text → Text → Request
  list_own : Text → Request
  list_queue : Status → Text → ℕ → Request
  wait : ℕ → Request

-- The world after a request; `wait` lets time pass.
unfoldable pub serve : Request → World → World
serve (submit user i) w = (register user i w).1
serve (decide id admin s) w = (review id admin s w).1
serve (correct id admin) w = (unreject id admin w).1
serve (attach id url) w = (attach_admit_card id url w).1
serve (look id) w = (get id w).1
serve (ask user event) w = (is_registered user event w).1
serve (ask_status user event) w = (my_registration_status user event w).1
serve (list_own user) w = (list_for_user user w).1
serve (list_queue s event n) w = (list_for_review s event n w).1
serve (wait n) w = record w { now = w.now + n }

unfoldable pub serve_all : List Request → World → World
unfolding serve
serve_all [] w = w
serve_all (r ∷ rs) w = serve_all rs (serve r w)

pub sender_of-ok : (o : Option Text) (n : Text) → sender_of o ≡ ok n → o ≡ some n
unfolding sender_of
sender_of-ok none n e = cc
sender_of-ok (some m) n e = ground arith

pub load_event-Keeps : {P : Tables → Type 0} (id : Text) → Keeps P (load_event id)
unfolding load_event
load_event-Keeps id = search reads

decided : (s : Status) → (is_approved s || is_rejected s) ≡ true → is_pending s ≡ false
decided s h = ground arith

module _ {P : Tables → Type 0} where
  pub best_effort_title-Keeps : (r : Result Registration) → Keeps P (best_effort_title r)
  best_effort_title-Keeps (err e) = search reads
  best_effort_title-Keeps (ok reg) = search reads

  pub register-Keeps :
      (user : Text) (i : RegisterInput)
      → ((n : NewRegistration)
          → Format n.sender_number n.transaction_id
          → StmtKeeps P (insert_registration n))
      → Keeps P (register user i)
  unfolding register
  register-Keeps user i kept = Keeps-require-bind _ _ _ λ method. Keeps-lift-bind _ _ λ number e.
      Keeps-require-bind _ _ _ λ fits. Keeps-bind _ _ (load_event-Keeps _) λ ev.
        Keeps-require-bind _ _ _ λ active. create-Keeps _ (
          kept _ (
            ((normalize_sender_number_iff i.sender_number number).0 (sender_of-ok _ number e)).0,
            is_transaction_id→IsTransactionId _ fits,
          ))

  pub service_review-Keeps :
      (id admin : Text) (s : Status)
      → ((is_approved s || is_rejected s) ≡ true → StmtKeeps P (review_stmt id admin s))
      → Keeps P (review id admin s)
  unfolding review
  service_review-Keeps id admin s kept =
      Keeps-require-bind _ _ _ λ h. review-Keeps id admin s (kept h)

  pub service_unreject-Keeps :
      (id admin : Text)
      → StmtKeeps P (update_registrations (rejected_row id) unrejected_row)
      → Keeps P (unreject id admin)
  unfolding unreject
  service_unreject-Keeps id admin kept =
      Keeps-bind _ _ (search reads) λ reg. Keeps-bind _ _ (search reads) λ _. unreject-Keeps id kept

  pub attach-Keeps :
      (id url : Text)
      → ((key : Text) → StmtKeeps P (update_registrations (approved_row key) (carded_row url)))
      → Keeps P (attach_admit_card id url)
  unfolding attach_admit_card
  attach-Keeps id url kept =
      Keeps-bind _ _ (set_admit_card-Keeps (trim_space id) url (kept (trim_space id)))
        (λ _. search (reads, best_effort_title-Keeps))

  check_event-Keeps : (id : Text) → Keeps P (check_event id)
  unfolding check_event
  check_event-Keeps [] = search reads
  check_event-Keeps (c ∷ s) = search (reads, load_event-Keeps)

  pub list_for_review-Keeps :
      (s : Status) (event : Text) (n : ℕ) → Keeps P (list_for_review s event n)
  unfolding list_for_review
  list_for_review-Keeps s event n = search (reads, check_event-Keeps)

  pub look-Keeps : (id : Text) → Keeps P (get id)
  unfolding get
  look-Keeps id = search reads

  pub ask-Keeps : (user event : Text) → Keeps P (is_registered user event)
  unfolding is_registered
  ask-Keeps user event = search reads

  pub ask_status-Keeps : (user event : Text) → Keeps P (my_registration_status user event)
  unfolding my_registration_status
  ask_status-Keeps user event = search reads

  pub list_own-Keeps : (user : Text) → Keeps P (list_for_user user)
  unfolding list_for_user
  list_own-Keeps user = search reads

module _ {P : Tables → Type 0} (k : StatementsKeep Format P) where
  serve-Keeps : (r : Request) (w : World) → P w.db → P (serve r w).db
  unfolding serve
  serve-Keeps (submit user i) w h = (register-Keeps user i k.inserts).at w h
  serve-Keeps (decide id admin s) w h =
      (service_review-Keeps id admin s (λ d. k.reviews id admin s (decided s d))).at w h
  serve-Keeps (correct id admin) w h = (service_unreject-Keeps id admin (k.unrejects id)).at w h
  serve-Keeps (attach id url) w h = (attach-Keeps id url (λ key. k.cards key url)).at w h
  serve-Keeps (look id) w h = (look-Keeps {P = P} id).at w h
  serve-Keeps (ask user event) w h = (ask-Keeps {P = P} user event).at w h
  serve-Keeps (ask_status user event) w h = (ask_status-Keeps {P = P} user event).at w h
  serve-Keeps (list_own user) w h = (list_own-Keeps {P = P} user).at w h
  serve-Keeps (list_queue s event n) w h = (list_for_review-Keeps {P = P} s event n).at w h
  serve-Keeps (wait n) w h = h

  -- What every statement keeps, every sequence of requests keeps, whatever the server does.
  pub serve_all-Keeps : (rs : List Request) (w : World) → P w.db → P (serve_all rs w).db
  unfolding serve_all
  serve_all-Keeps [] w h = h
  serve_all-Keeps (r ∷ rs) w h = serve_all-Keeps rs (serve r w) (serve-Keeps r w h)

-- What the service keeps of the table.
abbrev pub IsValid : Tables → Type 0
IsValid = TableIsValid Format

-- After any requests, whatever the server did to their statements, the table is valid: numbers and
-- transaction ids have their formats, a registration has a reviewer exactly if it is not pending, only
-- an approved one has an admit card, and no two share an id, a transaction id, or student and event.
pub serve_all-IsValid : (rs : List Request) (w : World) → IsValid w.db → IsValid (serve_all rs w).db
serve_all-IsValid = serve_all-Keeps (statements-TableIsValid Format)
