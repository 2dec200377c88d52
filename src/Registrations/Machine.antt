-- ===== src/Registrations/Machine.antt =====
-- The review of a registration as an abstract machine on one row, and the service's calls as its steps.
use olympiad_next.Prelude.{
  ℕ, suc, ◌≡◌, ◌≢◌, refl, Bool, true, false, ◌||◌, Option, none, some, find, arith, if◌then◌else◌,
  subst, ap, Option-cases, Bool-cases, inl, inr,
}
use std.Path.{fun_ext}
use olympiad_next.Text.{Text, text_eq}
use olympiad_next.Errors.{of_registration, RegistrationError, Result, ok, err}
use olympiad_next.Domain.Registration.{
  Status, pending, approved, rejected, Registration, is_pending, is_approved, is_rejected, is_valid,
}
use olympiad_next.Store.{Tables, World, healthy, ◌>>=◌, exec, query}
use olympiad_next.Postgres
use olympiad_next.Postgres.Registrations.{
  by_id, reviewed_row, unrejected_row, carded_row, update_registrations,
}
use olympiad_next.Postgres.Registrations.Guard.{
  act, guarded_db, guarded_answer, entry-update_self, entry-update_other,
}
use olympiad_next.Registrations.{review, unreject}
use olympiad_next.Registrations.Requests.{IsValid}

-- What the table holds under an id.
abbrev pub Entry : Type 0
Entry = Option Registration

abbrev pub entry : Text → Tables → Entry
entry id db = find (by_id id) db.registrations

-- What the caller sees of a call: its answer, and the row with the id.
abbrev pub seen : {A : Type 0} → Text → Result A × World → Result A × Entry
seen id r = (r.0, entry id r.1.db)

-- What a call answers and does: the abstract step on the row with the id, and nothing elsewhere.
abbrev pub Refines :
    {A : Type 0} → Text → Result A × World → Tables → (Entry → Result A × Entry) → Type 0
Refines id r db spec =
    (seen id r ≡ spec (entry id db)) × ((j : Text) → j ≢ id → entry j r.1.db ≡ entry j db)

-- The states that a change starts from.
abbrev pub from_pending : Status → Bool
from_pending pending = true
from_pending approved = false
from_pending rejected = false
from_pending (Status.other s) = false

abbrev pub from_approved : Status → Bool
from_approved pending = false
from_approved approved = true
from_approved rejected = false
from_approved (Status.other s) = false

abbrev pub from_rejected : Status → Bool
from_rejected pending = false
from_rejected approved = false
from_rejected rejected = true
from_rejected (Status.other s) = false

-- The row after a decision.
abbrev pub decided_row : Status → Text → ℕ → Registration → Registration
decided_row d admin now r = record r {
  status = d;
  reviewed_by = some admin;
  reviewed_at = some now;
  updated_at = now;
}

-- The row after the correction of a rejection.
abbrev pub reopened_row : ℕ → Registration → Registration
reopened_row now r = record r {
  status = pending;
  reviewed_by = none;
  reviewed_at = none;
  updated_at = now;
}

pub is_pending-same : (s : Status) → is_pending s ≡ from_pending s
is_pending-same pending = refl
is_pending-same approved = refl
is_pending-same rejected = refl
is_pending-same (Status.other s) = refl

pub is_approved-same : (s : Status) → is_approved s ≡ from_approved s
is_approved-same pending = refl
is_approved-same approved = refl
is_approved-same rejected = refl
is_approved-same (Status.other s) = refl

pub is_rejected-same : (s : Status) → is_rejected s ≡ from_rejected s
is_rejected-same pending = refl
is_rejected-same approved = refl
is_rejected-same rejected = refl
is_rejected-same (Status.other s) = refl

module _ (g : Status → Bool) (f : Registration → Registration) (e : RegistrationError) where
  -- A change of the rows in one state; in the others the call is refused.
  abbrev pub guarded_step : Entry → Result (Unit {0}) × Entry
  guarded_step none = (err (of_registration RegistrationError.not_found), none)
  guarded_step (some r) =
      if g r.status then (ok tt, some (f r)) else (err (of_registration e), some r)

pub act-Refines :
    (id : Text) (g : Status → Bool) (f : ℕ → Registration → Registration) (e : RegistrationError)
    (w : World)
    → IsValid w.db
    → ((j : Text) (r : Registration) → by_id j (f w.now r) ≡ by_id j r)
    → Refines id (act id g f e (healthy w)) w.db (guarded_step g (f w.now) e)
act-Refines id g f e w v keeps = (
  ground (
    arith,
    guarded_answer id g f e w v.unique,
    guarded_db id g f e w,
    entry-update_self id g f e w.now w.db.registrations (keeps id),
  ),
  λ j ne.
      rw (guarded_db id g f e w)
        (entry-update_other id g f e w.now w.db.registrations j (keeps j) ne),
)

-- A test may be replaced by one with the same answers.
pub guarded_step-same :
    {g h : Status → Bool} (f : Registration → Registration) (e : RegistrationError)
    → ((s : Status) → g s ≡ h s)
    → guarded_step g f e ≡ guarded_step h f e
guarded_step-same f e same = ap (λ t. guarded_step t f e) (fun_ext same)

-- Review on a server that runs every statement: a decision on a pending registration is recorded with
-- its reviewer and time, any other registration is refused as already reviewed, an unknown id as not
-- found, and no other row changes.
pub review-Refines :
    (id admin : Text) (d : Status) (w : World)
    → IsValid w.db
    → (is_approved d || is_rejected d) ≡ true
    → Refines id
        (review id admin d (healthy w))
        w.db
        (guarded_step from_pending (decided_row d admin w.now) RegistrationError.already_reviewed)
unfolding review ◌>>=◌ is_valid Postgres.Registrations.review exec
review-Refines id admin approved w v h =
    subst (Refines id (review id admin approved (healthy w)) w.db)
      (guarded_step-same (decided_row approved admin w.now) _ is_pending-same)
      (act-Refines id is_pending (reviewed_row approved admin) RegistrationError.already_reviewed w
        v (λ _ _. refl))
review-Refines id admin rejected w v h =
    subst (Refines id (review id admin rejected (healthy w)) w.db)
      (guarded_step-same (decided_row rejected admin w.now) _ is_pending-same)
      (act-Refines id is_pending (reviewed_row rejected admin) RegistrationError.already_reviewed w
        v (λ _ _. refl))
review-Refines id admin pending w v h = cc
review-Refines id admin (Status.other s) w v h = cc

-- A rejected registration passes the service's own test, and the statement decides.
unreject-rejected :
    (id admin : Text) (w : World) (r : Registration)
    → entry id w.db ≡ some r
    → is_rejected r.status ≡ true
    → unreject id admin (healthy w)
      ≡ act id is_rejected unrejected_row RegistrationError.invalid_unreject_transition
          (healthy (record w { step = suc w.step }))
unfolding unreject ◌>>=◌ Postgres.Registrations.unreject Postgres.Registrations.find_by_id query
unreject-rejected id admin w r found hit = ground arith

pub unreject-Refines :
    (id admin : Text) (w : World)
    → IsValid w.db
    → Refines id (unreject id admin (healthy w)) w.db (
        guarded_step is_rejected
          (unrejected_row w.now)
          RegistrationError.invalid_unreject_transition)
unfolding unreject ◌>>=◌ Postgres.Registrations.unreject Postgres.Registrations.find_by_id query
unreject-Refines id admin w v =
    let (step, others) =
      act-Refines id is_rejected unrejected_row RegistrationError.invalid_unreject_transition
        (record w { step = suc w.step }) v (λ _ _. refl) in
    elim (Option-cases (entry id w.db)) [
      | inl absent ↦ (ground arith, λ j ne. ground arith)
      | inr (r, found) ↦ elim (Bool-cases (is_rejected r.status)) [
        | inl hit ↦ rw (unreject-rejected id admin w r found hit) (step, others)
        | inr miss ↦ (ground arith, λ j ne. ground arith)
      ]
    ]
