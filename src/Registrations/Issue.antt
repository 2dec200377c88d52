-- ===== src/Registrations/Issue.antt =====
-- The machine of a registration when an admit card is issued, and the corrections of a registration.
use olympiad_next.Prelude.{
  ℕ, suc, [], ◌==◌, ◌≡◌, refl, ◌∙◌, ap, subst, none, some, find, arith, if◌then◌else◌, Option-cases,
  Bool-cases, inl, inr,
}
use olympiad_next.Text.{Text, text_eq}
use olympiad_next.Text.Trim.{trim_space}
use olympiad_next.Errors.{Error, of_registration, RegistrationError, Result, ok, err}
use olympiad_next.Domain.Registration.{Registration, is_approved}
use olympiad_next.Store.{Tables, World, runs, healthy, App, lift, ◌>>=◌, query, attempt}
use olympiad_next.Store.Keeps.{Keeps, Keeps-lift-bind}
use olympiad_next.Postgres
use olympiad_next.Postgres.Reads.{reads}
use olympiad_next.Postgres.Registrations.{by_id, carded_row}
use olympiad_next.Postgres.Registrations.Guard.{act, guarded_db, guarded_fate}
use olympiad_next.Registrations.{unreject, attach_admit_card, best_effort_title}
use olympiad_next.Registrations.Requests.{IsValid, best_effort_title-Keeps}
use olympiad_next.Registrations.Machine.{
  Entry, entry, seen, Refines, act-Refines, unreject-Refines, guarded_step, guarded_step-same,
  from_approved, from_rejected, reopened_row, is_approved-same, is_rejected-same,
}

-- The row after an admit card.
abbrev pub issued_row : Text → ℕ → Registration → Registration
issued_row url now r = record r {
  admit_card_url = some url;
  admit_card_uploaded_at = some now;
  updated_at = now;
}

-- The title of the event of a registration, or the empty text.
abbrev pub title_in : Tables → Registration → Text
title_in db r = elim (find (λ ev. ev.id == r.event_id) db.events) [ none ↦ [] | some ev ↦ ev.title ]

abbrev pub issue_step : Text → ℕ → Tables → Entry → Result Text × Entry
issue_step url now db none = (err (of_registration RegistrationError.not_found), none)
issue_step url now db (some r) =
    if from_approved r.status
    then (ok (title_in db r), some (issued_row url now r))
    else (err (of_registration RegistrationError.not_approved), some r)

-- The answer of the two lookups after a stored admit card.
abbrev titled : Text → App Text
titled id = do reg ← attempt (Postgres.Registrations.find_by_id id); best_effort_title reg

titled_answer :
    (id : Text) (w : World) (r : Registration)
    → w.fate w.step ≡ runs
    → w.fate (suc w.step) ≡ runs
    → entry id w.db ≡ some r
    → ((titled id w).0 ≡ ok (title_in w.db r)) × ((titled id w).1.db ≡ w.db)
unfolding ◌>>=◌ Postgres.Registrations.find_by_id Postgres.Events.find_by_id query
titled_answer id w r one two found = (ground arith, ground arith)

titled-Keeps : {P : Tables → Type 0} (id : Text) → Keeps P (titled id)
titled-Keeps id = search (reads, best_effort_title-Keeps)

module _ (id : Text) (m : App (Unit {0})) (w : World) where
  abbrev issued : Result Text × World
  issued = (m >>= λ _. titled id) w

  -- The lookups leave the tables of the UPDATE.
  issued_db : issued.1.db ≡ (m w).1.db
  unfolding ◌>>=◌
  issued_db =
      let kept : Keeps (λ db. db ≡ (m w).1.db) (lift (m w).0 >>= λ _. titled id) =
        Keeps-lift-bind (m w).0 (λ _. titled id) (λ _ _. titled-Keeps id) in
      kept.at (m w).1 refl

  -- A refused UPDATE is the answer.
  issued_err : (e : Error) (x : Entry) → seen id (m w) ≡ (err e, x) → seen id issued ≡ (err e, x)
  unfolding ◌>>=◌
  issued_err e x h = ground (arith, issued_db)

  -- A stored card is answered with the title.
  issued_ok :
      (r : Registration)
      → seen id (m w) ≡ (ok tt, some r)
      → ((n : ℕ) → (m w).1.fate n ≡ runs)
      → seen id issued ≡ (ok (title_in (m w).1.db r), some r)
  unfolding ◌>>=◌
  issued_ok r h alive =
      let (said, left) = titled_answer id (m w).1 r (alive _) (alive _) (ap (λ s. s.1) h) in
      ground (arith, issued_db)

attach_admit_card-Refines :
    (raw url : Text) (w : World)
    → IsValid w.db
    → Refines
        (trim_space raw)
        (attach_admit_card raw url (healthy w))
        w.db
        (issue_step url w.now w.db)
unfolding attach_admit_card Postgres.Registrations.set_admit_card
attach_admit_card-Refines raw url w v =
    let id = trim_space raw in
    let not_approved = RegistrationError.not_approved in
    let missing = of_registration RegistrationError.not_found in
    let m = act id is_approved (carded_row url) not_approved in
    let (step, others) =
      act-Refines id is_approved (carded_row url) not_approved w v (λ _ _. refl) in
    let left = guarded_db id is_approved (carded_row url) not_approved w in
    (
      elim (Option-cases (entry id w.db)) [
        | inl absent ↦
            issued_err id m (healthy w) missing none (step ∙ rw absent refl) ∙ rw absent refl
        | inr (r, found) ↦ elim (Bool-cases (is_approved r.status)) [
          | inl hit ↦
              issued_ok id m (healthy w) (carded_row url w.now r) (step ∙ rw (found, hit) refl)
                (guarded_fate id is_approved (carded_row url) not_approved w)
              ∙ rw (left, found, ← is_approved-same r.status, hit) refl
          | inr miss ↦
              issued_err id m (healthy w) (of_registration not_approved) (some r)
                (step ∙ rw (found, miss) refl)
              ∙ rw (found, ← is_approved-same r.status, miss) refl
        ]
      ],
      λ j ne. rw (issued_db id m (healthy w)) (others j ne),
    )

-- Unreject and AttachAdmitCard on a server that runs every statement: a rejected registration is pending
-- again, without reviewer and review time; an approved one gets the card and the answer is the title of
-- its event; one in another state is refused, an unknown id is not found, and no other row changes.
pub unreject_attach-Refine :
    (id admin raw url : Text) (w : World)
    → IsValid w.db
    → Refines id (unreject id admin (healthy w)) w.db (
        guarded_step from_rejected
          (reopened_row w.now)
          RegistrationError.invalid_unreject_transition)
      × Refines
          (trim_space raw)
          (attach_admit_card raw url (healthy w))
          w.db
          (issue_step url w.now w.db)
unreject_attach-Refine id admin raw url w v = (
  subst (Refines id (unreject id admin (healthy w)) w.db)
      (guarded_step-same (reopened_row w.now) _ is_rejected-same) (unreject-Refines id admin w v),
  attach_admit_card-Refines raw url w v,
)
