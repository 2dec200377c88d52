-- ===== src/Rounds/Eligible.antt =====
-- isEligibleForRound: what its positive answer says of the tables.
use olympiad_next.Prelude.{
  suc, ◌≡◌, refl, ◌∙◌, true, false, not, Option, none, some, find, any, ◌==◌, int_eq, pred_ℤ, arith,
  if◌then◌else◌, Bool-cases, Option-cases, inl, inr, subst,
}
use olympiad_next.Text.{Text, text_eq}
use olympiad_next.Errors.{of_round, of_user, UserError, RoundError, ok}
use olympiad_next.Domain.User.{User}
use olympiad_next.Domain.Round.{Round, Participant, is_qualified}
use olympiad_next.Store.{Tables, World, pure, query, attempt}
use olympiad_next.Store.Answers.{
  Ensures, Ensures-bind, Ensures-lift, query-world, attempt-ok, found-row,
}
use olympiad_next.Postgres
use olympiad_next.Postgres.Rounds.{by_id, by_place}
use olympiad_next.Postgres.Registrations.{approved_for}
use olympiad_next.Postgres.Participants.{by_round_user}
use olympiad_next.Rounds.Entry.{
  is_first, is_admissible, is_eligible_for_round, by_registration, by_previous, of_previous,
  participant_or_none, round_or_none, ineligible,
}

-- Round 1 asks for an approved registration; a later round for `qualified` in the round before it, of
-- the same event and level.
pub data IsQualifiedFor (db : Tables) (user : Text) (r : Round) : Type 0 where
  by_approval :
      is_first r ≡ true
      → any (approved_for user r.event_id) db.registrations ≡ true
      → IsQualifiedFor db user r
  by_decision :
      is_first r ≡ false
      → (prev : Round) (p : Participant)
      → find (by_place r.event_id r.level (pred_ℤ r.round_order)) db.rounds ≡ some prev
      → find (by_round_user prev.id user) db.participants ≡ some p
      → is_qualified p.status ≡ true
      → IsQualifiedFor db user r

registered :
    (user : Text) (r : Round) (w : World)
    → is_first r ≡ true
    → Ensures (by_registration user r) w (λ e _. e.eligible ≡ true → IsQualifiedFor w.db user r)
unfolding by_registration Postgres.Registrations.exists_approved_for_user_event pure
registered user r w first = Ensures-bind _ _ w λ approved read. record {
  of = λ e h yes.
      let (said, left) = query-world _ w approved read in by_approval first (ground arith);
}

-- The decision in the round before.
passed :
    (user : Text) (prev : Option Round) (w : World)
    → Ensures (of_previous user prev) w (λ e _.
      e.eligible ≡ true
      → (r : Round) × (p : Participant) × (prev ≡ some r)
        × (find (by_round_user r.id user) w.db.participants ≡ some p)
        × (is_qualified p.status ≡ true))
unfolding of_previous Postgres.Participants.get_participant pure attempt participant_or_none query
passed user none w = record { of = λ e h yes. ground arith }
passed user (some prev) w = Ensures-bind _ _ w λ found read. Ensures-lift _ _ _ λ p is_p. record {
  of = λ e h yes. elim (Option-cases p) [
    | inl absent ↦ ground arith
    | inr (q, present) ↦
        let is_q : found ≡ ok q = ground arith in
        let was =
          attempt-ok (Postgres.Participants.get_participant prev.id user) w found read ∙ is_q in
        let (said, left) =
          found-row (λ db. find (by_round_user prev.id user) db.participants)
            (of_round RoundError.participant_not_found) w q was in
        (prev, q, refl, said, ground arith)
  ];
}

-- The round before, and the decision in it.
advanced :
    (user : Text) (r : Round) (w : World)
    → is_first r ≡ false
    → Ensures (by_previous user r) w (λ e _. e.eligible ≡ true → IsQualifiedFor w.db user r)
unfolding by_previous Postgres.Rounds.find_by_event_and_order pure attempt round_or_none query
advanced user r w later =
    let lookup =
      Postgres.Rounds.find_by_event_and_order r.event_id r.level (pred_ℤ r.round_order) in
    Ensures-bind _ _ w λ found read. Ensures-lift _ _ _ λ prev is_prev. record {
      of = λ e h yes.
          let (prev', p, same, decided, good) = (passed user prev (lookup w).1).of e h yes in
          let is_prev' : found ≡ ok prev' = ground arith in
          let was = attempt-ok lookup w found read ∙ is_prev' in
          let (said, left) =
            found-row (λ db. find (by_place r.event_id r.level (pred_ℤ r.round_order)) db.rounds)
              (of_round RoundError.not_found) w prev' was in
          by_decision later prev' p said
            (subst (λ x. find (by_round_user prev'.id user) x.db.participants ≡ some p) left
              decided)
            good;
    }

-- The lookup of the student.
pub student_read :
    (user : Text) (w : World) (usr : User)
    → (Postgres.Users.find_by_id user w).0 ≡ ok usr
    → (find (λ u. u.id == user) w.db.users ≡ some usr)
      × ((Postgres.Users.find_by_id user w).1 ≡ record w { step = suc w.step })
unfolding Postgres.Users.find_by_id
student_read user w usr h =
    found-row (λ db. find (λ u. u.id == user) db.users) (of_user UserError.not_found) w usr h

by_order :
    (user : Text) (usr : User) (r : Round) (w : World)
    → Ensures
        (if not (is_admissible usr r)
          then pure ineligible
          else if is_first r
          then by_registration user r
          else by_previous user r)
        w
        (λ e _. e.eligible ≡ true → IsQualifiedFor w.db user r)
unfolding pure
by_order user usr r w = elim (Bool-cases (is_admissible usr r)) [
  | inl adm ↦ elim (Bool-cases (is_first r)) [
    | inl first ↦ rw (adm, first) (registered user r w first)
    | inr later ↦ rw (adm, later) (advanced user r w later)
  ]
  | inr miss ↦ rw miss (record { of = λ e h yes. ground arith })
]

pub eligible :
    (user : Text) (r : Round) (w : World)
    → Ensures
        (is_eligible_for_round user r)
        w
        (λ e _. e.eligible ≡ true → IsQualifiedFor w.db user r)
unfolding is_eligible_for_round
eligible user r w = Ensures-bind _ _ w λ usr read.
    let (known, left) = student_read user w usr read in
    record {
      of = λ e h yes.
          subst (λ x. IsQualifiedFor x.db user r) left
            ((by_order user usr r (Postgres.Users.find_by_id user w).1).of e h yes);
    }
