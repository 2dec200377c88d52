-- ===== src/Rounds/Gate.antt =====
-- The gate of EnterRound: what an admission says of the tables and the clock, and when it is given.
use olympiad_next.Prelude.{
  ℕ, suc, ◌≡◌, refl, ◌∙◌, ap, sym, Bool, true, false, Option, none, some, [], find, ◌==◌, ==_iff,
  ==_refl, int_eq, ltb, arith, subst,
}
use olympiad_next.Text.{Text, text_eq}
use olympiad_next.Errors.{of_round, RoundError, ok, err}
use olympiad_next.Domain.User.{User, is_verified}
use olympiad_next.Domain.Round.{Round, is_ongoing}
use olympiad_next.Store.{Tables, World, healthy, pure, query, clock, ◌>>=◌}
use olympiad_next.Store.Answers.{Ensures, Ensures-bind, found-row}
use olympiad_next.Postgres
use olympiad_next.Postgres.Rounds.{by_id, by_place}
use olympiad_next.Postgres.Registrations.{approved_for}
use olympiad_next.Postgres.Participants.{by_round_user}
use olympiad_next.Rounds.{is_level}
use olympiad_next.Rounds.Entry.{
  is_admissible, enter_round, is_eligible_for_round, by_registration, by_previous, of_previous,
  participant_or_none, round_or_none, closed, admit, gate, before_add, duration,
}
use olympiad_next.Rounds.Eligible.{IsQualifiedFor, by_approval, by_decision, eligible, student_read}

-- What the gate asks for.
pub record MayEnter (db : Tables) (now : ℕ) (id user : Text) : Type 0 where
  pub round : Round
  pub student : User
  pub there : find (by_id id) db.rounds ≡ some round
  pub known : find (λ u. u.id == user) db.users ≡ some student
  pub level : student.level ≡ some round.level
  pub verified : is_verified student.verification_status ≡ true
  pub ongoing : is_ongoing round.status ≡ true
  pub started : ltb now round.start_at ≡ false
  pub not_over : before_add now round.start_at (duration round.duration_minutes) ≡ true
  pub qualified : IsQualifiedFor db user round

is_level-ok : (o : Option Text) (level : Text) → is_level o level ≡ true → o ≡ some level
is_level-ok none level h = cc
is_level-ok (some l) level h = ap some ((==_iff l level).0 h)

round_read :
    (id : Text) (w : World) (r : Round)
    → (Postgres.Rounds.find_by_id id w).0 ≡ ok r
    → (find (by_id id) w.db.rounds ≡ some r)
      × ((Postgres.Rounds.find_by_id id w).1 ≡ record w { step = suc w.step })
unfolding Postgres.Rounds.find_by_id
round_read id w r h =
    found-row (λ db. find (by_id id) db.rounds) (of_round RoundError.not_found) w r h

ok-injective : {A : Type 0} {a b : A} → ok a ≡ ok b → a ≡ b
ok-injective {A} {a} e = ap (λ r. elim r [ ok x ↦ x | err _ ↦ a ]) e

-- An open round.
closed-none :
    (r : Round) (usr : User) (now : ℕ)
    → closed r usr now ≡ none
    → (is_level usr.level r.level ≡ true)
      × (is_verified usr.verification_status ≡ true)
      × (is_ongoing r.status ≡ true)
      × (ltb now r.start_at ≡ false)
      × (before_add now r.start_at (duration r.duration_minutes) ≡ true)
unfolding closed
closed-none r usr now h = (ground arith, ground arith, ground arith, ground arith, ground arith)

admitted :
    (user : Text) (r : Round) (o : Option Text) (w : World)
    → Ensures (admit user r o) w (λ b _. b.0 ≡ true → (o ≡ none) × IsQualifiedFor w.db user r)
unfolding admit gate pure
admitted user r (some reason) w = record { of = λ b h yes. ground arith }
admitted user r none w =
    Ensures-bind _ _ w
      λ e said. record { of = λ b h yes. (refl, (eligible user r w).of e said (ground arith)) }

entered :
    (id user : Text) (w : World)
    → Ensures (enter_round id user) w (λ b _. b.0 ≡ true → MayEnter w.db w.now id user)
unfolding enter_round clock
entered id user w =
    let w1 = (Postgres.Rounds.find_by_id id w).1 in
    let w2 = (Postgres.Users.find_by_id user w1).1 in
    Ensures-bind _ _ w λ r read. Ensures-bind _ _ w1 λ usr read'. Ensures-bind _ _ w2 λ now tick.
      record {
        of = λ b h yes.
            let (there, left) = round_read id w r read in
            let (known, left') = student_read user w1 usr read' in
            let (open', good) = (admitted user r (closed r usr now) w2).of b h yes in
            let (lev, ver, on, begun, within) = closed-none r usr now open' in
            let at : now ≡ w.now =
              sym (ok-injective tick) ∙ ap (λ x. x.now) left' ∙ ap (λ x. x.now) left in
            record {
              round = r;
              student = usr;
              there = there;
              known = subst (λ x. find (λ u. u.id == user) x.db.users ≡ some usr) left known;
              level = is_level-ok usr.level r.level lev;
              verified = ver;
              ongoing = on;
              started = subst (λ t. ltb t r.start_at ≡ false) at begun;
              not_over =
                  subst (λ t. before_add t r.start_at (duration r.duration_minutes) ≡ true) at
                    within;
              qualified =
                  subst (λ x. IsQualifiedFor x user r) (ap (λ x. x.db) left' ∙ ap (λ x. x.db) left)
                    good;
            };
      }

-- An admission, whatever the server does: the round is ongoing and its window contains the clock's
-- instant, the student is verified and of the round's level, and is qualified for the round.
pub enter_round-MayEnter :
    (id user reason : Text) (w : World)
    → (enter_round id user w).0 ≡ ok (true, reason)
    → MayEnter w.db w.now id user
enter_round-MayEnter id user reason w h = (entered id user w).of (true, reason) h refl

pub eligible_answer :
    (user : Text) (r : Round) (usr : User) (w : World)
    → find (λ u. u.id == user) w.db.users ≡ some usr
    → is_admissible usr r ≡ true
    → IsQualifiedFor w.db user r
    → let done = is_eligible_for_round user r (healthy w) in
      (d : Bool) × (done.0 ≡ ok (record { eligible = true; prior_decided = d }))
      × (done.1.now ≡ w.now)
unfolding is_eligible_for_round by_registration by_previous of_previous ◌>>=◌ query round_or_none
    participant_or_none Postgres.Users.find_by_id
    Postgres.Registrations.exists_approved_for_user_event Postgres.Rounds.find_by_event_and_order
    Postgres.Participants.get_participant
eligible_answer user r usr w known adm (by_approval first approved) =
    (false, rw (known, adm, first, approved) refl, rw (known, adm, first) refl)
eligible_answer user r usr w known adm (by_decision later prev p before decided good) = (
  true,
  rw (known, adm, later, before, decided, good) refl,
  rw (known, adm, later, before, decided) refl,
)

admit-open :
    (user : Text) (r : Round) (d : Bool) (w : World)
    → (is_eligible_for_round user r w).0 ≡ ok (record { eligible = true; prior_decided = d })
    → (admit user r none w).0 ≡ ok (true, [])
unfolding admit gate ◌>>=◌ pure
admit-open user r d w h = rw h refl

pub level-is : (o : Option Text) (level : Text) → o ≡ some level → is_level o level ≡ true
level-is o level h = rw h (==_refl level)

-- An open round is not closed.
open-closed :
    (id user : Text) (now : ℕ) (db : Tables) (m : MayEnter db now id user)
    → closed m.round m.student now ≡ none
unfolding closed
open-closed id user now db m =
    rw
      (level-is m.student.level m.round.level m.level, m.verified, m.ongoing, m.started, m.not_over)
      refl

-- On a server that runs every statement, a student who may enter is admitted.
pub MayEnter-enter_round :
    (id user : Text) (w : World)
    → MayEnter w.db w.now id user
    → (enter_round id user (healthy w)).0 ≡ ok (true, [])
unfolding enter_round clock ◌>>=◌ query Postgres.Rounds.find_by_id Postgres.Users.find_by_id
MayEnter-enter_round id user w m =
    let lev = level-is m.student.level m.round.level m.level in
    let adm : is_admissible m.student m.round ≡ true = rw (lev, m.verified) refl in
    let later = record w { step = suc (suc w.step) } in
    let (d, answer, same) = eligible_answer user m.round m.student later m.known adm m.qualified in
    rw (m.there, m.known, open-closed id user w.now w.db m)
      (admit-open user m.round d (healthy later) answer)
