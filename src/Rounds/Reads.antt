-- ===== src/Rounds/Reads.antt =====
-- The calls of the rounds service that only read keep every property of the tables.
use olympiad_next.Prelude.{◌≡◌, Bool, true, false, List, [], ◌∷◌, Option, none, some, find, arith}
use olympiad_next.Text.{Text}
use olympiad_next.Errors.{ok}
use olympiad_next.Domain.Round.{Round, Participant}
use olympiad_next.Store.{Tables, World}
use olympiad_next.Store.Keeps.{Keeps}
use olympiad_next.Store.Answers.{query-ok}
use olympiad_next.Postgres
use olympiad_next.Postgres.Reads.{reads}
use olympiad_next.Rounds.{
  list_rounds_by_event, list_rounds_by_event_for_caller, check_final, check_no_other_final,
  of_caller,
}
use olympiad_next.Rounds.Entry.{
  enter_round, your_status, is_eligible_for_round, by_registration, by_previous, of_previous, admit,
  status_of,
}
use olympiad_next.Rounds.Decisions.{get_candidates, pool, of_previous_round}

-- A round that is read is the one in the tables.
pub found :
    (id : Text) (w : World) (r : Round)
    → (Postgres.Rounds.find_by_id id w).0 ≡ ok r
    → (find (Postgres.Rounds.by_id id) w.db.rounds ≡ some r)
      × ((Postgres.Rounds.find_by_id id w).1.db ≡ w.db)
unfolding Postgres.Rounds.find_by_id
found id w r h = let (said, left) = query-ok _ w r h in (ground arith, left)

-- The calls that only read.
module _ {P : Tables → Type 0} where
  pub check_final-Keeps :
      (f : Bool) (event level exclude : Text) → Keeps P (check_final f event level exclude)
  unfolding check_final check_no_other_final
  check_final-Keeps false event level exclude = search reads
  check_final-Keeps true event level exclude = search reads

  pub of_caller-Keeps : (user : Text) (rs : List Round) → Keeps P (of_caller user rs)
  of_caller-Keeps [] rs = search reads
  of_caller-Keeps (c ∷ user) rs = search reads

  pub list_for_caller-Keeps :
      (event user : Text) → Keeps P (list_rounds_by_event_for_caller event user)
  unfolding list_rounds_by_event_for_caller
  list_for_caller-Keeps event user = search (reads, of_caller-Keeps)

  pub of_previous-Keeps : (user : Text) (r : Option Round) → Keeps P (of_previous user r)
  unfolding of_previous
  of_previous-Keeps user none = search reads
  of_previous-Keeps user (some prev) = search reads

  pub by_previous-Keeps : (user : Text) (r : Round) → Keeps P (by_previous user r)
  unfolding by_previous
  by_previous-Keeps user r = search (reads, of_previous-Keeps)

  pub by_registration-Keeps : (user : Text) (r : Round) → Keeps P (by_registration user r)
  unfolding by_registration
  by_registration-Keeps user r = search reads

  pub eligible-Keeps : (user : Text) (r : Round) → Keeps P (is_eligible_for_round user r)
  unfolding is_eligible_for_round
  eligible-Keeps user r = search (reads, by_previous-Keeps, by_registration-Keeps)

  pub admit-Keeps : (user : Text) (r : Round) (o : Option Text) → Keeps P (admit user r o)
  unfolding admit
  admit-Keeps user r none = search (reads, eligible-Keeps)
  admit-Keeps user r (some reason) = search reads

  pub enter-Keeps : (id user : Text) → Keeps P (enter_round id user)
  unfolding enter_round
  enter-Keeps id user = search (reads, admit-Keeps)

  pub status_of-Keeps :
      (user : Text) (r : Round) (p : Option Participant) → Keeps P (status_of user r p)
  unfolding status_of
  status_of-Keeps user r none = search (reads, eligible-Keeps)
  status_of-Keeps user r (some p) = search reads

  pub your_status-Keeps : (user : Text) (r : Round) → Keeps P (your_status user r)
  unfolding your_status
  your_status-Keeps user r = search (reads, status_of-Keeps)

  pub of_previous_round-Keeps : (r : Option Round) → Keeps P (of_previous_round r)
  unfolding of_previous_round
  of_previous_round-Keeps none = search reads
  of_previous_round-Keeps (some prev) = search reads

  pub pool-Keeps : (r : Round) → Keeps P (pool r)
  unfolding pool
  pool-Keeps r = search (reads, of_previous_round-Keeps)

  pub candidates-Keeps : (id : Text) → Keeps P (get_candidates id)
  unfolding get_candidates
  candidates-Keeps id = search (reads, pool-Keeps)

  pub list_rounds-Keeps : (event : Text) → Keeps P (list_rounds_by_event event)
  unfolding list_rounds_by_event
  list_rounds-Keeps event = search reads
