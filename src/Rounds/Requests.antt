-- ===== src/Rounds/Requests.antt =====
-- Any sequence of requests to the rounds service, on any server.
use olympiad_next.Prelude.{ℕ, ◌+◌, refl, List, [], ◌∷◌}
use olympiad_next.Text.{Text}
use olympiad_next.Domain.Round.{Round, upcoming, ongoing, ended}
use olympiad_next.Store.{Tables, World}
use olympiad_next.Store.Keeps.{
  Keeps, StmtKeeps, KeepsAt, KeepsAt-bind, KeepsAt-then, KeepsAt-require, KeepsAt-lift, Keeps-bind,
  Keeps-lift-bind, Keeps-pure,
}
use olympiad_next.Postgres
use olympiad_next.Postgres.Reads.{round-Keeps}
use olympiad_next.Postgres.Rounds as RoundRepository
use olympiad_next.Postgres.Rounds.{NewRound, insert_round, move_round}
use olympiad_next.Postgres.Rounds.Lift.{
  StatementsKeep, UpsertsKeep, InputIsValid, starts, ends, create-Keeps, update_by_id-Keeps,
  delete-Keeps, set_status-Keeps, upsert_participants-Keeps,
}
use olympiad_next.Postgres.Rounds.Ended.{TablesAreValid, statements-TablesAreValid}
use olympiad_next.Rounds.{
  Input, ParticipantDecision, create_round, update_round, delete_round, list_rounds_by_event,
  list_rounds_by_event_for_caller, start_round, end_round, is_allowed_level,
}
use olympiad_next.Rounds.Entry.{enter_round, your_status}
use olympiad_next.Rounds.Decisions.{get_candidates, set_participants}
use olympiad_next.Rounds.Checks.{validate-ok, check_decisions-Loop}
use olympiad_next.Rounds.Reads.{
  found, check_final-Keeps, list_for_caller-Keeps, enter-Keeps, your_status-Keeps, candidates-Keeps,
  list_rounds-Keeps,
}

pub data Request : Type 0 where
  create : Text → Input → Request
  change : Text → Input → Request
  remove : Text → Request
  start : Text → Request
  end : Text → Request
  decide : Text → List ParticipantDecision → Request
  enter : Text → Text → Request
  ask_status : Text → Round → Request
  list_rounds : Text → Request
  list_for_caller : Text → Text → Request
  list_candidates : Text → Request
  wait : ℕ → Request

-- The world after a request; `wait` lets time pass.
unfoldable pub serve : Request → World → World
serve (create event i) w = (create_round event i w).1
serve (change id i) w = (update_round id i w).1
serve (remove id) w = (delete_round id w).1
serve (start id) w = (start_round id w).1
serve (end id) w = (end_round id w).1
serve (decide id ds) w = (set_participants id ds w).1
serve (enter id user) w = (enter_round id user w).1
serve (ask_status user r) w = (your_status user r w).1
serve (list_rounds event) w = (list_rounds_by_event event w).1
serve (list_for_caller event user) w = (list_rounds_by_event_for_caller event user w).1
serve (list_candidates id) w = (get_candidates id w).1
serve (wait n) w = record w { now = w.now + n }

unfoldable pub serve_all : List Request → World → World
unfolding serve
serve_all [] w = w
serve_all (r ∷ rs) w = serve_all rs (serve r w)

module _ {P : Tables → Type 0} where
  pub create_round-Keeps :
      (event : Text) (i : Input)
      → ((n : NewRound) → InputIsValid is_allowed_level n → StmtKeeps P (insert_round n))
      → Keeps P (create_round event i)
  unfolding create_round
  create_round-Keeps event i kept = Keeps-lift-bind _ _ λ _ valid.
      Keeps-bind _ _ (check_final-Keeps i.is_final event i.level [])
        λ _. create-Keeps _ (kept _ (validate-ok event i valid))

  pub update_round-Keeps :
      (id : Text) (i : Input)
      → ((key : Text) (n : NewRound)
          → InputIsValid is_allowed_level n
          → StmtKeeps P (RoundRepository.update_round key n))
      → Keeps P (update_round id i)
  unfolding update_round
  update_round-Keeps id i kept = Keeps-lift-bind _ _ λ _ valid. Keeps-bind _ _ (round-Keeps id) λ r.
      Keeps-bind _ _ (check_final-Keeps i.is_final r.event_id i.level r.id) λ _.
        Keeps-bind _ _ (update_by_id-Keeps r.id _ (kept r.id _ (validate-ok r.event_id i valid)))
          λ at. Keeps-pure _

  pub delete_round-Keeps :
      (id : Text) → StmtKeeps P (RoundRepository.delete_round id) → Keeps P (delete_round id)
  unfolding delete_round
  delete_round-Keeps id kept = delete-Keeps id kept

  pub start_round-Keeps :
      (id : Text) → StmtKeeps P (move_round id upcoming ongoing) → Keeps P (start_round id)
  unfolding start_round
  start_round-Keeps id kept = Keeps-bind _ _ (set_status-Keeps id _ _ kept) λ _. round-Keeps id

  pub end_round-Keeps :
      (id : Text) → StmtKeeps P (move_round id ongoing ended) → Keeps P (end_round id)
  unfolding end_round
  end_round-Keeps id kept = Keeps-bind _ _ (set_status-Keeps id _ _ kept) λ _. round-Keeps id

  pub set_participants-Keeps :
      (id : Text) (ds : List ParticipantDecision) (w : World)
      → UpsertsKeep P
      → KeepsAt P (set_participants id ds) w
  unfolding set_participants
  set_participants-Keeps id ds w kept = KeepsAt-bind _ _ w (round-Keeps id) λ r read.
      let (there, left) = found id w r read in
      let w' = (Postgres.Rounds.find_by_id id w).1 in
      KeepsAt-require _ _ _ w' λ over. KeepsAt-require _ _ _ w' λ some_decision.
        KeepsAt-lift _ _ w' λ out checked.
          KeepsAt-then _ _ w'
            (upsert_participants-Keeps kept id r.is_final out w'
              (check_decisions-Loop r.is_final [] ds out checked).valid
              (rw left (r, there, over, refl)))
            (λ _. Keeps-pure _)

module _ {P : Tables → Type 0} (k : StatementsKeep is_allowed_level P) where
  serve-Keeps : (r : Request) (w : World) → P w.db → P (serve r w).db
  unfolding serve
  serve-Keeps (create event i) w h = (create_round-Keeps event i k.inserts).at w h
  serve-Keeps (change id i) w h = (update_round-Keeps id i k.updates).at w h
  serve-Keeps (remove id) w h = (delete_round-Keeps id (k.deletes id)).at w h
  serve-Keeps (start id) w h = (start_round-Keeps id (k.moves id starts)).at w h
  serve-Keeps (end id) w h = (end_round-Keeps id (k.moves id ends)).at w h
  serve-Keeps (decide id ds) w h = (set_participants-Keeps id ds w k.upserts).kept h
  serve-Keeps (enter id user) w h = (enter-Keeps {P = P} id user).at w h
  serve-Keeps (ask_status user r) w h = (your_status-Keeps {P = P} user r).at w h
  serve-Keeps (list_rounds event) w h = (list_rounds-Keeps {P = P} event).at w h
  serve-Keeps (list_for_caller event user) w h = (list_for_caller-Keeps {P = P} event user).at w h
  serve-Keeps (list_candidates id) w h = (candidates-Keeps {P = P} id).at w h
  serve-Keeps (wait n) w h = h

  -- What every statement keeps, every sequence of requests keeps, whatever the server does.
  pub serve_all-Keeps : (rs : List Request) (w : World) → P w.db → P (serve_all rs w).db
  unfolding serve_all
  serve_all-Keeps [] w h = h
  serve_all-Keeps (r ∷ rs) w h = serve_all-Keeps rs (serve r w) (serve-Keeps r w h)

-- After any requests, whatever the server did to their statements, both tables are valid: a round has a
-- name, a positive order and duration, a start and one of the three levels, and neither its place nor,
-- if it is final, its event and level are those of another; a decision is one of the three, has a
-- positive rank exactly if it is `winner`, and is of a round that has ended; a student has one decision
-- in a round, and a rank of a round one winner.
pub serve_all-TablesAreValid :
    (rs : List Request) (w : World)
    → TablesAreValid is_allowed_level w.db
    → TablesAreValid is_allowed_level (serve_all rs w).db
serve_all-TablesAreValid = serve_all-Keeps (statements-TablesAreValid is_allowed_level)
