-- ===== src/Rounds/Tests.antt =====
-- The theorems on rounds at concrete rounds, and runs of the service.
use olympiad_next.Prelude.{
  pos, ◌≡◌, ◌≢◌, ◌≤◌, ◌<◌, ◌+◌, ◌*◌, refl, true, some, none, List, [], ◌∷◌, map, length, find, any,
  arith,
}
use olympiad_next.Text.{codes, eq_text}
use olympiad_next.Text.Trim.{trim_space}
use olympiad_next.Errors.{ok, err, of_round, RoundError}
use olympiad_next.Rounds
use olympiad_next.Postgres.Rounds.Valid.{clash}
use olympiad_next.Store.Unique.{Distinct}
use olympiad_next.Domain.Round.{ongoing, ended, winner, eliminated}
use olympiad_next.Store.{World, healthy}
use olympiad_next.Postgres.Participants.{Decided}
use olympiad_next.Postgres.Rounds.Ended.{TablesAreValid}
use olympiad_next.Postgres.Rounds.States.{state_of}
use olympiad_next.Rounds.Life.{RoundRun, serve_all-RoundRun}
use olympiad_next.Rounds.{Input, ParticipantDecision, is_allowed_level}
use olympiad_next.Rounds.Entry.{enter_round}
use olympiad_next.Rounds.Decisions.{check_decisions, of_decision, set_participants}
use olympiad_next.Rounds.Checks.{Loop, check_decisions-Loop}
use olympiad_next.Rounds.Requests.{
  Request, create, start, end, decide, enter, serve_all, serve_all-TablesAreValid,
}
use olympiad_next.Rounds.Eligible.{by_approval}
use olympiad_next.Rounds.Gate.{MayEnter, enter_round-MayEnter, MayEnter-enter_round}
use olympiad_next.Rounds.Window.{enter_round-window, enter_round-overflow}
use olympiad_next.Rounds.Machine.{MovesRound, start_end-MovesRound, from_upcoming, from_ongoing}
use olympiad_next.Rounds.Final.{create_round-duplicate_final}
use olympiad_next.Rounds.Outcome.{Outcome, set_participants-Outcome}
use olympiad_next.Fixtures.{
  user_id, event_id, round_id, a_student, an_approval, a_round, no_tables, world,
}

abbrev an_input : Input
an_input = record {
  round_order = pos 1;
  round_name = codes "Final";
  start_at = 3;
  duration_minutes = pos 60;
  is_final = true;
  level = codes "Junior";
}

abbrev decisions : List ParticipantDecision
decisions =
    record { user_id = codes " u"; status = winner; rank = some (pos 1) }
    ∷ record { user_id = codes "v"; status = eliminated; rank = none }
    ∷ []

-- A final is created, held and decided.
abbrev requests : List Request
requests =
    create event_id an_input
    ∷ start (0 ∷ [])
    ∷ enter (0 ∷ []) user_id
    ∷ end (0 ∷ [])
    ∷ decide (0 ∷ []) decisions
    ∷ []

abbrev w0 : World
w0 = world no_tables 5

serve_all-TablesAreValid_example : TablesAreValid is_allowed_level (serve_all requests w0).db
serve_all-TablesAreValid_example = serve_all-TablesAreValid requests w0 (record {
  rounds = record { rows = tt; unique = tt };
  decisions = record { rows = tt; decided = tt; unique = tt };
})

serve_all-RoundRun_example :
    RoundRun
      (0 ∷ [])
      requests
      (state_of (0 ∷ []) w0.db)
      (state_of (0 ∷ []) (serve_all requests w0).db)
serve_all-RoundRun_example = serve_all-RoundRun (0 ∷ []) requests w0

-- An hour from the instant 3, for an approved student.
abbrev w1 : World
w1 =
    world
      (record no_tables { registrations = an_approval ∷ []; rounds = a_round ongoing 3 60 ∷ [] }) 5

may : MayEnter w1.db w1.now round_id user_id
unfolding find any eq_text
may = record {
  round = a_round ongoing 3 60;
  student = a_student;
  there = refl;
  known = refl;
  level = refl;
  verified = refl;
  ongoing = refl;
  started = refl;
  not_over = refl;
  qualified = by_approval refl refl;
}

MayEnter-enter_round_example : (enter_round round_id user_id (healthy w1)).0 ≡ ok (true, [])
MayEnter-enter_round_example = MayEnter-enter_round round_id user_id w1 may

admission : (enter_round round_id user_id w1).0 ≡ ok (true, [])
admission = MayEnter-enter_round round_id user_id w1 may

enter_round-MayEnter_example : MayEnter w1.db w1.now round_id user_id
enter_round-MayEnter_example = enter_round-MayEnter round_id user_id [] w1 admission

enter_round-window_example : (3 ≤ w1.now) × (w1.now < 3 + 60 * 60000000000)
unfolding find eq_text
enter_round-window_example =
    enter_round-window round_id user_id [] w1 (a_round ongoing 3 60) 60 refl refl (omega arith)
      admission

-- The same with a duration that overflows.
abbrev w2 : World
w2 =
    world
      (record no_tables {
        registrations = an_approval ∷ [];
        rounds = a_round ongoing 3 153722868 ∷ [];
      })
      5

enter_round-overflow_example : (enter_round round_id user_id w2).0 ≢ ok (true, [])
unfolding find eq_text
enter_round-overflow_example =
    enter_round-overflow round_id user_id [] w2 (a_round ongoing 3 153722868) 153722868 refl refl
      (omega arith) (omega arith)

create_round-duplicate_final_example :
    (Rounds.create_round event_id an_input w1).0 ≢ err (of_round RoundError.duplicate_final)
create_round-duplicate_final_example =
    create_round-duplicate_final event_id an_input w1 ((λ e. cc), tt)

alone : Distinct clash w1.db.rounds
unfolding any
alone = (refl, tt)

start_end-MovesRound_example :
    MovesRound round_id from_upcoming ongoing w1 (Rounds.start_round round_id (healthy w1))
    × MovesRound round_id from_ongoing ended w1 (Rounds.end_round round_id (healthy w1))
start_end-MovesRound_example = start_end-MovesRound round_id w1 alone

abbrev checked : List Decided
checked = map of_decision decisions

passed : check_decisions true [] decisions ≡ ok checked
unfolding check_decisions any eq_text trim_space
passed = refl

check_decisions-Loop_example : Loop true [] decisions checked
check_decisions-Loop_example = check_decisions-Loop true [] decisions checked passed

-- The round has ended.
abbrev w3 : World
w3 = world (record no_tables { rounds = a_round ended 3 60 ∷ [] }) 5

set_participants-Outcome_example :
    Outcome
      (length decisions)
      round_id
      (map of_decision decisions)
      w3.db
      (set_participants round_id decisions w3)
set_participants-Outcome_example = set_participants-Outcome round_id decisions w3
