-- ===== src/Postgres/Rounds.antt =====
-- round_repository.go over the table rounds.
pub mod Lift
pub mod Valid
pub mod Decisions
pub mod Ended
pub mod States
use olympiad_next.Prelude.{
  ℕ, ℤ, zero, Bool, true, false, not, ◌&&◌, List, [], ◌∷◌, ◌++◌, find, any, filter, ◌==◌, int_eq,
  leb_ℤ, if◌then◌else◌, none, some,
}
use olympiad_next.Text.{Text, text_eq}
use olympiad_next.Errors.{internal, of_round, RoundError, Result, ok, err}
use olympiad_next.Domain.Round.{Status, upcoming, Round, same_status}
use olympiad_next.Store.{App, Stmt, exec, query, attempt, pure, raise, ◌>>=◌}
use olympiad_next.Store.Rows.{update, count, delete_rows, order_by, or_err}
use olympiad_next.Postgres.Events.{exists_event}

-- The columns that the caller supplies to Create and Update.
pub record NewRound : Type 0 where
  pub event_id : Text
  pub round_order : ℤ
  pub round_name : Text
  pub start_at : ℕ
  pub duration_minutes : ℤ
  pub is_final : Bool
  pub level : Text

abbrev pub by_id : Text → Round → Bool
by_id id r = r.id == id

abbrev pub by_event : Text → Round → Bool
by_event event r = r.event_id == event

-- uq_rounds_event_order
abbrev pub by_place : Text → Text → ℤ → Round → Bool
by_place event level order r = r.event_id == event && r.level == level && r.round_order == order

-- uq_rounds_one_final_per_event, a partial index
abbrev pub by_final : Text → Text → Round → Bool
by_final event level r = r.is_final && r.event_id == event && r.level == level

abbrev pub new_row : NewRound → Text → ℕ → Round
new_row n id now = record {
  id = id;
  event_id = n.event_id;
  round_order = n.round_order;
  round_name = n.round_name;
  start_at = n.start_at;
  duration_minutes = n.duration_minutes;
  status = upcoming;
  is_final = n.is_final;
  level = n.level;
  created_at = now;
  updated_at = now;
}

abbrev pub order_taken : Text → Text → ℤ → List Round → Bool
order_taken event level order rs = any (by_place event level order) rs

-- A row that is not final is not in the partial index.
abbrev pub final_taken : Bool → Text → Text → List Round → Bool
final_taken is_final event level rs = is_final && any (by_final event level) rs

-- The INSERT: the primary key, the two unique indexes in their order, the foreign key.
unfoldable pub insert_round : NewRound → Stmt Round
insert_round n id now db =
    if any (by_id id) db.rounds
    then (err internal, db)
    else if order_taken n.event_id n.level n.round_order db.rounds
    then (err (of_round RoundError.duplicate_order), db)
    else if final_taken n.is_final n.event_id n.level db.rounds
    then (err (of_round RoundError.duplicate_final), db)
    else if not (exists_event n.event_id db)
    then (err internal, db)
    else (ok (new_row n id now), record db { rounds = db.rounds ++ new_row n id now ∷ [] })

-- RoundRepository.Create
unfoldable pub create : NewRound → App Round
unfolding insert_round
create n = exec (insert_round n)

abbrev pub updated_row : NewRound → ℕ → Round → Round
updated_row n now r = record r {
  round_order = n.round_order;
  round_name = n.round_name;
  start_at = n.start_at;
  duration_minutes = n.duration_minutes;
  is_final = n.is_final;
  level = n.level;
  updated_at = now;
}

-- The rows that the UPDATE of a row is compared with: those with another id.
abbrev pub others : Text → List Round → List Round
others id rs = filter (λ r. not (by_id id r)) rs

-- The UPDATE of the row with the id; the event of the row stays.
unfoldable pub update_round : Text → NewRound → Stmt ℕ
update_round id n _ now db = elim (find (by_id id) db.rounds) [
  | none ↦ (err (of_round RoundError.not_found), db)
  | some r ↦
      if order_taken r.event_id n.level n.round_order (others id db.rounds)
      then (err (of_round RoundError.duplicate_order), db)
      else if final_taken n.is_final r.event_id n.level (others id db.rounds)
      then (err (of_round RoundError.duplicate_final), db)
      else (ok now, record db { rounds = update (by_id id) (updated_row n now) db.rounds })
]

-- RoundRepository.Update; it returns updated_at.
unfoldable pub update_by_id : Text → NewRound → App ℕ
unfolding update_round
update_by_id id n = exec (update_round id n)

-- The DELETE, with the decisions of the round by ON DELETE CASCADE.
unfoldable pub delete_round : Text → Stmt ℕ
delete_round id _ _ db = (
  ok (count (by_id id) db.rounds),
  if any (by_id id) db.rounds
      then record db {
        rounds = delete_rows (by_id id) db.rounds;
        participants = delete_rows (λ p. p.round_id == id) db.participants;
      }
      else db,
)

-- checkRoundRowsAffected
unfoldable pub check_round_rows_affected : ℕ → App Unit
check_round_rows_affected zero = raise (of_round RoundError.not_found)
check_round_rows_affected _ = pure tt

-- RoundRepository.Delete
unfoldable pub delete : Text → App Unit
unfolding delete_round check_round_rows_affected
delete id = do n ← exec (delete_round id); check_round_rows_affected n

-- RoundRepository.FindByID
unfoldable pub find_by_id : Text → App Round
find_by_id id = query λ db. or_err (find (by_id id) db.rounds) (of_round RoundError.not_found)

-- RoundRepository.FindByEventAndOrder
unfoldable pub find_by_event_and_order : Text → Text → ℤ → App Round
find_by_event_and_order event level order =
    query λ db. or_err (find (by_place event level order) db.rounds) (of_round RoundError.not_found)

-- RoundRepository.ListByEvent, with ORDER BY round_order ASC
unfoldable pub list_by_event : Text → App (List Round)
list_by_event event = query λ db.
    ok (order_by (λ a b. leb_ℤ a.round_order b.round_order) (filter (by_event event) db.rounds))

abbrev pub in_state : Text → Status → Round → Bool
in_state id from r = by_id id r && same_status r.status from

abbrev pub moved_row : Status → ℕ → Round → Round
moved_row to now r = record r { status = to; updated_at = now }

-- The guarded UPDATE of SetStatus.
unfoldable pub move_round : Text → Status → Status → Stmt ℕ
move_round id from to _ now db = (
  ok (count (in_state id from) db.rounds),
  record db { rounds = update (in_state id from) (moved_row to now) db.rounds },
)

-- `errors.Is(findErr, round.ErrNotFound)`
abbrev pub is_not_found : Result Round → Bool
is_not_found (err (of_round RoundError.not_found)) = true
is_not_found _ = false

unfoldable pub explain : Text → App Unit
unfolding find_by_id
explain id = do
  found ← attempt (find_by_id id)
  raise (
      of_round (if is_not_found found then RoundError.not_found else RoundError.invalid_transition))

unfoldable pub moved : ℕ → App Unit → App Unit
moved zero m = m
moved _ m = pure tt

-- RoundRepository.SetStatus
unfoldable pub set_status : Text → Status → Status → App Unit
unfolding move_round explain moved
set_status id from to = do n ← exec (move_round id from to); moved n (explain id)
