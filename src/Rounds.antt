-- ===== src/Rounds.antt =====
-- internal/app/rounds/service.go: the rounds of an event, their states and their decisions.
pub mod Entry
pub mod Decisions
pub mod Checks
pub mod Reads
pub mod Requests
pub mod Life
pub mod Eligible
pub mod Gate
pub mod Window
pub mod Machine
pub mod Shown
pub mod Final
pub mod Recorded
pub mod Outcome
pub mod Tests
use olympiad_next.Prelude.{
  ℕ, ℤ, pos, negsuc, zero, suc, ◌+◌, ◌*◌, ◌-◌, ◌^◌, ◌%◌, Bool, true, false, not, ◌&&◌, ◌||◌, Option,
  none, some, List, [], ◌∷◌, ◌++◌, map, any, filter, length, ◌==◌, int_eq, nat_eq, ltb, is_positive,
  pred_ℤ, to_u64, if◌then◌else◌,
}
use olympiad_next.Text.{Text, text_eq, lit}
use olympiad_next.Text.Trim.{trim_space}
use olympiad_next.Text.Decimal.{show}
use olympiad_next.Errors.{Error, of_round, RoundError, rounds_validation, Result, ok, err}
use olympiad_next.Domain.User.{User, is_verified}
use olympiad_next.Domain.Registration.{approved}
use olympiad_next.Domain.Round.{
  Status, upcoming, ongoing, ended, Round, Participant, ParticipantStatus, qualified, is_valid,
  is_winner, is_qualified, is_ongoing, is_ended, status_text,
}
use olympiad_next.Store.{App, pure, raise, lift, attempt, require, clock, ◌>>=◌, ◌>>◌}
use olympiad_next.Postgres
use olympiad_next.Postgres.Details.{Detail}
use olympiad_next.Postgres.Rounds.{NewRound}
use olympiad_next.Postgres.Participants.{Decided, ParticipantDetail}

-- allowedLevels
unfoldable pub is_allowed_level : Text → Bool
is_allowed_level level =
    level == lit "Junior" || level == lit "Secondary" || level == lit "Higher Secondary"

-- `start_at` is 0 for Go's zero time.
pub record Input : Type 0 where
  pub round_order : ℤ
  pub round_name : Text
  pub start_at : ℕ
  pub duration_minutes : ℤ
  pub is_final : Bool
  pub level : Text

-- Input.validate
unfoldable pub validate : Input → Result (Unit {0})
unfolding is_allowed_level
validate i =
    if trim_space i.round_name == []
    then err (rounds_validation (lit "round_name is required"))
    else if not (is_positive i.round_order)
    then err (rounds_validation (lit "round_order must be positive"))
    else if i.start_at == 0
    then err (rounds_validation (lit "start_at is required"))
    else if not (is_positive i.duration_minutes)
    then err (rounds_validation (lit "duration_minutes must be greater than zero"))
    else if not (is_allowed_level i.level)
    then err (rounds_validation (lit "level must be one of: Junior, Secondary, Higher Secondary"))
    else ok tt

pub record ParticipantDecision : Type 0 where
  pub user_id : Text
  pub status : ParticipantStatus
  pub rank : Option ℤ

pub record Candidate : Type 0 where
  pub user_id : Text
  pub full_name : Option Text
  pub email : Text
  pub existing_status : Option Text
  pub existing_rank : Option ℤ

abbrev pub new_round : Text → Input → NewRound
new_round event i = record {
  event_id = event;
  round_order = i.round_order;
  round_name = trim_space i.round_name;
  start_at = i.start_at;
  duration_minutes = i.duration_minutes;
  is_final = i.is_final;
  level = i.level;
}

abbrev pub is_other_final : Text → Text → Round → Bool
is_other_final level exclude r = not (r.id == exclude) && r.level == level && r.is_final

-- Service.checkNoOtherFinal
unfoldable pub check_no_other_final : Text → Text → Text → App Unit
check_no_other_final event level exclude = do
  existing ← Postgres.Rounds.list_by_event event
  require (not (any (is_other_final level exclude) existing))
      (rounds_validation (lit "only one final round allowed per level per event"))

-- The check, for a round that is to be final.
unfoldable pub check_final : Bool → Text → Text → Text → App Unit
unfolding check_no_other_final
check_final false event level exclude = pure tt
check_final true event level exclude = check_no_other_final event level exclude

-- Service.CreateRound
unfoldable pub create_round : Text → Input → App Round
unfolding validate check_final
create_round event i = do
  lift (validate i)
  check_final i.is_final event i.level []
  Postgres.Rounds.create (new_round event i)

abbrev pub replaced : Round → Input → ℕ → Round
replaced r i updated = record r {
  round_order = i.round_order;
  round_name = trim_space i.round_name;
  start_at = i.start_at;
  duration_minutes = i.duration_minutes;
  is_final = i.is_final;
  level = i.level;
  updated_at = updated;
}

-- Service.UpdateRound
unfoldable pub update_round : Text → Input → App Round
unfolding validate check_final
update_round id i = do
  lift (validate i)
  existing ← Postgres.Rounds.find_by_id id
  check_final i.is_final existing.event_id i.level existing.id
  updated ← Postgres.Rounds.update_by_id existing.id (new_round existing.event_id i)
  pure (replaced existing i updated)

-- Service.DeleteRound
unfoldable pub delete_round : Text → App Unit
delete_round id = Postgres.Rounds.delete id

-- Service.ListRoundsByEvent
unfoldable pub list_rounds_by_event : Text → App (List Round)
list_rounds_by_event event = Postgres.Rounds.list_by_event event

-- `usr.Level == nil || *usr.Level != level` is its negation.
abbrev pub is_level : Option Text → Text → Bool
is_level none level = false
is_level (some l) level = l == level

abbrev of_level : Option Text → List Round → List Round
of_level none rs = rs
of_level (some l) rs = filter (λ r. r.level == l) rs

abbrev pub of_caller : Text → List Round → App (List Round)
of_caller [] rs = pure rs
of_caller (c ∷ user) rs = do
  usr ← Postgres.Users.find_by_id (c ∷ user)
  pure (of_level usr.level rs)

-- Service.ListRoundsByEventForCaller
unfoldable pub list_rounds_by_event_for_caller : Text → Text → App (List Round)
list_rounds_by_event_for_caller event caller = do
  rs ← Postgres.Rounds.list_by_event event
  of_caller caller rs

-- Service.StartRound
unfoldable pub start_round : Text → App Round
start_round id = do Postgres.Rounds.set_status id upcoming ongoing; Postgres.Rounds.find_by_id id

-- Service.EndRound
unfoldable pub end_round : Text → App Round
end_round id = do Postgres.Rounds.set_status id ongoing ended; Postgres.Rounds.find_by_id id
