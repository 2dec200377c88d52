-- ===== src/Rounds/Decisions.antt =====
-- internal/app/rounds/service.go: GetCandidates and SetParticipants.
use olympiad_next.Prelude.{
  ℕ, ℤ, Bool, true, false, not, Option, none, some, List, [], ◌∷◌, ◌++◌, map, any, length, ◌==◌,
  int_eq, is_positive, pred_ℤ, if◌then◌else◌,
}
use olympiad_next.Text.{Text, text_eq, lit}
use olympiad_next.Text.Trim.{trim_space}
use olympiad_next.Text.Decimal.{show}
use olympiad_next.Errors.{Error, of_round, RoundError, rounds_validation, Result, ok, err}
use olympiad_next.Domain.Registration.{approved}
use olympiad_next.Domain.Round.{
  Round, Participant, qualified, is_valid, is_winner, is_ended, status_text,
}
use olympiad_next.Store.{App, pure, lift, attempt, require, ◌>>=◌, ◌>>◌}
use olympiad_next.Postgres
use olympiad_next.Postgres.Details.{Detail}
use olympiad_next.Postgres.Participants.{Decided, ParticipantDetail}
use olympiad_next.Rounds.{Candidate, ParticipantDecision}
use olympiad_next.Rounds.Entry.{is_first, round_or_none}

-- maxCandidateList
abbrev pub max_candidate_list : ℕ
max_candidate_list = 5000

abbrev pub of_detail : Detail → Candidate
of_detail d = record {
  user_id = d.user_id;
  full_name = d.student_name;
  email = d.student_email;
  existing_status = none;
  existing_rank = none;
}

abbrev pub of_participant_detail : ParticipantDetail → Candidate
of_participant_detail d = record {
  user_id = d.user_id;
  full_name = d.student_name;
  email = d.student_email;
  existing_status = none;
  existing_rank = none;
}

-- The qualified students of the previous round, if there is one.
unfoldable pub of_previous_round : Option Round → App (List Candidate)
of_previous_round none = pure []
of_previous_round (some prev) = do
  details ← Postgres.Participants.list_participants_with_user prev.id qualified
  pure (map of_participant_detail details)

unfoldable pub pool : Round → App (List Candidate)
unfolding of_previous_round round_or_none
pool r =
    if is_first r
    then (do
      regs ← Postgres.Details.list_by_status approved r.event_id max_candidate_list
      pure (map of_detail regs))
    else (do
      found ←
          attempt
            (Postgres.Rounds.find_by_event_and_order r.event_id r.level (pred_ℤ r.round_order))
      prev ← lift (round_or_none found)
      of_previous_round prev)

-- existingByUser: a later decision takes the place of an earlier one.
unfoldable pub existing_by_user : List Participant → Text → Option Participant
existing_by_user [] user = none
existing_by_user (p ∷ ps) user = elim (existing_by_user ps user) [
  | some q ↦ some q
  | none ↦ if p.user_id == user then some p else none
]

abbrev pub ticked : Candidate → Option Participant → Candidate
ticked c none = c
ticked c (some p) = record c {
  existing_status = some (status_text p.status);
  existing_rank = p.rank;
}

-- Service.GetCandidates
unfoldable pub get_candidates : Text → App (List Candidate)
unfolding pool existing_by_user status_text
get_candidates id = do
  r ← Postgres.Rounds.find_by_id id
  require (is_ended r.status) (of_round RoundError.not_ended)
  candidates ← pool r
  existing ← Postgres.Participants.list_participants_by_round id
  pure (map (λ c. ticked c (existing_by_user existing c.user_id)) candidates)

abbrev message_rank_taken : ℤ → Text
message_rank_taken k =
    lit "rank " ++ show k ++ lit " is assigned to more than one participant in this request"

abbrev pub rank_required : Error
rank_required =
    rounds_validation (lit "rank is required and must be a positive integer for a winner decision")

-- The rank of a winner, given the ranks that the request has used so far.
unfoldable pub check_winner : Bool → List ℤ → Option ℤ → Result ℤ
check_winner is_final seen rank =
    if not is_final
    then err (rounds_validation (lit "winner status is only allowed on the final round"))
    else elim rank [
      | none ↦ err rank_required
      | some k ↦
          if not (is_positive k)
          then err rank_required
          else if any (λ j. j == k) seen
          then err (rounds_validation (message_rank_taken k))
          else ok k
    ]

-- The checks on one decision; the result is the ranks that the request has used then.
unfoldable pub check_decision : Bool → List ℤ → ParticipantDecision → Result (List ℤ)
unfolding is_valid check_winner
check_decision is_final seen d =
    if trim_space d.user_id == []
    then err (rounds_validation (lit "user_id is required"))
    else if not (is_valid d.status)
    then err (rounds_validation (lit "status must be one of qualified, eliminated, winner"))
    else if is_winner d.status
    then elim (check_winner is_final seen d.rank) [ err e ↦ err e | ok k ↦ ok (k ∷ seen) ]
    else elim d.rank [
      | none ↦ ok seen
      | some _ ↦ err (rounds_validation (lit "rank is only accepted for a winner decision"))
    ]

abbrev pub of_decision : ParticipantDecision → Decided
of_decision d = record { user_id = trim_space d.user_id; status = d.status; rank = d.rank }

-- The loop of SetParticipants.
unfoldable pub check_decisions : Bool → List ℤ → List ParticipantDecision → Result (List Decided)
unfolding check_decision
check_decisions is_final seen [] = ok []
check_decisions is_final seen (d ∷ ds) = elim (check_decision is_final seen d) [
  | err e ↦ err e
  | ok seen' ↦ elim (check_decisions is_final seen' ds) [
    | err e ↦ err e
    | ok rest ↦ ok (of_decision d ∷ rest)
  ]
]

abbrev is_empty : List ParticipantDecision → Bool
is_empty [] = true
is_empty (_ ∷ _) = false

-- Service.SetParticipants
unfoldable pub set_participants : Text → List ParticipantDecision → App ℕ
unfolding check_decisions
set_participants id decisions = do
  r ← Postgres.Rounds.find_by_id id
  require (is_ended r.status) (of_round RoundError.not_ended)
  require (not (is_empty decisions))
      (rounds_validation (lit "at least one participant decision is required"))
  participants ← lift (check_decisions r.is_final [] decisions)
  Postgres.Participants.upsert_participants id participants
  pure (length participants)
