-- ===== src/Rounds/Entry.antt =====
-- internal/app/rounds/service.go: isEligibleForRound, EnterRound and YourStatus.
use olympiad_next.Prelude.{
  ℕ, ℤ, pos, ◌+◌, ◌*◌, ◌-◌, ◌^◌, ◌%◌, Bool, true, false, not, ◌&&◌, Option, none, some, [], ◌++◌,
  ◌==◌, int_eq, ltb, pred_ℤ, to_u64, if◌then◌else◌,
}
use olympiad_next.Text.{Text, lit}
use olympiad_next.Errors.{of_round, RoundError, Result, ok, err}
use olympiad_next.Domain.User.{User, is_verified}
use olympiad_next.Domain.Round.{Round, Participant, is_qualified, is_ongoing, is_ended, status_text}
use olympiad_next.Store.{App, pure, lift, attempt, clock, ◌>>=◌}
use olympiad_next.Postgres
use olympiad_next.Rounds.{is_level}

abbrev pub is_first : Round → Bool
is_first r = r.round_order == pos 1

-- The two answers of isEligibleForRound.
pub record Eligibility : Type 0 where
  pub eligible : Bool
  pub prior_decided : Bool

abbrev pub ineligible : Eligibility
ineligible = record { eligible = false; prior_decided = false }

-- `errors.Is(err, round.ErrNotFound)` is told from the other errors.
unfoldable pub round_or_none : Result Round → Result (Option Round)
round_or_none (ok r) = ok (some r)
round_or_none (err (of_round RoundError.not_found)) = ok none
round_or_none (err e) = err e

-- The same of round.ErrParticipantNotFound.
unfoldable pub participant_or_none : Result Participant → Result (Option Participant)
participant_or_none (ok p) = ok (some p)
participant_or_none (err (of_round RoundError.participant_not_found)) = ok none
participant_or_none (err e) = err e

abbrev pub of_participant : Option Participant → Eligibility
of_participant none = ineligible
of_participant (some p) = record { eligible = is_qualified p.status; prior_decided = true }

unfoldable pub of_previous : Text → Option Round → App Eligibility
unfolding participant_or_none
of_previous user none = pure ineligible
of_previous user (some prev) = do
  found ← attempt (Postgres.Participants.get_participant prev.id user)
  p ← lift (participant_or_none found)
  pure (of_participant p)

abbrev pub is_admissible : User → Round → Bool
is_admissible usr r = is_level usr.level r.level && is_verified usr.verification_status

unfoldable pub by_registration : Text → Round → App Eligibility
by_registration user r = do
  approved ← Postgres.Registrations.exists_approved_for_user_event user r.event_id
  pure (record { eligible = approved; prior_decided = false })

unfoldable pub by_previous : Text → Round → App Eligibility
unfolding round_or_none of_previous
by_previous user r = do
  found ←
      attempt (Postgres.Rounds.find_by_event_and_order r.event_id r.level (pred_ℤ r.round_order))
  prev ← lift (round_or_none found)
  of_previous user prev

-- Service.isEligibleForRound
unfoldable pub is_eligible_for_round : Text → Round → App Eligibility
unfolding by_registration by_previous
is_eligible_for_round user r = do
  usr ← Postgres.Users.find_by_id user
  if not (is_admissible usr r)
      then pure ineligible
      else if is_first r
      then by_registration user r
      else by_previous user r

-- `time.Duration(minutes) * time.Minute`, as its 64-bit pattern.
abbrev pub duration : ℤ → ℕ
duration minutes = to_u64 minutes * (60 * 10 ^ 9) % 2 ^ 64

-- `now.Before(t.Add(d))` of a duration as its pattern; one with the top bit set is negative.
abbrev pub before_add : ℕ → ℕ → ℕ → Bool
before_add now t d = if ltb d (2 ^ 63) then ltb now (t + d) else ltb (now + (2 ^ 64 - d)) t

abbrev pub no_registration : Text
no_registration = lit "no active registration for this event"

abbrev pub not_qualified : Text
not_qualified = lit "not qualified from the previous round"

-- The answer once the eligibility is known.
unfoldable pub gate : Round → Eligibility → Bool × Text
gate r e =
    if e.eligible
    then (true, [])
    else (false, if is_first r then no_registration else not_qualified)

-- The reason for which the round is closed to the student at the time `now`, if there is one.
unfoldable pub closed : Round → User → ℕ → Option Text
closed r usr now =
    if not (is_level usr.level r.level)
    then some (lit "this round is only open to " ++ r.level ++ lit " students")
    else if not (is_verified usr.verification_status)
    then some (lit "your identity verification is still under review")
    else if not (is_ongoing r.status)
    then some (lit "round is not ongoing")
    else if ltb now r.start_at
    then some (lit "round has not started yet")
    else if not (before_add now r.start_at (duration r.duration_minutes))
    then some (lit "round has ended")
    else none

unfoldable pub admit : Text → Round → Option Text → App (Bool × Text)
unfolding is_eligible_for_round gate
admit user r (some reason) = pure (false, reason)
admit user r none = do e ← is_eligible_for_round user r; pure (gate r e)

-- Service.EnterRound
unfoldable pub enter_round : Text → Text → App (Bool × Text)
unfolding closed admit
enter_round id user = do
  r ← Postgres.Rounds.find_by_id id
  usr ← Postgres.Users.find_by_id user
  now ← clock
  admit user r (closed r usr now)

-- The status of a student without a decision in the round.
unfoldable pub undecided_status : Round → ℕ → Eligibility → Text
undecided_status r now e =
    if not e.eligible
    then if is_first r
      then lit "not_eligible"
      else if e.prior_decided
      then lit "eliminated"
      else lit "waiting"
    else if is_ended r.status
    then lit "eliminated"
    else if is_ongoing r.status && not (ltb now r.start_at)
    then lit "ready"
    else lit "locked"

unfoldable pub status_of : Text → Round → Option Participant → App (Text × Option ℤ)
unfolding is_eligible_for_round undecided_status status_text
status_of user r (some p) = pure (status_text p.status, p.rank)
status_of user r none = do
  e ← is_eligible_for_round user r
  now ← clock
  pure (undecided_status r now e, none)

-- Service.YourStatus
unfoldable pub your_status : Text → Round → App (Text × Option ℤ)
unfolding participant_or_none status_of
your_status user r = do
  found ← attempt (Postgres.Participants.get_participant r.id user)
  p ← lift (participant_or_none found)
  status_of user r p
