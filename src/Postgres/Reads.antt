-- ===== src/Postgres/Reads.antt =====
-- The statements that only read keep every property of the tables.
use olympiad_next.Prelude.{ℕ, ℤ}
use olympiad_next.Text.{Text}
use olympiad_next.Domain.Registration.{Status}
use olympiad_next.Domain.Round.{ParticipantStatus}
use olympiad_next.Store.{Tables}
use olympiad_next.Store.Keeps.{Keeps, Keeps-query, keeps_rules}
use olympiad_next.Postgres

module _ {P : Tables → Type 0} where
  pub user-Keeps : (id : Text) → Keeps P (Postgres.Users.find_by_id id)
  unfolding Postgres.Users.find_by_id
  user-Keeps id = Keeps-query _

  pub event-Keeps : (id : Text) → Keeps P (Postgres.Events.find_by_id id)
  unfolding Postgres.Events.find_by_id
  event-Keeps id = Keeps-query _

  pub registration-Keeps : (id : Text) → Keeps P (Postgres.Registrations.find_by_id id)
  unfolding Postgres.Registrations.find_by_id
  registration-Keeps id = Keeps-query _

  pub exists-Keeps :
      (user event : Text) → Keeps P (Postgres.Registrations.exists_for_user_event user event)
  unfolding Postgres.Registrations.exists_for_user_event
  exists-Keeps user event = Keeps-query _

  pub approved-Keeps :
      (user event : Text)
      → Keeps P (Postgres.Registrations.exists_approved_for_user_event user event)
  unfolding Postgres.Registrations.exists_approved_for_user_event
  approved-Keeps user event = Keeps-query _

  pub pair-Keeps :
      (user event : Text) → Keeps P (Postgres.Registrations.find_by_user_and_event user event)
  unfolding Postgres.Registrations.find_by_user_and_event
  pair-Keeps user event = Keeps-query _

  pub own-Keeps : (user : Text) → Keeps P (Postgres.Details.list_by_user user)
  unfolding Postgres.Details.list_by_user
  own-Keeps user = Keeps-query _

  pub queue-Keeps :
      (s : Status) (event : Text) (n : ℕ) → Keeps P (Postgres.Details.list_by_status s event n)
  unfolding Postgres.Details.list_by_status
  queue-Keeps s event n = Keeps-query _

  pub round-Keeps : (id : Text) → Keeps P (Postgres.Rounds.find_by_id id)
  unfolding Postgres.Rounds.find_by_id
  round-Keeps id = Keeps-query _

  pub place-Keeps :
      (event level : Text) (order : ℤ)
      → Keeps P (Postgres.Rounds.find_by_event_and_order event level order)
  unfolding Postgres.Rounds.find_by_event_and_order
  place-Keeps event level order = Keeps-query _

  pub rounds-Keeps : (event : Text) → Keeps P (Postgres.Rounds.list_by_event event)
  unfolding Postgres.Rounds.list_by_event
  rounds-Keeps event = Keeps-query _

  pub participant-Keeps :
      (round user : Text) → Keeps P (Postgres.Participants.get_participant round user)
  unfolding Postgres.Participants.get_participant
  participant-Keeps round user = Keeps-query _

  pub participants-Keeps :
      (round : Text) → Keeps P (Postgres.Participants.list_participants_by_round round)
  unfolding Postgres.Participants.list_participants_by_round
  participants-Keeps round = Keeps-query _

  pub details-Keeps :
      (round : Text) (s : ParticipantStatus)
      → Keeps P (Postgres.Participants.list_participants_with_user round s)
  unfolding Postgres.Participants.list_participants_with_user
  details-Keeps round s = Keeps-query _

pub ruleset reads = (
  keeps_rules, user-Keeps, event-Keeps, registration-Keeps, exists-Keeps, approved-Keeps,
  pair-Keeps, own-Keeps, queue-Keeps, round-Keeps, place-Keeps, rounds-Keeps, participant-Keeps,
  participants-Keeps, details-Keeps,
)
