-- ===== src/Domain/Round.antt =====
-- internal/domain/round: a numbered stage of an event, and the decisions taken in it.
use olympiad_next.Prelude.{ℕ, Bool, true, false, Option, ℤ}
use olympiad_next.Text.{Text, lit}

-- Every Status that the code passes on is one of its three constants, as the table's CHECK demands.
pub data Status : Type 0 where
  upcoming ongoing ended : Status

abbrev pub is_ongoing : Status → Bool
is_ongoing ongoing = true
is_ongoing _ = false

-- `a == b`
abbrev pub same_status : Status → Status → Bool
same_status upcoming upcoming = true
same_status ongoing ongoing = true
same_status ended ended = true
same_status _ _ = false

abbrev pub is_ended : Status → Bool
is_ended ended = true
is_ended _ = false

pub data ParticipantStatus : Type 0 where
  qualified eliminated winner : ParticipantStatus
  other : Text → ParticipantStatus

-- ParticipantStatus.Valid
unfoldable pub is_valid : ParticipantStatus → Bool
is_valid (ParticipantStatus.other _) = false
is_valid _ = true

-- The conversion `string(s)`.
unfoldable pub status_text : ParticipantStatus → Text
status_text qualified = lit "qualified"
status_text eliminated = lit "eliminated"
status_text winner = lit "winner"
status_text (ParticipantStatus.other s) = s

abbrev pub is_winner : ParticipantStatus → Bool
is_winner winner = true
is_winner _ = false

abbrev pub is_qualified : ParticipantStatus → Bool
is_qualified qualified = true
is_qualified _ = false

pub record Round : Type 0 where
  pub id : Text
  pub event_id : Text
  pub round_order : ℤ
  pub round_name : Text
  pub start_at : ℕ
  pub duration_minutes : ℤ
  pub status : Status
  pub is_final : Bool
  pub level : Text
  pub created_at : ℕ
  pub updated_at : ℕ

pub record Participant : Type 0 where
  pub id : Text
  pub round_id : Text
  pub user_id : Text
  pub status : ParticipantStatus
  pub rank : Option ℤ
  pub decided_at : ℕ
