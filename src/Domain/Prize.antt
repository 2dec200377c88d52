-- ===== src/Domain/Prize.antt =====
-- internal/domain/prize: a reward for a range of ranks in the final of an event and level.
use olympiad_next.Prelude.{ℕ, ℤ, Option}
use olympiad_next.Text.{Text}

pub record Prize : Type 0 where
  pub id : Text
  pub event_id : Text
  pub level : Text
  pub rank_from : ℤ
  pub rank_to : ℤ
  pub prize_name : Text
  pub prize_description : Option Text
  pub created_at : ℕ
  pub updated_at : ℕ
