-- ===== src/Domain/Event.antt =====
-- internal/domain/event: an olympiad, with its payment details.
use olympiad_next.Prelude.{ℕ, Bool, ℤ}
use olympiad_next.Text.{Text}

pub record Event : Type 0 where
  pub id : Text
  pub title : Text
  pub description : Text
  pub image_url : Text
  pub event_date : ℕ
  pub is_active : Bool
  pub bkash_number : Text
  pub nagad_number : Text
  pub registration_fee : ℤ
  pub created_at : ℕ
  pub updated_at : ℕ
