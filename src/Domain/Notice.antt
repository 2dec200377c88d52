-- ===== src/Domain/Notice.antt =====
-- internal/domain/notice: a short announcement on the notice board, in English and in Bengali.
use olympiad_next.Prelude.{ℕ, ℤ, Bool}
use olympiad_next.Text.{Text}

pub record Notice : Type 0 where
  pub id : Text
  pub text_en : Text
  pub text_bn : Text
  pub display_order : ℤ
  pub is_active : Bool
  pub created_at : ℕ
  pub updated_at : ℕ
