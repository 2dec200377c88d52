-- ===== src/Domain/Device.antt =====
-- internal/domain/device: a device that an account has logged in from.
use olympiad_next.Prelude.{ℕ}
use olympiad_next.Text.{Text}

pub record Device : Type 0 where
  pub id : Text
  pub user_id : Text
  pub device_fingerprint : Text
  pub last_login_at : ℕ
  pub created_at : ℕ
