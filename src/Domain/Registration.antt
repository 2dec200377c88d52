-- ===== src/Domain/Registration.antt =====
-- internal/domain/registration: a student's payment submission for an event.
use olympiad_next.Prelude.{ℕ, Bool, true, false, Option, ◌==◌, if◌then◌else◌}
use olympiad_next.Text.{Text, text_eq, lit}

pub data PaymentMethod : Type 0 where
  bkash nagad : PaymentMethod
  other : Text → PaymentMethod

-- The conversion `PaymentMethod(s)`.
unfoldable pub payment_method : Text → PaymentMethod
payment_method s =
    if s == lit "bkash" then bkash else if s == lit "nagad" then nagad else PaymentMethod.other s

-- PaymentMethod.Valid
unfoldable pub is_valid_method : PaymentMethod → Bool
is_valid_method bkash = true
is_valid_method nagad = true
is_valid_method (PaymentMethod.other _) = false

pub data Status : Type 0 where
  pending approved rejected : Status
  other : Text → Status

-- The conversion `string(s)`.
unfoldable pub status_text : Status → Text
status_text pending = lit "pending"
status_text approved = lit "approved"
status_text rejected = lit "rejected"
status_text (Status.other s) = s

-- Status.Valid
unfoldable pub is_valid : Status → Bool
is_valid (Status.other _) = false
is_valid _ = true

-- Status.CanUnreject
unfoldable pub can_unreject : Status → Bool
can_unreject rejected = true
can_unreject _ = false

abbrev pub is_pending : Status → Bool
is_pending pending = true
is_pending _ = false

abbrev pub is_approved : Status → Bool
is_approved approved = true
is_approved _ = false

abbrev pub is_rejected : Status → Bool
is_rejected rejected = true
is_rejected _ = false

pub record Registration : Type 0 where
  pub id : Text
  pub user_id : Text
  pub event_id : Text
  pub payment_method : PaymentMethod
  pub sender_number : Text
  pub transaction_id : Text
  pub status : Status
  pub reviewed_by : Option Text
  pub reviewed_at : Option ℕ
  pub admit_card_url : Option Text
  pub admit_card_uploaded_at : Option ℕ
  pub created_at : ℕ
  pub updated_at : ℕ
