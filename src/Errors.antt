-- ===== src/Errors.antt =====
-- The sentinel errors, package by package. Wrapping by `%w` keeps what errors.Is finds, so a wrapped
-- error is its sentinel; an error without a sentinel is `internal`.
use olympiad_next.Prelude.{Bool, true, false, ◌≡◌, refl, ◌⊎◌, inl, inr}
use olympiad_next.Text.{Text}

-- internal/domain/user/errors.go
pub data UserError : Type 0 where
  not_found email_taken google_id_taken : UserError

-- internal/domain/registration/errors.go
pub data RegistrationError : Type 0 where
  not_found already_registered duplicate_transaction_id already_reviewed : RegistrationError
  invalid_unreject_transition not_approved : RegistrationError

-- internal/domain/round/errors.go
pub data RoundError : Type 0 where
  not_found participant_not_found duplicate_order invalid_transition not_ended : RoundError
  duplicate_final duplicate_rank : RoundError

-- The errors of internal/app/registrations; `validation` carries its message.
pub data RegistrationsError : Type 0 where
  validation : Text → RegistrationsError
  event_not_found event_not_active : RegistrationsError

-- The errors of internal/auth and of its packages email and google, and of internal/domain/token.
pub data AuthError : Type 0 where
  invalid_credentials google_only_account email_not_verified session_expired invalid_otp : AuthError
  admin_access_required invalid_email weak_password invalid_token duplicate_token_hash : AuthError

-- The errors of internal/app/notify; `validation` carries its message.
pub data NotifyError : Type 0 where
  validation : Text → NotifyError
  invalid_otp no_pending_phone : NotifyError

-- `event_not_found` is event.ErrNotFound, `prize_not_found` is prize.ErrNotFound, `notice_not_found` is
-- notice.ErrNotFound, `no_rows` is sql.ErrNoRows, and each validation carries the message of its
-- package's ErrValidation.
pub data Error : Type 0 where
  internal event_not_found prize_not_found notice_not_found no_rows : Error
  of_user : UserError → Error
  of_registration : RegistrationError → Error
  of_round : RoundError → Error
  of_registrations : RegistrationsError → Error
  of_auth : AuthError → Error
  of_notify : NotifyError → Error
  rounds_validation prizes_validation events_validation notices_validation : Text → Error

-- errors.Is(err, user.ErrNotFound)
abbrev pub is_user_not_found : Error → Bool
is_user_not_found (of_user UserError.not_found) = true
is_user_not_found _ = false

pub data Result {ℓ} (A : Type ℓ) : Type ℓ where
  ok : A → Result A
  err : Error → Result A

pub Result-cases {ℓ} :
    {A : Type ℓ} (r : Result A) → ((e : Error) × (r ≡ err e)) ⊎ ((a : A) × (r ≡ ok a))
Result-cases (ok a) = inr (a, refl)
Result-cases (err e) = inl (e, refl)
