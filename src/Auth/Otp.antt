-- ===== src/Auth/Otp.antt =====
-- internal/auth/service.go: the codes that verify an e-mail address.
use olympiad_next.Prelude.{
  ℕ, zero, suc, Bool, false, ◌&&◌, Option, none, some, [], ◌∷◌, ◌+◌, ◌*◌, ◌==◌, ltb, if◌then◌else◌,
}
use olympiad_next.Text.{Text, text_eq}
use olympiad_next.Errors.{Error, internal, of_auth, AuthError, is_user_not_found, Result, ok, err}
use olympiad_next.Domain.User.{User}
use olympiad_next.Domain.Message.{otp_mail, Delivery, sent, delivery_failed}
use olympiad_next.Store.{App, pure, raise, lift, attempt, require, clock, ◌>>=◌, ◌>>◌, on_result}
use olympiad_next.Postgres
use olympiad_next.Auth.Outside.{Outside, or_internal, moment, post}

-- otpTTL, five minutes in nanoseconds.
abbrev pub otp_ttl : ℕ
otp_ttl = 5 * 60000000000

-- otpCodeLength
abbrev pub otp_code_length : ℕ
otp_code_length = 6

-- otpCodeDigits[n], for a number below ten.
abbrev pub digit : ℕ → ℕ
digit n = 48 + n

abbrev pub invalid : Error
invalid = of_auth AuthError.invalid_otp

-- The error of SendOTP, where one of delivery is only logged.
abbrev pub of_mail : Delivery → Result (Unit {0})
of_mail sent = ok tt
of_mail delivery_failed = ok tt
of_mail _ = err internal

-- The code that is stored and has not expired.
abbrev pub accepts : ℕ → Text → Option Text → Option ℕ → Bool
accepts now code none _ = false
accepts now code (some _) none = false
accepts now code (some stored) (some expires) = stored == code && ltb now expires

module _ (o : Outside) where
  -- The loop of generateOTPCode over the last `n` of the indices from `i` on.
  unfoldable pub draw : ℕ → ℕ → ℕ → Option Text
  draw step i zero = some []
  draw step i (suc n) =
      let rest = draw step (i + 1) n in
      elim (o.random_digit step i) [
        | none ↦ none
        | some d ↦ elim rest [ none ↦ none | some s ↦ some (digit d ∷ s) ]
      ]

  -- generateOTPCode
  unfoldable pub generate_otp_code : App Text
  unfolding draw
  generate_otp_code = do step ← moment; lift (or_internal (draw step 0 otp_code_length))

  -- Service.issueEmailOTP
  unfoldable pub issue_email_otp : Text → Text → App Unit
  unfolding generate_otp_code
  issue_email_otp user to_email = do
    code ← generate_otp_code
    now ← clock
    Postgres.Users.Changes.set_email_otp user code (now + otp_ttl)
    answer ← post o (otp_mail to_email code)
    lift (of_mail answer)

  -- Service.VerifyEmailOTP, at an account that is found.
  unfoldable pub verify_found : User → Text → App Unit
  verify_found u code = if u.email_verified then pure tt else do
    now ← clock
    require (accepts now code u.email_otp u.email_otp_expiry) invalid
    Postgres.Users.Changes.mark_email_verified u.id

  -- Service.VerifyEmailOTP
  unfoldable pub verify_email_otp : Text → Text → App Unit
  unfolding verify_found
  verify_email_otp raw_email code = do
    found ← attempt (Postgres.Users.find_by_email o.lower raw_email)
    on_result found (λ e. raise (if is_user_not_found e then invalid else e))
        λ u. verify_found u code

  -- Service.ResendEmailOTP
  unfoldable pub resend_email_otp : Text → App Unit
  unfolding issue_email_otp
  resend_email_otp raw_email = do
    found ← attempt (Postgres.Users.find_by_email o.lower raw_email)
    on_result found (λ e. if is_user_not_found e then pure tt else raise e)
        λ u. if u.email_verified then pure tt else issue_email_otp u.id u.email
