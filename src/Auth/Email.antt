-- ===== src/Auth/Email.antt =====
-- internal/auth/email: addresses and passwords.
use olympiad_next.Prelude.{ℕ, Bool, ltb, if◌then◌else◌}
use olympiad_next.Text.{Text, byte_length}
use olympiad_next.Errors.{of_auth, AuthError, Result, ok, err}
use olympiad_next.Store.{App, lift, ◌>>=◌}
use olympiad_next.Auth.Outside.{Outside, or_internal, moment}

-- minPasswordLength
abbrev pub min_password_length : ℕ
min_password_length = 8

-- ValidatePasswordStrength
unfoldable pub validate_password_strength : Text → Result (Unit {0})
unfolding byte_length
validate_password_strength plain =
    if ltb (byte_length plain) min_password_length
    then err (of_auth AuthError.weak_password)
    else ok tt

module _ (o : Outside) where
  -- ValidateEmail
  unfoldable pub validate_email : Text → Result (Unit {0})
  validate_email raw = if o.parses_address raw then ok tt else err (of_auth AuthError.invalid_email)

  -- HashPassword
  unfoldable pub hash_password : Text → App Text
  hash_password plain = do step ← moment; lift (or_internal (o.bcrypt step plain))

  -- VerifyPassword
  unfoldable pub verify_password : Text → Text → Bool
  verify_password hash plain = o.bcrypt_matches hash plain
