-- ===== src/Notify.antt =====
-- internal/app/notify/service.go: the channel of a user's notifications, and the codes that verify a phone.
-- Its normalizePhone and its generateOTPCode are copies of normalizeSenderNumber of the registrations and
-- of generateOTPCode of the auth service.
pub mod Channel
pub mod Verified
pub mod Tests
use olympiad_next.Prelude.{
  ℕ, Bool, true, false, ◌&&◌, Option, none, some, [], ◌++◌, ◌==◌, ◌+◌, if◌then◌else◌,
}
use olympiad_next.Text.{Text, text_eq, lit}
use olympiad_next.Text.Trim.{trim_space}
use olympiad_next.Text.Case.{to_lower}
use olympiad_next.Phone.{normalize_sender_number}
use olympiad_next.Errors.{Error, internal, of_notify, NotifyError, Result, ok, err}
use olympiad_next.Domain.User.{User, NotificationMethod, email, phone}
use olympiad_next.Domain.Message.{
  Message, otp_sms, sms, mail, Delivery, sent, delivery_failed, not_configured,
}
use olympiad_next.Store.{App, pure, raise, lift, attempt, require, clock, ◌>>=◌, ◌>>◌, on_result}
use olympiad_next.Postgres
use olympiad_next.Auth.Outside.{Outside, post}
use olympiad_next.Auth.Otp.{otp_ttl, accepts, generate_otp_code}

abbrev pub invalid : Error
invalid = of_notify NotifyError.invalid_otp

abbrev pub no_pending_phone : Error
no_pending_phone = of_notify NotifyError.no_pending_phone

abbrev pub refusal : Text → Error
refusal message = of_notify (NotifyError.validation message)

abbrev pub is_phone : NotificationMethod → Bool
is_phone email = false
is_phone phone = true

-- The error of SendOTP, where one of delivery or of configuration is only logged.
abbrev pub of_sms : Delivery → Result (Unit {0})
of_sms sent = ok tt
of_sms delivery_failed = ok tt
of_sms not_configured = ok tt
of_sms _ = err internal

-- The title of the event, or a stand-in.
abbrev pub event_name : Text → Text
event_name raw = let event = trim_space raw in if event == [] then lit "your exam" else event

abbrev pub by_mail : User → Text → Message
by_mail u event = mail u.email (lit "Your Shikhor admit card is ready") (
    lit "Your admit card for "
    ++ event
    ++ lit " is ready. Log in to your Shikhor account to download it.")

-- usePhone, with the number.
abbrev pub phone_of : User → Option Text
phone_of u =
    if is_phone u.notification_method && u.notification_phone_verified
    then u.notification_phone
    else none

-- The message that NotifyAdmitCardReady hands to a sender.
unfoldable pub alert : User → Text → Message
alert u event = elim (phone_of u) [
  | none ↦ by_mail u event
  | some number ↦
      sms number
        (lit "Shikhor: your admit card for " ++ event ++ lit " is ready. Log in to download it.")
]

-- What VerifyPhoneOTP does with an account that has a number.
unfoldable pub verify_found : Text → User → Text → App Unit
verify_found user u code =
    if u.notification_phone_verified && is_phone u.notification_method then pure tt else do
      now ← clock
      require
          (accepts now (trim_space code) u.notification_phone_otp u.notification_phone_otp_expiry)
          invalid
      Postgres.Users.Changes.mark_notification_phone_verified user

-- A number is on file, or the answer is ErrNoPendingPhone.
abbrev pub on_file : {A : Type 0} → Option Text → (Text → App A) → App A
on_file none next = raise no_pending_phone
on_file (some number) next = next number

-- Service.VerifyPhoneOTP
unfoldable pub verify_phone_otp : Text → Text → App Unit
unfolding verify_found
verify_phone_otp user code = do
  u ← Postgres.Users.find_by_id user
  on_file u.notification_phone λ _. verify_found user u code

module _ (o : Outside) where
  -- Service.issuePhoneOTP
  unfoldable pub issue_phone_otp : Text → Text → App Unit
  issue_phone_otp user number = do
    code ← generate_otp_code o
    now ← clock
    Postgres.Users.Changes.set_notification_phone_otp user number code (now + otp_ttl)
    answer ← post o (otp_sms number code)
    lift (of_sms answer)

  -- The case of SetPreference for a phone, whose number is good or not.
  abbrev pub prefer_phone : Text → Option Text → App Bool
  prefer_phone user none = raise (refusal (lit "phone must be a valid Bangladeshi mobile number"))
  prefer_phone user (some number) = do issue_phone_otp user number; pure true

  -- Service.SetPreference: whether a verification is pending.
  unfoldable pub set_preference : Text → Text → Text → App Bool
  unfolding issue_phone_otp
  set_preference user method raw_phone =
      let m = to_lower (trim_space method) in
      if m == lit "email"
      then (do Postgres.Users.Changes.set_notification_method user email; pure false)
      else if m == lit "phone"
      then prefer_phone user (normalize_sender_number raw_phone)
      else raise (refusal (lit "method must be 'email' or 'phone'"))

  -- Service.ResendPhoneOTP
  unfoldable pub resend_phone_otp : Text → App Unit
  unfolding issue_phone_otp
  resend_phone_otp user = do
    u ← Postgres.Users.find_by_id user
    on_file u.notification_phone λ number. issue_phone_otp user number

  -- Service.NotifyAdmitCardReady: an error is only logged.
  unfoldable pub notify_admit_card_ready : Text → Text → App Unit
  unfolding alert
  notify_admit_card_ready user title = do
    found ← attempt (Postgres.Users.find_by_id user)
    on_result found (λ _. pure tt) λ u. do _ ← post o (alert u (event_name title)); pure tt
