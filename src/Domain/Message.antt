-- ===== src/Domain/Message.antt =====
-- internal/domain/email and internal/domain/sms: what is handed to a sender, and what it answers.
use olympiad_next.Text.{Text}

-- The calls email.Sender.SendOTP and Send, and sms.Sender.SendOTP and Send, with their arguments.
pub data Message : Type 0 where
  otp_mail otp_sms sms : Text → Text → Message
  mail : Text → Text → Text → Message

-- The error of a sender: none, one that wraps ErrDeliveryFailed or ErrNotConfigured, or another.
pub data Delivery : Type 0 where
  sent delivery_failed not_configured broken : Delivery
