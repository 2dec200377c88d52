-- ===== src/Fixtures.antt =====
-- Concrete rows and worlds for the tests.
use olympiad_next.Prelude.{ℕ, pos, true, false, none, some, [], ◌∷◌}
use olympiad_next.Text.{Text, codes}
use olympiad_next.Domain.User.{User, local, student, verified, email}
use olympiad_next.Domain.Event.{Event}
use olympiad_next.Domain.Round.{Round, Status}
use olympiad_next.Domain.Registration.{Registration, bkash, approved}
use olympiad_next.Store.{Tables, World, runs}

abbrev pub user_id : Text
user_id = codes "u"

abbrev pub event_id : Text
event_id = codes "e"

abbrev pub round_id : Text
round_id = codes "r"

abbrev pub a_student : User
a_student = record {
  id = user_id;
  email = codes "u@x";
  full_name = some (codes "U");
  password_hash = none;
  auth_provider = local;
  google_id = none;
  active_device_fingerprint = none;
  role = student;
  email_verified = true;
  email_otp = none;
  email_otp_expiry = none;
  institution_name = none;
  level = some (codes "Junior");
  medium = none;
  profile_picture = none;
  verification_doc = none;
  verification_status = verified;
  notification_method = email;
  notification_phone = none;
  notification_phone_verified = false;
  notification_phone_otp = none;
  notification_phone_otp_expiry = none;
  created_at = 1;
  updated_at = 1;
}

abbrev pub an_event : Event
an_event = record {
  id = event_id;
  title = codes "Math";
  description = [];
  image_url = [];
  event_date = 9;
  is_active = true;
  bkash_number = [];
  nagad_number = [];
  registration_fee = pos 100;
  created_at = 1;
  updated_at = 1;
}

abbrev pub an_approval : Registration
an_approval = record {
  id = codes "a";
  user_id = user_id;
  event_id = event_id;
  payment_method = bkash;
  sender_number = codes "01712345678";
  transaction_id = codes "ABC123";
  status = approved;
  reviewed_by = some (codes "admin");
  reviewed_at = some 2;
  admit_card_url = none;
  admit_card_uploaded_at = none;
  created_at = 1;
  updated_at = 2;
}

-- The first round of the event in the given state, with the given start and duration in minutes.
abbrev pub a_round : Status → ℕ → ℕ → Round
a_round s start minutes = record {
  id = round_id;
  event_id = event_id;
  round_order = pos 1;
  round_name = codes "R";
  start_at = start;
  duration_minutes = pos minutes;
  status = s;
  is_final = true;
  level = codes "Junior";
  created_at = 1;
  updated_at = 1;
}

abbrev pub no_tables : Tables
no_tables = record {
  users = a_student ∷ record a_student { id = codes "v" } ∷ [];
  events = an_event ∷ [];
  registrations = [];
  rounds = [];
  participants = [];
  prizes = [];
  notices = [];
  refresh_tokens = [];
  devices = [];
}

abbrev pub world : Tables → ℕ → World
world db now = record {
  db = db;
  now = now;
  step = 0;
  fate = λ _. runs;
  uuid = λ n. n ∷ [];
  outbox = [];
  spawned = [];
}
