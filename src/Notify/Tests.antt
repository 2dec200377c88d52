-- ===== src/Notify/Tests.antt =====
-- The theorems on the channel of notifications at a student's choice of a phone.
use olympiad_next.Prelude.{◌≡◌, refl, true, none, some, find, arith}
use olympiad_next.Text.{codes, lit, eq_text}
use olympiad_next.Text.Trim.{trim_space}
use olympiad_next.Text.Case.{to_lower}
use olympiad_next.Phone.{normalize_sender_number}
use olympiad_next.Errors.{ok}
use olympiad_next.Domain.User.{phone}
use olympiad_next.Store.{healthy}
use olympiad_next.Postgres.Users.{by_id}
use olympiad_next.Auth.Otp.{draw}
use olympiad_next.Auth.Sample.{outside, session, a_user}
use olympiad_next.Notify.{set_preference, verify_phone_otp}
use olympiad_next.Notify.Verified.{set_preference-verify}
use olympiad_next.Fixtures.{user_id}

named : to_lower (trim_space (codes " Phone ")) ≡ lit "phone"
unfolding to_lower trim_space lit
named = refl

normal : normalize_sender_number (codes "+880 1712-345678") ≡ some (codes "01712345678")
unfolding normalize_sender_number trim_space
normal = refl

found_user : find (by_id user_id) session.db.users ≡ some a_user
unfolding find eq_text
found_user = refl

drawn : draw outside 0 0 6 ≡ some (codes "777777")
unfolding draw
drawn = refl

typed : trim_space (codes "777777 ") ≡ codes "777777"
unfolding trim_space
typed = refl

set_preference-verify_example :
    let w1 =
      (set_preference outside user_id
        (codes " Phone ")
        (codes "+880 1712-345678")
        (healthy session)).1 in
    let r = verify_phone_otp user_id (codes "777777 ") (record w1 { now = 15 }) in
    (r.0 ≡ ok tt)
    × (find (by_id user_id) r.1.db.users
        ≡ some (record a_user {
          notification_phone = some (codes "01712345678");
          notification_phone_verified = true;
          notification_method = phone;
          notification_phone_otp = none;
          notification_phone_otp_expiry = none;
          updated_at = 15;
        }))
set_preference-verify_example =
    set_preference-verify outside user_id (codes "01712345678") (codes "777777") (codes " Phone ")
      (codes "+880 1712-345678") (codes "777777 ") a_user session 10 named normal found_user drawn
      typed (omega arith)
