-- ===== src/Http/CardTests.antt =====
-- The theorem on admit cards at a student with a verified phone.
use olympiad_next.Prelude.{◌≡◌, refl, true, some, [], ◌∷◌, find}
use olympiad_next.Text.{Text, codes, eq_text}
use olympiad_next.Text.Trim.{trim_space}
use olympiad_next.Domain.User.{User, phone}
use olympiad_next.Domain.Registration.{Registration, is_approved}
use olympiad_next.Store.{World, exec, query, pure, attempt, on_result, ◌>>=◌}
use olympiad_next.Store.Rows.{count, update}
use olympiad_next.Postgres
use olympiad_next.Postgres.Registrations.{
  by_id, find_by_id, set_admit_card, update_registrations, guarded,
}
use olympiad_next.Registrations.{get, attach_admit_card}
use olympiad_next.Auth.Outside.{post}
use olympiad_next.Auth.Sample.{outside, a_user}
use olympiad_next.Notify.{notify_admit_card_ready}
use olympiad_next.Http.{done, answer, call}
use olympiad_next.Http.Registrations.{Received, stored, attach_and_notify, upload_admit_card}
use olympiad_next.Http.Cards.{Tells, upload_admit_card-Tells}
use olympiad_next.Fixtures.{an_approval, no_tables, world}

abbrev a_reader : User
a_reader = record a_user {
  notification_method = phone;
  notification_phone = some (codes "01712345678");
  notification_phone_verified = true;
}

abbrev w0 : World
w0 = world (record no_tables { users = a_reader ∷ []; registrations = an_approval ∷ [] }) 5

abbrev received : Text → Received
received user = stored (codes "/uploads/admit-cards/u/1.pdf")

uploaded :
    (upload_admit_card outside received (codes "a") w0).0
    ≡ done 201 (codes "a", codes "/uploads/admit-cards/u/1.pdf")
unfolding upload_admit_card get find_by_id attach_and_notify attach_admit_card set_admit_card
    update_registrations guarded Postgres.Events.find_by_id notify_admit_card_ready
    Postgres.Users.find_by_id post call answer exec query pure attempt on_result ◌>>=◌ find count
    update trim_space eq_text
uploaded = refl

upload_admit_card-Tells_example :
    (reg : Registration) × (find (by_id (trim_space (trim_space (codes "a")))) w0.db.registrations
      ≡ some reg)
    × (is_approved reg.status ≡ true)
    × (received reg.user_id ≡ stored (codes "/uploads/admit-cards/u/1.pdf"))
    × Tells outside received w0 reg (upload_admit_card outside received (codes "a") w0).1
upload_admit_card-Tells_example =
    upload_admit_card-Tells outside received (codes "a") w0 201
      (codes "a", codes "/uploads/admit-cards/u/1.pdf") uploaded
