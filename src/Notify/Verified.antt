-- ===== src/Notify/Verified.antt =====
-- From the choice of a phone to the verified number.
use olympiad_next.Prelude.{
  ℕ, suc, ◌≡◌, ◌<◌, ◌+◌, refl, inl, inr, ap, ◌∙◌, true, false, some, none, ◌∷◌, find, any, arith,
  ==_refl, find-any, find-passes,
}
use olympiad_next.Text.{Text, text_eq, eq_text, lit}
use olympiad_next.Text.Trim.{trim_space}
use olympiad_next.Text.Case.{to_lower}
use olympiad_next.Phone.{normalize_sender_number}
use olympiad_next.Errors.{ok, Result-cases}
use olympiad_next.Domain.User.{User, phone}
use olympiad_next.Domain.Message.{otp_sms}
use olympiad_next.Store.{App, World, healthy, lift, require, query, exec, clock, pure, ◌>>=◌}
use olympiad_next.Store.Rows.{update, find-update}
use olympiad_next.Postgres.Users.{by_id, find_by_id}
use olympiad_next.Postgres.Users.Changed.{change_run}
use olympiad_next.Postgres.Users.Changes.{
  with_phone_otp, with_phone_verified, set_notification_phone_otp, mark_notification_phone_verified,
}
use olympiad_next.Auth.Outside.{Outside, moment, post}
use olympiad_next.Auth.Otp.{draw, generate_otp_code, otp_ttl, accepts}
use olympiad_next.Notify.{set_preference, issue_phone_otp, verify_phone_otp, verify_found}

-- A lookup of an account that is there.
find_run :
    (user : Text) (u : User) (w : World)
    → find (by_id user) w.db.users ≡ some u
    → find_by_id user (healthy w) ≡ (ok u, record (healthy w) { step = suc w.step })
unfolding find_by_id query exec
find_run user u w found = rw found refl

-- An answer that is added at the end changes no world.
answer-left : {A B : Type 0} (m : App A) (b : B) (w : World) → ((m >>= λ _. pure b) w).1 ≡ (m w).1
unfolding pure ◌>>=◌
answer-left m b w = elim (Result-cases (m w).0) [
  | inl (e, failed) ↦ rw failed refl
  | inr (a, answered) ↦ rw answered refl
]

module _ (o : Outside) (user number code : Text) where
  -- The world with the number and the code stored and the code handed to the sender.
  abbrev issued : World → World
  issued w = record (healthy w) {
    step = suc w.step;
    db = record (w.db) {
      users = update (by_id user) (with_phone_otp number code (w.now + otp_ttl) w.now) w.db.users;
    };
    outbox = otp_sms number code ∷ w.outbox;
  }

  issue_run :
      (w : World)
      → any (by_id user) w.db.users ≡ true
      → draw o w.step 0 6 ≡ some code
      → (issue_phone_otp o user number (healthy w)).1 ≡ issued w
  unfolding issue_phone_otp generate_otp_code moment lift clock set_notification_phone_otp post
      ◌>>=◌
  issue_run w there drawn =
      rw (drawn, change_run (with_phone_otp number code (w.now + otp_ttl)) user w there) refl

  prefer_run :
      (method raw : Text) (w : World)
      → to_lower (trim_space method) ≡ lit "phone"
      → normalize_sender_number raw ≡ some number
      → (set_preference o user method raw w).1 ≡ (issue_phone_otp o user number w).1
  unfolding set_preference pure ◌>>=◌ lit eq_text
  prefer_run method raw w named good =
      rw (named, good) (answer-left (issue_phone_otp o user number) true w)

  verify_run :
      (u : User) (typed : Text) (w : World)
      → find (by_id user) w.db.users ≡ some u
      → u.notification_phone ≡ some number
      → u.notification_phone_verified ≡ false
      → accepts w.now (trim_space typed) u.notification_phone_otp u.notification_phone_otp_expiry
        ≡ true
      → verify_phone_otp user typed (healthy w) ≡ (
        ok tt,
        record (healthy w) {
          step = suc (suc w.step);
          db = record (w.db) { users = update (by_id user) (with_phone_verified w.now) w.db.users };
        },
      )
  unfolding verify_phone_otp verify_found clock require mark_notification_phone_verified ◌>>=◌
  verify_run u typed w found stored new good =
      let there =
        find-any (by_id user) (by_id user) w.db.users u found
          (find-passes (by_id user) w.db.users u found) in
      rw (find_run user u w found, stored, new, good)
        (change_run with_phone_verified user (record w { step = suc w.step }) there)

  -- A phone is chosen and the code that was sent to it is given back before it expires, with or without
  -- space around it, on a server that runs every statement and whatever became of the SMS: the number, in
  -- its normal form, is verified and the channel of the account, and the code is gone.
  pub set_preference-verify :
      (method raw typed : Text) (u : User) (w : World) (passed : ℕ)
      → to_lower (trim_space method) ≡ lit "phone"
      → normalize_sender_number raw ≡ some number
      → find (by_id user) w.db.users ≡ some u
      → draw o w.step 0 6 ≡ some code
      → trim_space typed ≡ code
      → passed < otp_ttl
      → let w1 = (set_preference o user method raw (healthy w)).1 in
        let r = verify_phone_otp user typed (record w1 { now = w.now + passed }) in
        (r.0 ≡ ok tt)
        × (find (by_id user) r.1.db.users
            ≡ some (record u {
              notification_phone = some number;
              notification_phone_verified = true;
              notification_method = phone;
              notification_phone_otp = none;
              notification_phone_otp_expiry = none;
              updated_at = w.now + passed;
            }))
  set_preference-verify method raw typed u w passed named good found drawn given early =
      let p = by_id user in
      let hit = find-passes p w.db.users u found in
      let first =
        prefer_run method raw (healthy w) named good
        ∙ issue_run w (find-any p p w.db.users u found hit) drawn in
      let w2 = record (issued w) { now = w.now + passed } in
      let u2 = with_phone_otp number code (w.now + otp_ttl) w.now u in
      let found2 : find p w2.db.users ≡ some u2 =
        find-update p p (with_phone_otp number code (w.now + otp_ttl) w.now) w.db.users (λ _. refl)
        ∙ rw (found, hit) refl in
      let fits : accepts w2.now (trim_space typed) u2.notification_phone_otp
            u2.notification_phone_otp_expiry
          ≡ true =
        rw given (ground (arith, ==_refl code)) in
      let second = verify_run u2 typed w2 found2 refl refl fits in
      let found3 =
        find-update p p (with_phone_verified w2.now) w2.db.users (λ _. refl)
        ∙ rw (found2, hit) refl in
      let run =
        ap (λ v. verify_phone_otp user typed (record v { now = w.now + passed })) first ∙ second in
      (ap (λ r. r.0) run, ap (λ r. find p r.1.db.users) run ∙ found3)
