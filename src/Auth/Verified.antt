-- ===== src/Auth/Verified.antt =====
-- From the code in an e-mail to the verified address.
use olympiad_next.Prelude.{
  ℕ, suc, ◌≡◌, ◌<◌, ◌+◌, refl, ap, ◌∙◌, true, false, some, none, ◌∷◌, find, any, arith, ==_refl,
  find-any,
}
use olympiad_next.Text.{Text, text_eq}
use olympiad_next.Errors.{ok}
use olympiad_next.Domain.User.{User}
use olympiad_next.Domain.Message.{otp_mail}
use olympiad_next.Store.{
  World, healthy, attempt, lift, require, query, exec, on_result, clock, ◌>>=◌,
}
use olympiad_next.Store.Rows.{update, find-update}
use olympiad_next.Postgres.Users.{by_id, by_email, find_by_email}
use olympiad_next.Postgres.Users.Changed.{change_run}
use olympiad_next.Postgres.Users.Changes.{
  with_email_otp, with_email_verified, set_email_otp, mark_email_verified,
}
use olympiad_next.Auth.Outside.{Outside, moment, post}
use olympiad_next.Auth.Otp.{
  draw, generate_otp_code, otp_ttl, accepts, issue_email_otp, verify_found, verify_email_otp,
}

module _ (o : Outside) where
  find_run :
      (email : Text) (u : User) (w : World)
      → find (by_email o.lower email) w.db.users ≡ some u
      → find_by_email o.lower email (healthy w) ≡ (ok u, record (healthy w) { step = suc w.step })
  unfolding find_by_email query exec
  find_run email u w found = rw found refl

  -- The world with the code stored and handed to the sender.
  abbrev issued : User → Text → Text → World → World
  issued u email code w = record (healthy w) {
    step = suc w.step;
    db = record (w.db) {
      users = update (by_id u.id) (with_email_otp code (w.now + otp_ttl) w.now) w.db.users;
    };
    outbox = otp_mail email code ∷ w.outbox;
  }

  issue_run :
      (u : User) (email code : Text) (w : World)
      → any (by_id u.id) w.db.users ≡ true
      → draw o w.step 0 6 ≡ some code
      → (issue_email_otp o u.id email (healthy w)).1 ≡ issued u email code w
  unfolding issue_email_otp generate_otp_code moment lift clock set_email_otp post ◌>>=◌
  issue_run u email code w there drawn =
      rw (drawn, change_run (with_email_otp code (w.now + otp_ttl)) u.id w there) refl

  verify_run :
      (u : User) (email code : Text) (w : World)
      → find (by_email o.lower email) w.db.users ≡ some u
      → u.email_verified ≡ false
      → accepts w.now code u.email_otp u.email_otp_expiry ≡ true
      → verify_email_otp o email code (healthy w) ≡ (
        ok tt,
        record (healthy w) {
          step = suc (suc w.step);
          db = record (w.db) { users = update (by_id u.id) (with_email_verified w.now) w.db.users };
        },
      )
  unfolding verify_email_otp verify_found attempt clock require on_result mark_email_verified ◌>>=◌
  verify_run u email code w found new good =
      let there =
        find-any (by_email o.lower email) (by_id u.id) w.db.users u found (==_refl u.id) in
      rw (find_run email u w found, new, good)
        (change_run with_email_verified u.id (record w { step = suc w.step }) there)

  -- A code that was sent to an account, given back before it expires, verifies the address, on a server that
  -- runs every statement and whatever became of the e-mail; the code is then gone.
  pub issue-verify :
      (u : User) (email code : Text) (w : World) (passed : ℕ)
      → find (by_email o.lower email) w.db.users ≡ some u
      → u.email_verified ≡ false
      → draw o w.step 0 6 ≡ some code
      → passed < otp_ttl
      → let w1 = (issue_email_otp o u.id email (healthy w)).1 in
        let r = verify_email_otp o email code (record w1 { now = w.now + passed }) in
        (r.0 ≡ ok tt)
        × (find (by_email o.lower email) r.1.db.users
            ≡ some (record u {
              email_verified = true;
              email_otp = none;
              email_otp_expiry = none;
              updated_at = w.now + passed;
            }))
  issue-verify u email code w passed found new drawn early =
      let there =
        find-any (by_email o.lower email) (by_id u.id) w.db.users u found (==_refl u.id) in
      let first = issue_run u email code w there drawn in
      let w2 = record (issued u email code w) { now = w.now + passed } in
      let u2 = with_email_otp code (w.now + otp_ttl) w.now u in
      let found2 : find (by_email o.lower email) w2.db.users ≡ some u2 =
        find-update (by_email o.lower email) (by_id u.id)
          (with_email_otp code (w.now + otp_ttl) w.now) w.db.users (λ _. refl)
        ∙ rw (found, ==_refl u.id) refl in
      let good : accepts w2.now code u2.email_otp u2.email_otp_expiry ≡ true =
        ground (arith, ==_refl code) in
      let second = verify_run u2 email code w2 found2 new good in
      let found3 =
        find-update (by_email o.lower email) (by_id u.id) (with_email_verified w2.now) w2.db.users
          (λ _. refl)
        ∙ rw (found2, ==_refl u.id) refl in
      let run =
        ap (λ v. verify_email_otp o email code (record v { now = w.now + passed })) first
        ∙ second in
      (ap (λ r. r.0) run, ap (λ r. find (by_email o.lower email) r.1.db.users) run ∙ found3)
