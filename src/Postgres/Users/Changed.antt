-- ===== src/Postgres/Users/Changed.antt =====
-- What an UPDATE of an account does to the table, on a server that runs it, and where it succeeds.
use olympiad_next.Prelude.{
  ℕ, zero, suc, ◌≡◌, ◌≢◌, refl, ap, ◌∙◌, some, true, List, any, find, arith, Option-cases, inl, inr,
  find-none_iff, find-passes,
}
use olympiad_next.Text.{Text, text_eq}
use olympiad_next.Errors.{ok}
use olympiad_next.Domain.User.{User}
use olympiad_next.Store.{World, healthy, exec, raise, pure, ◌>>=◌}
use olympiad_next.Store.Rows.{update, count, count-any, count-eq-zero, find-update}
use olympiad_next.Store.Answers.{Ensures, Ensures-bind, exec-ok}
use olympiad_next.Postgres.Users.{by_id, update_users, change_user, check_rows_affected}

-- An UPDATE of a row that is there.
pub change_run :
    (f : ℕ → User → User) (id : Text) (w : World)
    → any (by_id id) w.db.users ≡ true
    → change_user f id (healthy w) ≡ (
      ok tt,
      record (healthy w) {
        step = suc w.step;
        db = record (w.db) { users = update (by_id id) (f w.now) w.db.users };
      },
    )
unfolding change_user update_users check_rows_affected exec pure ◌>>=◌
change_run f id w there = let (k, many) = count-any (by_id id) w.db.users there in rw many refl

module _ (f : ℕ → User → User) (id : Text)
    (keeps : (now : ℕ) (u : User) → by_id id (f now u) ≡ by_id id u) where
  checked :
      (n : ℕ) (w : World)
      → (check_rows_affected n w).0 ≡ ok tt
      → (n ≢ 0) × ((check_rows_affected n w).1 ≡ w)
  unfolding check_rows_affected pure raise
  checked zero w h = cc
  checked (suc n) w h = ((λ e. ground arith), refl)

  found : (us : List User) → count (by_id id) us ≢ 0 → (u : User) × (find (by_id id) us ≡ some u)
  found us some_row = elim (Option-cases (find (by_id id) us)) [
    | inl absent ↦
        absurd (some_row (count-eq-zero (by_id id) us ((find-none_iff (by_id id) us).0 absent)))
    | inr row ↦ row
  ]

  -- The row was there, and is the changed one now.
  pub change_user-Ensures :
      (w : World)
      → Ensures (change_user f id) w (λ _ left.
        (u : User) × (find (by_id id) w.db.users ≡ some u)
        × (find (by_id id) left.db.users ≡ some (f w.now u)))
  unfolding change_user update_users
  change_user-Ensures w = Ensures-bind _ _ w λ n e. record {
    of = λ _ h.
        let (said, ran) = exec-ok (update_users f id) w n e in
        let (some_row, same) = checked n _ h in
        let (u, there) = found w.db.users (λ z. some_row (ground (arith, said, z))) in
        let left =
          ap (λ v. find (by_id id) v.db.users) same ∙ ap (λ r. find (by_id id) r.1.db.users) ran in
        let hit = find-passes (by_id id) w.db.users u there in
        (
          u,
          there,
          left
              ∙ find-update (by_id id) (by_id id) (f w.now) w.db.users (keeps w.now)
              ∙ ground (arith, there, hit),
        );
  }
