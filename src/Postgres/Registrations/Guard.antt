-- ===== src/Postgres/Registrations/Guard.antt =====
-- A guarded UPDATE on a server that runs every statement: which of its three outcomes it has, by the
-- row with that id.
use mathlib.Core.Option
use olympiad_next.Prelude.{
  ℕ, ◌≡◌, ◌&&◌, Bool, true, false, Option, none, some, List, find, any, arith, ◌≢◌, if◌then◌else◌,
  Option-cases, inl, inr, find-passes,
}
use olympiad_next.Text.{Text, text_eq, eq_text_iff}
use olympiad_next.Errors.{of_registration, RegistrationError, Result, ok, err}
use olympiad_next.Domain.Registration.{Status, Registration}
use olympiad_next.Store.{World, healthy, runs, App, ◌>>=◌, exec, query}
use olympiad_next.Store.Rows.{update, count-eq-zero, count-any, update-none, find-update}
use olympiad_next.Store.Unique.{Distinct, any_unique}
use olympiad_next.Postgres.Registrations.{by_id, update_registrations, explain, guarded, find_by_id}
use olympiad_next.Postgres.Registrations.Valid.{clash}

module _ (id : Text) (g : Status → Bool) (f : ℕ → Registration → Registration)
    (e : RegistrationError) where
  abbrev pub passes : Registration → Bool
  passes r = by_id id r && g r.status

  abbrev pub act : App Unit
  act = exec (update_registrations passes f) >>= λ n. guarded n (explain id e)

  same_key : (x y : Registration) → by_id id x ≡ true → by_id id y ≡ true → clash x y ≡ true
  same_key x y hx hy =
      ground (arith, eq_text_iff x.id id, eq_text_iff y.id id, eq_text_iff x.id y.id)

  -- The answer for the row that is found by the id.
  abbrev pub answer : Option Registration → Result (Unit {0})
  answer none = err (of_registration RegistrationError.not_found)
  answer (some r) = if g r.status then ok tt else err (of_registration e)

  passed :
      (rs : List Registration)
      → Distinct clash rs
      → any passes rs ≡ elim (find (by_id id) rs) [ none ↦ false | some r ↦ g r.status ]
  passed rs d = any_unique clash (by_id id) same_key (λ r. g r.status) rs d

  pub guarded_db :
      (w : World)
      → (act (healthy w)).1.db
        ≡ record (w.db) { registrations = update passes (f w.now) w.db.registrations }
  unfolding ◌>>=◌ exec update_registrations guarded explain query find_by_id
  guarded_db w = ground arith

  pub guarded_fate : (w : World) (n : ℕ) → (act (healthy w)).1.fate n ≡ runs
  unfolding ◌>>=◌ exec update_registrations guarded explain query find_by_id
  guarded_fate w n = ground arith

  pub guarded_answer :
      (w : World)
      → Distinct clash w.db.registrations
      → (act (healthy w)).0 ≡ answer (find (by_id id) w.db.registrations)
  unfolding ◌>>=◌ exec update_registrations guarded explain query find_by_id
  guarded_answer w d = ground (
    arith,
    passed w.db.registrations d,
    count-eq-zero passes w.db.registrations,
    count-any passes w.db.registrations,
    update-none passes (f w.now) w.db.registrations,
  )

  -- The row with the id after the UPDATE.
  pub entry-update_self :
      (now : ℕ) (rs : List Registration)
      → ((r : Registration) → by_id id (f now r) ≡ by_id id r)
      → find (by_id id) (update passes (f now) rs)
        ≡ Option.map (λ r. if g r.status then f now r else r) (find (by_id id) rs)
  entry-update_self now rs keeps = elim (Option-cases (find (by_id id) rs)) [
    | inl absent ↦ ground (arith, find-update (by_id id) passes (f now) rs keeps)
    | inr (r, found) ↦
        ground
          (arith, find-update (by_id id) passes (f now) rs keeps, find-passes (by_id id) rs r found)
  ]

  -- A row with another id is left alone.
  pub entry-update_other :
      (now : ℕ) (rs : List Registration) (j : Text)
      → ((r : Registration) → by_id j (f now r) ≡ by_id j r)
      → j ≢ id
      → find (by_id j) (update passes (f now) rs) ≡ find (by_id j) rs
  entry-update_other now rs j keeps ne = elim (Option-cases (find (by_id j) rs)) [
    | inl absent ↦ ground (arith, find-update (by_id j) passes (f now) rs keeps)
    | inr (r, found) ↦ ground (
      arith,
      find-update (by_id j) passes (f now) rs keeps,
      find-passes (by_id j) rs r found,
      eq_text_iff r.id id,
      eq_text_iff r.id j,
    )
  ]
