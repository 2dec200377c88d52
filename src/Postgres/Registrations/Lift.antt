-- ===== src/Postgres/Registrations/Lift.antt =====
-- What the four writing statements keep of the tables, the methods around them keep.
use olympiad_next.Prelude.{ℕ, zero, suc, ◌≡◌, false}
use olympiad_next.Text.{Text}
use olympiad_next.Errors.{RegistrationError}
use olympiad_next.Domain.Registration.{Status, is_pending}
use olympiad_next.Store.{Tables, App}
use olympiad_next.Store.Keeps.{Keeps, StmtKeeps, keeps_rules, Keeps-exec, Keeps-bind, Keeps-pure}
use olympiad_next.Postgres.Registrations.{
  NewRegistration, insert_registration, create, update_registrations, rejected_row, unrejected_row,
  approved_row, carded_row, review_stmt, review, unreject, set_admit_card, explain, guarded,
}

-- `Format` is what a caller of Create has checked of the sender's number and the transaction id.
pub record StatementsKeep (Format : Text → Text → Type 0) (P : Tables → Type 0) : Type 0 where
  pub inserts :
      (n : NewRegistration)
      → Format n.sender_number n.transaction_id
      → StmtKeeps P (insert_registration n)
  pub reviews :
      (id by : Text) (status : Status)
      → is_pending status ≡ false
      → StmtKeeps P (review_stmt id by status)
  pub unrejects : (id : Text) → StmtKeeps P (update_registrations (rejected_row id) unrejected_row)
  pub cards :
      (id url : Text) → StmtKeeps P (update_registrations (approved_row id) (carded_row url))

module _ {P : Tables → Type 0} where
  explain-Keeps : (id : Text) (e : RegistrationError) → Keeps P (explain id e)
  unfolding explain
  explain-Keeps id e = search keeps_rules

  guarded-Keeps : (n : ℕ) (m : App Unit) → Keeps P m → Keeps P (guarded n m)
  unfolding guarded
  guarded-Keeps zero m k = k
  guarded-Keeps (suc n) m k = Keeps-pure tt

  pub create-Keeps :
      (n : NewRegistration) → StmtKeeps P (insert_registration n) → Keeps P (create n)
  unfolding create
  create-Keeps n kept = Keeps-exec _ kept

  pub review-Keeps :
      (id by : Text) (status : Status)
      → StmtKeeps P (review_stmt id by status)
      → Keeps P (review id by status)
  unfolding review
  review-Keeps id by status kept =
      Keeps-bind _ _ (Keeps-exec _ kept) (λ rows. guarded-Keeps rows _ (explain-Keeps id _))

  pub unreject-Keeps :
      (id : Text)
      → StmtKeeps P (update_registrations (rejected_row id) unrejected_row)
      → Keeps P (unreject id)
  unfolding unreject
  unreject-Keeps id kept =
      Keeps-bind _ _ (Keeps-exec _ kept) (λ rows. guarded-Keeps rows _ (explain-Keeps id _))

  pub set_admit_card-Keeps :
      (id url : Text)
      → StmtKeeps P (update_registrations (approved_row id) (carded_row url))
      → Keeps P (set_admit_card id url)
  unfolding set_admit_card
  set_admit_card-Keeps id url kept =
      Keeps-bind _ _ (Keeps-exec _ kept) (λ rows. guarded-Keeps rows _ (explain-Keeps id _))
