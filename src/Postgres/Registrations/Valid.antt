-- ===== src/Postgres/Registrations/Valid.antt =====
-- The state of the table exam_registrations that every statement keeps.
use olympiad_next.Prelude.{
  ℕ, ◌≡◌, refl, Bool, true, false, ◌||◌, Option, none, some, List, ◌++◌, ◌∷◌, [], any, All,
  All-append, arith, Bool-cases, inl, inr, any-or, ◌∙◌, sym,
}
use olympiad_next.Text.{Text, text_eq}
use olympiad_next.Domain.Registration.{
  Status, approved, Registration, is_valid_method, is_valid, is_pending,
}
use olympiad_next.Store.{Tables}
use olympiad_next.Store.Keeps.{StmtKeeps}
use olympiad_next.Store.Unique.{Distinct, Distinct-insert, Distinct-update, All-update}
use olympiad_next.Postgres.Registrations.Lift.{StatementsKeep}
use olympiad_next.Postgres.Registrations.{
  NewRegistration, by_id, by_transaction, by_user_event, new_row, insert_registration,
  update_registrations, pending_row, reviewed_row, rejected_row, unrejected_row, approved_row,
  carded_row, review_stmt,
}

-- Two rows that a UNIQUE constraint or the primary key forbids together.
abbrev pub clash : Registration → Registration → Bool
clash r n =
    by_id n.id r || by_transaction n.transaction_id r || by_user_event n.user_id n.event_id r

-- A column that is NULL.
abbrev pub is_null {ℓ} : {A : Type ℓ} → Option A → Bool
is_null none = true
is_null (some _) = false

module _ (Format : Text → Text → Type 0) where
  -- A row: its number and transaction id have the format that the service checks; it has been
  -- reviewed exactly if it is not pending; it holds an admit card only if it is approved.
  pub record RowIsValid (r : Registration) : Type 0 where
    pub format : Format r.sender_number r.transaction_id
    pub method : is_valid_method r.payment_method ≡ true
    pub status : is_valid r.status ≡ true
    pub reviewer : is_null r.reviewed_by ≡ is_pending r.status
    pub review_time : is_null r.reviewed_at ≡ is_pending r.status
    pub card : is_null r.admit_card_url ≡ false → r.status ≡ approved

  pub record TableIsValid (db : Tables) : Type 0 where
    pub rows : All RowIsValid db.registrations
    pub unique : Distinct clash db.registrations

  inserted :
      (db : Tables) (r : Registration)
      → any (λ x. clash x r) db.registrations ≡ false
      → RowIsValid r
      → TableIsValid db
      → TableIsValid (record db { registrations = db.registrations ++ r ∷ [] })
  inserted db r fresh v h = record {
    rows = All-append RowIsValid db.registrations (r ∷ []) h.rows (v, tt);
    unique = Distinct-insert clash db.registrations r h.unique fresh;
  }

  not_clashing :
      (n : NewRegistration) (id : Text) (now : ℕ) (rs : List Registration)
      → any (by_id id) rs ≡ false
      → any (by_transaction n.transaction_id) rs ≡ false
      → any (by_user_event n.user_id n.event_id) rs ≡ false
      → any (λ x. clash x (new_row n id now)) rs ≡ false
  not_clashing n id now rs a b c =
      any-or (λ r. by_id id r || by_transaction n.transaction_id r)
        (by_user_event n.user_id n.event_id) rs
      ∙ ground (arith, any-or (by_id id) (by_transaction n.transaction_id) rs)

  new_row-RowIsValid :
      (n : NewRegistration) (id : Text) (now : ℕ)
      → Format n.sender_number n.transaction_id
      → is_valid_method n.payment_method ≡ true
      → RowIsValid (new_row n id now)
  unfolding is_valid
  new_row-RowIsValid n id now f m = record {
    format = f;
    method = m;
    status = refl;
    reviewer = refl;
    review_time = refl;
    card = λ e. cc;
  }

  insert-Keeps :
      (n : NewRegistration)
      → Format n.sender_number n.transaction_id
      → StmtKeeps TableIsValid (insert_registration n)
  unfolding insert_registration
  insert-Keeps n f = record {
    on = λ id now db h. ground (
      arith,
      inserted db (new_row n id now),
      not_clashing n id now db.registrations,
      new_row-RowIsValid n id now f,
      h,
    );
  }

  -- A guarded UPDATE whose change keeps the keys and the validity of the rows that it meets.
  update-Keeps :
      (p : Registration → Bool) (f : ℕ → Registration → Registration)
      → ((now : ℕ) (x y : Registration) → clash (f now x) y ≡ clash x y)
      → ((now : ℕ) (x y : Registration) → clash x (f now y) ≡ clash x y)
      → ((now : ℕ) (r : Registration) → p r ≡ true → RowIsValid r → RowIsValid (f now r))
      → StmtKeeps TableIsValid (update_registrations p f)
  unfolding update_registrations
  update-Keeps p f left right k = record {
    on = λ id now db h. record {
      rows = All-update RowIsValid p (f now) db.registrations (k now) h.rows;
      unique = Distinct-update clash (f now) (left now) (right now) p db.registrations h.unique;
    };
  }

  reviewed-RowIsValid :
      (id by : Text) (status : Status) (now : ℕ) (r : Registration)
      → is_valid status ≡ true
      → is_pending status ≡ false
      → pending_row id r ≡ true
      → RowIsValid r
      → RowIsValid (reviewed_row status by now r)
  reviewed-RowIsValid id by status now r v n p h = record {
    format = h.format;
    method = h.method;
    status = v;
    reviewer = sym n;
    review_time = sym n;
    card = λ e. ground (arith, h.card e);
  }

  unrejected-RowIsValid :
      (id : Text) (now : ℕ) (r : Registration)
      → rejected_row id r ≡ true
      → RowIsValid r
      → RowIsValid (unrejected_row now r)
  unfolding is_valid
  unrejected-RowIsValid id now r p h = record {
    format = h.format;
    method = h.method;
    status = refl;
    reviewer = refl;
    review_time = refl;
    card = λ e. ground (arith, h.card e);
  }

  carded-RowIsValid :
      (id url : Text) (now : ℕ) (r : Registration)
      → approved_row id r ≡ true
      → RowIsValid r
      → RowIsValid (carded_row url now r)
  carded-RowIsValid id url now r p h = record {
    format = h.format;
    method = h.method;
    status = h.status;
    reviewer = h.reviewer;
    review_time = h.review_time;
    card = λ e. ground arith;
  }

  review_stmt-Keeps :
      (id by : Text) (status : Status)
      → is_pending status ≡ false
      → StmtKeeps TableIsValid (review_stmt id by status)
  review_stmt-Keeps id by status n = record {
    on = λ now at db h. elim (Bool-cases (is_valid status)) [
      | inl fine ↦ rw fine (
          (update-Keeps (pending_row id) (reviewed_row status by) (λ _ _ _. refl) (λ _ _ _. refl)
              (λ t r. reviewed-RowIsValid id by status t r fine n)).on
            now at db h)
      | inr bad ↦ ground arith
    ];
  }

  -- Every statement of the repository keeps the table valid.
  pub statements-TableIsValid : StatementsKeep Format TableIsValid
  statements-TableIsValid = record {
    inserts = insert-Keeps;
    reviews = review_stmt-Keeps;
    unrejects = λ id.
        update-Keeps (rejected_row id) unrejected_row (λ _ _ _. refl) (λ _ _ _. refl)
          (unrejected-RowIsValid id);
    cards = λ id url.
        update-Keeps (approved_row id) (carded_row url) (λ _ _ _. refl) (λ _ _ _. refl)
          (carded-RowIsValid id url);
  }
