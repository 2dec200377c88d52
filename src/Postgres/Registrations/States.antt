-- ===== src/Postgres/Registrations/States.antt =====
-- What each writing statement on the registrations does to the state of a registration.
use mathlib.Core.Option
use olympiad_next.Prelude.{
  ◌≡◌, refl, ◌≢◌, inl, inr, Bool, true, Option, none, some, List, [], ◌∷◌, ◌++◌, find, arith,
  Option-cases, Bool-cases, sym, ap, ◌∙◌, find-passes,
}
use olympiad_next.Text.{Text, text_eq, eq_text_iff}
use olympiad_next.Domain.Registration.{
  Status, pending, approved, rejected, Registration, is_pending, is_rejected, is_valid,
}
use olympiad_next.Store.{Tables}
use olympiad_next.Store.Rows.{update, find-update, find-append}
use olympiad_next.Postgres.Registrations.{
  NewRegistration, by_id, new_row, insert_registration, update_registrations, pending_row,
  reviewed_row, rejected_row, unrejected_row, approved_row, carded_row, review_stmt,
}
use olympiad_next.Store.Keeps.{StmtKeeps}
use olympiad_next.Store.Changes.{Changes, Changes-Stmt}

abbrev pub status_in : Text → List Registration → Option Status
status_in id rs = Option.map (λ r. r.status) (find (by_id id) rs)

-- The state of the registration with this id; `none` where there is none.
abbrev pub status_of : Text → Tables → Option Status
status_of id db = status_in id db.registrations

insert-Changes :
    (id : Text) (r : Registration) (rs : List Registration)
    → r.status ≡ pending
    → Changes Unit none (some pending) (status_in id rs) (status_in id (rs ++ r ∷ []))
unfolding find
insert-Changes id r rs e = elim (Option-cases (find (by_id id) rs)) [
  | inl absent ↦ elim (Bool-cases (by_id id r)) [
    | inl hit ↦ inr (tt, rw absent, ground (arith, find-append (by_id id) rs (r ∷ [])))
    | inr miss ↦ inl (ground (arith, find-append (by_id id) rs (r ∷ [])))
  ]
  | inr (x, found) ↦ inl (ground (arith, find-append (by_id id) rs (r ∷ [])))
]

-- An UPDATE of the row with a key in one state.
update-Changes :
    {c : Type 0} {from to : Option Status} (id : Text) (p : Registration → Bool)
    (f : Registration → Registration) (rs : List Registration)
    → ((x : Registration) → by_id id (f x) ≡ by_id id x)
    → ((x : Registration)
        → x.id ≡ id
        → p x ≡ true
        → Changes c from to (some x.status) (some (f x).status))
    → Changes c from to (status_in id rs) (status_in id (update p f rs))
update-Changes id p f rs keeps move = elim (Option-cases (find (by_id id) rs)) [
  | inl absent ↦ inl (ground (arith, find-update (by_id id) p f rs keeps))
  | inr (x, found) ↦ elim (Bool-cases (p x)) [
    | inl hit ↦
        let before : status_in id rs ≡ some x.status = ground arith in
        let after : status_in id (update p f rs) ≡ some (f x).status =
          ground (arith, find-update (by_id id) p f rs keeps) in
        let named : x.id ≡ id = (eq_text_iff x.id id).0 (find-passes (by_id id) rs x found) in
        rw (before, after) (move x named hit)
    | inr miss ↦ inl (ground (arith, find-update (by_id id) p f rs keeps))
  ]
]

is_pending-status : (s : Status) → is_pending s ≡ true → s ≡ pending
is_pending-status pending h = refl
is_pending-status approved h = cc
is_pending-status rejected h = cc
is_pending-status (Status.other x) h = cc

is_rejected-status : (s : Status) → is_rejected s ≡ true → s ≡ rejected
is_rejected-status rejected h = refl
is_rejected-status approved h = cc
is_rejected-status pending h = cc
is_rejected-status (Status.other x) h = cc

key-same : (x : Registration) (id key : Text) → x.id ≡ id → by_id key x ≡ true → id ≡ key
key-same x id key a b = sym a ∙ (eq_text_iff x.id key).0 b

module _ (id : Text) (start : Option Status) where
  pub insert_registration-status :
      (n : NewRegistration)
      → StmtKeeps
          (λ db. Changes Unit none (some pending) start (status_of id db))
          (insert_registration n)
  unfolding insert_registration
  insert_registration-status n =
      Changes-Stmt (status_of id) start (insert_registration n) (λ c. cc)
        (λ uuid now db. ground (arith, insert-Changes id (new_row n uuid now) db.registrations))

  pub review_stmt-status :
      {c : Type 0} (key by : Text) (d : Status)
      → c
      → some d ≢ some pending
      → StmtKeeps
          (λ db. Changes ((id ≡ key) × c) (some pending) (some d) start (status_of id db))
          (review_stmt key by d)
  unfolding update_registrations
  review_stmt-status key by d holds ne =
      Changes-Stmt (status_of id) start (review_stmt key by d) ne λ uuid now db.
        elim (Bool-cases (is_valid d)) [
          | inl fine ↦ rw fine (
              update-Changes id (pending_row key) (reviewed_row d by now) db.registrations
                (λ _. refl)
                λ x named hit. inr (
                  (key-same x id key named (ground arith), holds),
                  ap some (is_pending-status x.status (ground arith)),
                  refl,
                ))
          | inr bad ↦ inl (ground arith)
        ]

  pub unreject-status :
      (key : Text)
      → StmtKeeps
          (λ db. Changes (id ≡ key) (some rejected) (some pending) start (status_of id db))
          (update_registrations (rejected_row key) unrejected_row)
  unfolding update_registrations
  unreject-status key =
      Changes-Stmt (status_of id) start (update_registrations (rejected_row key) unrejected_row)
        (λ c. cc)
        λ uuid now db.
          update-Changes id (rejected_row key) (unrejected_row now) db.registrations (λ _. refl)
            λ x named hit. inr (
              key-same x id key named (ground arith),
              ap some (is_rejected-status x.status (ground arith)),
              refl,
            )

  -- An admit card leaves the states.
  pub card-status :
      (key url : Text)
      → StmtKeeps
          (λ db. status_of id db ≡ start)
          (update_registrations (approved_row key) (carded_row url))
  unfolding update_registrations
  card-status key url = record {
    on = λ uuid now db h. ground (
      arith,
      find-update (by_id id) (approved_row key) (carded_row url now) db.registrations (λ _. refl),
      Option-cases (find (by_id id) db.registrations),
    );
  }
