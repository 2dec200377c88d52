-- ===== src/Postgres/Rounds/States.antt =====
-- What each writing statement on the rounds does to the state of a round.
use mathlib.Core.Option
use olympiad_next.Prelude.{
  ℕ, ◌≡◌, ◌≢◌, refl, ◌⊎◌, inl, inr, Bool, true, Option, none, some, List, [], ◌∷◌, ◌++◌, find,
  find-passes, any, arith, Option-cases, Bool-cases, ◌==◌, ap, ◌∙◌,
}
use olympiad_next.Text.{Text, text_eq, eq_text_iff}
use olympiad_next.Domain.Round.{Status, upcoming, ongoing, ended, Round, same_status}
use olympiad_next.Store.{Tables}
use olympiad_next.Store.Keeps.{StmtKeeps}
use olympiad_next.Store.Changes.{Changes, Changes-Stmt}
use olympiad_next.Store.Rows.{update, delete_rows, find-update, find-append, find-delete}
use olympiad_next.Postgres.Rounds.{
  NewRound, by_id, insert_round, new_row, update_round, delete_round, move_round, in_state,
  moved_row, updated_row,
}
use olympiad_next.Postgres.Rounds.Lift.{UpsertsKeep, upsert-rounds}

-- The state of the round with this id; `none` where there is none.
abbrev pub state_in : Text → List Round → Option Status
state_in id rs = Option.map (λ r. r.status) (find (by_id id) rs)

abbrev pub state_of : Text → Tables → Option Status
state_of id db = state_in id db.rounds

same_status-same : (s t : Status) → same_status s t ≡ true → s ≡ t
same_status-same upcoming upcoming h = refl
same_status-same ongoing ongoing h = refl
same_status-same ended ended h = refl
same_status-same upcoming ongoing h = cc
same_status-same upcoming ended h = cc
same_status-same ongoing upcoming h = cc
same_status-same ongoing ended h = cc
same_status-same ended upcoming h = cc
same_status-same ended ongoing h = cc

insert-Changes :
    (id : Text) (r : Round) (rs : List Round)
    → r.status ≡ upcoming
    → Changes Unit none (some upcoming) (state_in id rs) (state_in id (rs ++ r ∷ []))
unfolding find
insert-Changes id r rs e = elim (Option-cases (find (by_id id) rs)) [
  | inl absent ↦ elim (Bool-cases (by_id id r)) [
    | inl hit ↦ inr (tt, rw absent, ground (arith, find-append (by_id id) rs (r ∷ [])))
    | inr miss ↦ inl (ground (arith, find-append (by_id id) rs (r ∷ [])))
  ]
  | inr (x, found) ↦ inl (ground (arith, find-append (by_id id) rs (r ∷ [])))
]

-- An UPDATE of the row with a key, from one status to another.
update-Changes :
    (id key : Text) (from to : Status) (now : ℕ) (rs : List Round)
    → Changes
        (id ≡ key)
        (some from)
        (some to)
        (state_in id rs)
        (state_in id (update (in_state key from) (moved_row to now) rs))
update-Changes id key from to now rs =
    let keeps = find-update (by_id id) (in_state key from) (moved_row to now) rs (λ _. refl) in
    elim (Option-cases (find (by_id id) rs)) [
      | inl absent ↦ inl (ground (arith, keeps))
      | inr (x, found) ↦ elim (Bool-cases (in_state key from x)) [
        | inl hit ↦ inr (
          ground
              (arith, find-passes (by_id id) rs x found, eq_text_iff x.id id, eq_text_iff x.id key),
          rw found (ap some (same_status-same x.status from (ground arith))),
          ground (arith, keeps),
        )
        | inr miss ↦ inl (ground (arith, keeps))
      ]
    ]

-- An UPDATE that leaves the statuses.
update-stays :
    (id : Text) (p : Round → Bool) (f : Round → Round) (rs : List Round)
    → ((x : Round) → by_id id (f x) ≡ by_id id x)
    → ((x : Round) → (f x).status ≡ x.status)
    → state_in id (update p f rs) ≡ state_in id rs
update-stays id p f rs keeps same = elim (Option-cases (find (by_id id) rs)) [
  | inl absent ↦ ground (arith, find-update (by_id id) p f rs keeps)
  | inr (x, found) ↦ ground (arith, find-update (by_id id) p f rs keeps, same x)
]

no_row : (id : Text) (rs : List Round) → find (by_id id) (delete_rows (by_id id) rs) ≡ none
unfolding find delete_rows
no_row id [] = refl
no_row id (x ∷ xs) = ground (arith, no_row id xs)

delete-state :
    (id key uuid : Text) (now : ℕ) (db : Tables)
    → let t = state_of id (delete_round key uuid now db).1 in
      (t ≡ state_of id db) ⊎ ((id ≡ key) × (t ≡ none))
unfolding delete_round
delete-state id key uuid now db = elim (Bool-cases (id == key)) [
  | inl same ↦
      let key_is : id ≡ key = (eq_text_iff id key).0 same in
      elim (Bool-cases (any (by_id key) db.rounds)) [
        | inl hit ↦ inr (key_is, rw (key_is, hit) (rw (no_row key db.rounds)))
        | inr miss ↦ inl (rw miss)
      ]
  | inr other ↦ inl (
      ground (
        arith,
        find-delete (by_id id) (by_id key) db.rounds
            (λ x e. ground (arith, eq_text_iff x.id id, eq_text_iff x.id key, eq_text_iff id key)),
      ))
]

module _ (id : Text) (start : Option Status) where
  pub insert_round-state :
      (n : NewRound)
      → StmtKeeps (λ db. Changes Unit none (some upcoming) start (state_of id db)) (insert_round n)
  unfolding insert_round
  insert_round-state n =
      Changes-Stmt (state_of id) start (insert_round n) (λ c. cc)
        (λ uuid now db. ground (arith, insert-Changes id (new_row n uuid now) db.rounds))

  pub move_round-state :
      (key : Text) (from to : Status)
      → some to ≢ some from
      → StmtKeeps
          (λ db. Changes (id ≡ key) (some from) (some to) start (state_of id db))
          (move_round key from to)
  unfolding move_round
  move_round-state key from to ne =
      Changes-Stmt (state_of id) start (move_round key from to) ne
        (λ uuid now db. update-Changes id key from to now db.rounds)

  pub delete_round-state :
      (key : Text)
      → StmtKeeps
          (λ db. (state_of id db ≡ start) ⊎ ((id ≡ key) × (state_of id db ≡ none)))
          (delete_round key)
  delete_round-state key = record {
    on = λ uuid now db h. elim (delete-state id key uuid now db) [
      | inr gone ↦ inr gone
      | inl same ↦ elim h [ inl e ↦ inl (same ∙ e) | inr (c, e) ↦ inr (c, same ∙ e) ]
    ];
  }

  pub update_round-state :
      (key : Text) (n : NewRound) → StmtKeeps (λ db. state_of id db ≡ start) (update_round key n)
  unfolding update_round
  update_round-state key n = record {
    on = λ uuid now db h.
        ground (
          arith,
          update-stays id (by_id key) (updated_row n now) db.rounds (λ _. refl) (λ _. refl),
        );
  }

  pub upsert-state : UpsertsKeep (λ db. state_of id db ≡ start)
  upsert-state key f d v uid now db e h =
      ap (λ rs. state_in id rs) (upsert-rounds key d uid now db) ∙ h
