-- ===== src/Postgres/Rounds/Ended.antt =====
-- The statements on rounds keep the decisions: a round that has ended stays so until it is deleted,
-- and its decisions go with it.
use olympiad_next.Prelude.{
  ℕ, ◌≡◌, refl, Bool, true, false, List, [], ◌∷◌, ◌++◌, any, find, All-map, ◌==◌, arith, Bool-cases,
  inl, inr, Option-cases,
}
use olympiad_next.Text.{Text, text_eq, eq_text_iff}
use olympiad_next.Domain.Round.{Status, upcoming, ongoing, ended, Round, Participant}
use olympiad_next.Store.{Tables}
use olympiad_next.Store.Keeps.{StmtKeeps}
use olympiad_next.Store.Rows.{update, delete_rows, find-update, find-append, find-delete}
use olympiad_next.Store.Unique.{Distinct-delete, All-delete, All-kept}
use olympiad_next.Postgres.Rounds.{
  NewRound, by_id, insert_round, new_row, update_round, delete_round, move_round, in_state,
  moved_row, updated_row,
}
use olympiad_next.Postgres.Rounds.Lift.{StatementsKeep, Forward, starts, ends, upsert-rounds}
use olympiad_next.Postgres.Participants.{Decided, upsert}
use olympiad_next.Postgres.Rounds.Valid as Valid
use olympiad_next.Postgres.Rounds.Decisions.{
  TableIsValid, RowIsValid, clash, ended_in, upsert-Keeps,
}

-- Other rounds, in which no ended round is missing.
with_rounds :
    (rs : List Round) (db : Tables)
    → ((id : Text) → ended_in id db.rounds ≡ true → ended_in id rs ≡ true)
    → TableIsValid db
    → TableIsValid (record db { rounds = rs })
with_rounds rs db k h = record {
  rows = h.rows;
  decided =
      All-map (λ p. ended_in p.round_id db.rounds ≡ true) (λ p. ended_in p.round_id rs ≡ true)
        db.participants (λ p e. k p.round_id e) h.decided;
  unique = h.unique;
}

ended_in-append :
    (id : Text) (n : Round) (rs : List Round)
    → ended_in id rs ≡ true
    → ended_in id (rs ++ n ∷ []) ≡ true
ended_in-append id n rs h =
    ground (arith, find-append (by_id id) rs (n ∷ []), Option-cases (find (by_id id) rs))

ended_in-update :
    (id key : Text) (n : NewRound) (now : ℕ) (rs : List Round)
    → ended_in id rs ≡ true
    → ended_in id (update (by_id key) (updated_row n now) rs) ≡ true
ended_in-update id key n now rs h = ground (
  arith,
  find-update (by_id id) (by_id key) (updated_row n now) rs (λ _. refl),
  Option-cases (find (by_id id) rs),
)

ended_in-move :
    (id key : Text) {from to : Status} (now : ℕ) (rs : List Round)
    → Forward from to
    → ended_in id rs ≡ true
    → ended_in id (update (in_state key from) (moved_row to now) rs) ≡ true
ended_in-move id key now rs starts h = ground (
  arith,
  find-update (by_id id) (in_state key upcoming) (moved_row ongoing now) rs (λ _. refl),
  Option-cases (find (by_id id) rs),
)
ended_in-move id key now rs ends h = ground (
  arith,
  find-update (by_id id) (in_state key ongoing) (moved_row ended now) rs (λ _. refl),
  Option-cases (find (by_id id) rs),
)

ended_in-delete :
    (id key : Text) (rs : List Round)
    → (id == key) ≡ false
    → ended_in id rs ≡ true
    → ended_in id (delete_rows (by_id key) rs) ≡ true
ended_in-delete id key rs ne h = ground (
  arith,
  find-delete (by_id id) (by_id key) rs
      (λ x e. ground (arith, eq_text_iff x.id id, eq_text_iff x.id key, eq_text_iff id key)),
)

insert-Keeps : (n : NewRound) → StmtKeeps TableIsValid (insert_round n)
unfolding insert_round
insert-Keeps n = record {
  on = λ id now db h. ground (
    arith,
    with_rounds (db.rounds ++ new_row n id now ∷ []) db
        (λ j. ended_in-append j (new_row n id now) db.rounds) h,
    h,
  );
}

update-Keeps : (id : Text) (n : NewRound) → StmtKeeps TableIsValid (update_round id n)
unfolding update_round
update-Keeps id n = record {
  on = λ uid now db h. ground (
    arith,
    with_rounds (update (by_id id) (updated_row n now) db.rounds) db
        (λ j. ended_in-update j id n now db.rounds) h,
    h,
  );
}

move-Keeps :
    (id : Text) {from to : Status}
    → Forward from to
    → StmtKeeps TableIsValid (move_round id from to)
unfolding move_round
move-Keeps id {from} {to} m = record {
  on = λ uid now db h.
      with_rounds (update (in_state id from) (moved_row to now) db.rounds) db
        (λ j. ended_in-move j id now db.rounds m) h;
}

delete-Keeps : (id : Text) → StmtKeeps TableIsValid (delete_round id)
unfolding delete_round
delete-Keeps id = record {
  on = λ uid now db h. elim (Bool-cases (any (by_id id) db.rounds)) [
    | inl hit ↦
        let gone : Participant → Bool = λ p. p.round_id == id in
        rw hit (record {
          rows = All-delete RowIsValid gone db.participants h.rows;
          decided =
              All-kept (λ p. ended_in p.round_id db.rounds ≡ true)
                (λ p. ended_in p.round_id (delete_rows (by_id id) db.rounds) ≡ true) gone
                db.participants (λ p stays e. ended_in-delete p.round_id id db.rounds stays e)
                h.decided;
          unique = Distinct-delete clash gone db.participants h.unique;
        })
    | inr miss ↦ rw miss h
  ];
}

-- The tables rounds and round_participants.
pub record TablesAreValid (allowed : Text → Bool) (db : Tables) : Type 0 where
  pub rounds : Valid.TableIsValid allowed db
  pub decisions : TableIsValid db

-- Every statement of the repository keeps both tables valid.
pub statements-TablesAreValid :
    (allowed : Text → Bool) → StatementsKeep allowed (TablesAreValid allowed)
statements-TablesAreValid allowed = record {
  inserts = λ n v. record {
    on = λ id now db h. record {
      rounds = (Valid.insert-Keeps allowed n v).on id now db h.rounds;
      decisions = (insert-Keeps n).on id now db h.decisions;
    };
  };
  updates = λ key n v. record {
    on = λ id now db h. record {
      rounds = (Valid.update-Keeps allowed key n v).on id now db h.rounds;
      decisions = (update-Keeps key n).on id now db h.decisions;
    };
  };
  deletes = λ key. record {
    on = λ id now db h. record {
      rounds = (Valid.delete-Keeps allowed key).on id now db h.rounds;
      decisions = (delete-Keeps key).on id now db h.decisions;
    };
  };
  moves = λ key {from} {to} m. record {
    on = λ id now db h. record {
      rounds = (Valid.move-Keeps allowed key from to).on id now db h.rounds;
      decisions = (move-Keeps key m).on id now db h.decisions;
    };
  };
  upserts = λ key f d v id now db e h. record {
    rounds = rounds_same key f d id now db h.rounds;
    decisions = upsert-Keeps key f d v id now db e h.decisions;
  };
}
  where
    rounds_same :
        (key : Text) (f : Bool) (d : Decided) (id : Text) (now : ℕ) (db : Tables)
        → Valid.TableIsValid allowed db
        → Valid.TableIsValid allowed (upsert key d id now db).1
    rounds_same key f d id now db h =
        let same = upsert-rounds key d id now db in
        record { rows = rw same h.rows; unique = rw same h.unique }
