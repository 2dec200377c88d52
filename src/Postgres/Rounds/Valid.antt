-- ===== src/Postgres/Rounds/Valid.antt =====
-- The state of the table rounds that every statement keeps.
use olympiad_next.Prelude.{
  ℕ, ◌≡◌, refl, ◌∙◌, Bool, true, false, ◌&&◌, ◌||◌, some, List, [], ◌∷◌, ◌++◌, any, find, All,
  All-append, any-or, any-rest, any-weaken, Option-cases, int_eq, ==_comm, arith, Bool-cases, inl,
  inr, Option-cases, find-passes,
}
use olympiad_next.Text.{Text, text_eq, eq_text_iff}
use olympiad_next.Domain.Round.{Status, Round}
use olympiad_next.Store.{Tables}
use olympiad_next.Store.Keeps.{StmtKeeps}
use olympiad_next.Store.Rows.{update}
use olympiad_next.Store.Unique.{
  Distinct, Distinct-insert, Distinct-update, Distinct-delete, Distinct-replace, All-update,
  All-delete,
}
use olympiad_next.Postgres.Rounds.{
  NewRound, by_id, by_place, by_final, order_taken, final_taken, new_row, updated_row, others,
  insert_round, update_round, delete_round, move_round, in_state, moved_row,
}
use olympiad_next.Postgres.Rounds.Lift.{InputIsValid}

-- The columns of a row that the service supplies.
abbrev pub columns : Round → NewRound
columns r = record {
  event_id = r.event_id;
  round_order = r.round_order;
  round_name = r.round_name;
  start_at = r.start_at;
  duration_minutes = r.duration_minutes;
  is_final = r.is_final;
  level = r.level;
}

-- Two rows that the primary key or a unique index forbids together.
abbrev pub clash : Round → Round → Bool
clash n r =
    by_id n.id r
    || by_place n.event_id n.level n.round_order r
    || (n.is_final && by_final n.event_id n.level r)

clash-swap : (x y : Round) → clash x y ≡ clash y x
clash-swap x y = ground (
  arith,
  ==_comm x.id y.id,
  ==_comm x.event_id y.event_id,
  ==_comm x.level y.level,
  ==_comm x.round_order y.round_order,
)

pub clash-key : (id : Text) (x y : Round) → by_id id x ≡ true → by_id id y ≡ true → clash x y ≡ true
clash-key id x y hx hy =
    ground (arith, eq_text_iff x.id id, eq_text_iff y.id id, eq_text_iff y.id x.id)

-- The index of the finals holds only finals.
any-and :
    {A : Type 0} (b : Bool) (p : A → Bool) (xs : List A) → any (λ x. b && p x) xs ≡ (b && any p xs)
unfolding any
any-and true p xs = refl
any-and false p [] = refl
any-and false p (x ∷ xs) = any-and false p xs

-- A row clashes with none of the rows when the three searches of the statement find none.
free :
    (n : Round) (rs : List Round)
    → any (by_id n.id) rs ≡ false
    → order_taken n.event_id n.level n.round_order rs ≡ false
    → final_taken n.is_final n.event_id n.level rs ≡ false
    → any (clash n) rs ≡ false
free n rs a b c =
    let place = by_place n.event_id n.level n.round_order in
    let final = by_final n.event_id n.level in
    any-or (λ r. by_id n.id r || place r) (λ r. n.is_final && final r) rs
    ∙ ground (arith, any-or (by_id n.id) place rs, any-and n.is_final final rs)

module _ (allowed : Text → Bool) where
  pub record TableIsValid (db : Tables) : Type 0 where
    pub rows : All (λ r. InputIsValid allowed (columns r)) db.rounds
    pub unique : Distinct clash db.rounds

  abbrev RowIsValid : Round → Type 0
  RowIsValid r = InputIsValid allowed (columns r)

  inserted :
      (db : Tables) (r : Round)
      → any (clash r) db.rounds ≡ false
      → RowIsValid r
      → TableIsValid db
      → TableIsValid (record db { rounds = db.rounds ++ r ∷ [] })
  inserted db r fresh v h = record {
    rows = All-append RowIsValid db.rounds (r ∷ []) h.rows (v, tt);
    unique =
        Distinct-insert clash db.rounds r h.unique
          (any-weaken (clash r) (λ x. clash x r) db.rounds (λ x e. clash-swap x r ∙ e) fresh);
  }

  pub insert-Keeps :
      (n : NewRound) → InputIsValid allowed n → StmtKeeps TableIsValid (insert_round n)
  unfolding insert_round
  insert-Keeps n v = record {
    on = λ id now db h.
        ground (arith, inserted db (new_row n id now), free (new_row n id now) db.rounds, v, h);
  }

  replaced :
      (id : Text) (n : NewRound) (now : ℕ) (r : Round) (db : Tables)
      → InputIsValid allowed n
      → find (by_id id) db.rounds ≡ some r
      → any (clash (updated_row n now r)) (others id db.rounds) ≡ false
      → TableIsValid db
      → TableIsValid (record db { rounds = update (by_id id) (updated_row n now) db.rounds })
  replaced id n now r db v found fresh h = record {
    rows =
        All-update RowIsValid (by_id id) (updated_row n now) db.rounds
          (λ x _ _. record {
            named = v.named;
            order = v.order;
            starts = v.starts;
            duration = v.duration;
            level = v.level;
          })
          h.rows;
    unique =
        Distinct-replace clash (by_id id) (updated_row n now) clash-swap (clash-key id) r db.rounds
          found fresh h.unique;
  }

  pub update-Keeps :
      (id : Text) (n : NewRound)
      → InputIsValid allowed n
      → StmtKeeps TableIsValid (update_round id n)
  unfolding update_round
  update-Keeps id n v = record {
    on = λ uid now db h. elim (Option-cases (find (by_id id) db.rounds)) [
      | inl absent ↦ rw (update_round, absent) h
      | inr (r, found) ↦
          let same = (eq_text_iff r.id id).0 (find-passes (by_id id) db.rounds r found) in
          let alone : any (by_id r.id) (others id db.rounds) ≡ false =
            rw same (any-rest (by_id id) db.rounds) in
          ground (
            arith,
            replaced id n now r db v found,
            free (updated_row n now r) (others id db.rounds) alone,
            h,
          )
    ];
  }

  pub delete-Keeps : (id : Text) → StmtKeeps TableIsValid (delete_round id)
  unfolding delete_round
  delete-Keeps id = record {
    on = λ uid now db h. elim (Bool-cases (any (by_id id) db.rounds)) [
      | inl hit ↦ rw hit (record {
        rows = All-delete RowIsValid (by_id id) db.rounds h.rows;
        unique = Distinct-delete clash (by_id id) db.rounds h.unique;
      })
      | inr miss ↦ rw miss h
    ];
  }

  pub move-Keeps : (id : Text) (from to : Status) → StmtKeeps TableIsValid (move_round id from to)
  unfolding move_round
  move-Keeps id from to = record {
    on = λ uid now db h. record {
      rows =
          All-update RowIsValid (in_state id from) (moved_row to now) db.rounds (λ x _ v. v) h.rows;
      unique =
          Distinct-update clash (moved_row to now) (λ _ _. refl) (λ _ _. refl) (in_state id from)
            db.rounds h.unique;
    };
  }
