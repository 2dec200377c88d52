-- ===== src/Postgres/Rounds/Lift.antt =====
-- What the writing statements on rounds and decisions keep of the tables, the methods around them keep.
use olympiad_next.Prelude.{
  ℕ, ℤ, zero, suc, ◌≡◌, ◌≢◌, Bool, true, false, Option, none, some, List, [], ◌∷◌, find, All,
  is_positive, arith,
}
use olympiad_next.Text.{Text}
use olympiad_next.Errors.{Result, ok, err}
use olympiad_next.Domain.Round.{
  Status, upcoming, ongoing, ended, Round, ParticipantStatus, is_valid, is_winner, is_ended,
}
use olympiad_next.Store.{Tables, World, Fate, runs, fails, loses}
use olympiad_next.Store.Keeps.{
  Keeps, KeepsAt, KeepsAt-bind, KeepsAt-of, StmtKeeps, keeps_rules, Keeps-exec, Keeps-bind,
  Keeps-pure, Keeps-query,
}
use olympiad_next.Postgres.Rounds.{
  NewRound, by_id, insert_round, create, update_round, update_by_id, delete_round, delete,
  move_round, set_status, check_round_rows_affected, explain, moved, find_by_id,
}
use olympiad_next.Postgres.Participants.{
  Decided, upsert, upsert_all, transaction, upsert_participants, commit, finish, begin,
}

-- The two changes of state.
pub data Forward : Status → Status → Type 0 where
  starts : Forward upcoming ongoing
  ends : Forward ongoing ended

-- What the service has checked of a round.
pub record InputIsValid (allowed : Text → Bool) (n : NewRound) : Type 0 where
  pub named : n.round_name ≢ []
  pub order : is_positive n.round_order ≡ true
  pub starts : n.start_at ≢ 0
  pub duration : is_positive n.duration_minutes ≡ true
  pub level : allowed n.level ≡ true

-- A rank belongs to a winner, and is positive.
abbrev pub RankFits : ParticipantStatus → Option ℤ → Type 0
RankFits s none = is_winner s ≡ false
RankFits s (some k) = (is_winner s ≡ true) × (is_positive k ≡ true)

-- What the service has checked of a decision.
pub record DecisionIsValid (is_final : Bool) (d : Decided) : Type 0 where
  pub user : d.user_id ≢ []
  pub status : is_valid d.status ≡ true
  pub rank : RankFits d.status d.rank
  pub final : is_winner d.status ≡ true → is_final ≡ true

-- The round with the id is there and has ended.
abbrev pub IsEnded : Text → Bool → Tables → Type 0
IsEnded id is_final db =
    (r : Round) × (find (by_id id) db.rounds ≡ some r)
    × (is_ended r.status ≡ true)
    × (r.is_final ≡ is_final)

-- A checked decision on a round that has ended keeps `P`.
abbrev pub UpsertsKeep : (Tables → Type 0) → Type 0
UpsertsKeep P =
    (id : Text) (f : Bool) (d : Decided)
    → DecisionIsValid f d
    → (uid : Text) (now : ℕ) (db : Tables) → IsEnded id f db
    → P db
    → P (upsert id d uid now db).1

pub record StatementsKeep (allowed : Text → Bool) (P : Tables → Type 0) : Type 0 where
  pub inserts : (n : NewRound) → InputIsValid allowed n → StmtKeeps P (insert_round n)
  pub updates :
      (id : Text) (n : NewRound) → InputIsValid allowed n → StmtKeeps P (update_round id n)
  pub deletes : (id : Text) → StmtKeeps P (delete_round id)
  pub moves : (id : Text) {from to : Status} → Forward from to → StmtKeeps P (move_round id from to)
  pub upserts : UpsertsKeep P

-- A decision leaves the rounds alone.
pub upsert-rounds :
    (id : Text) (d : Decided) (uid : Text) (now : ℕ) (db : Tables)
    → (upsert id d uid now db).1.rounds ≡ db.rounds
unfolding upsert
upsert-rounds id d uid now db = ground arith

module _ {P : Tables → Type 0} where
  pub create-Keeps : (n : NewRound) → StmtKeeps P (insert_round n) → Keeps P (create n)
  unfolding create
  create-Keeps n kept = Keeps-exec _ kept

  pub update_by_id-Keeps :
      (id : Text) (n : NewRound) → StmtKeeps P (update_round id n) → Keeps P (update_by_id id n)
  unfolding update_by_id
  update_by_id-Keeps id n kept = Keeps-exec _ kept

  affected-Keeps : (n : ℕ) → Keeps P (check_round_rows_affected n)
  unfolding check_round_rows_affected
  affected-Keeps zero = search keeps_rules
  affected-Keeps (suc n) = search keeps_rules

  pub delete-Keeps : (id : Text) → StmtKeeps P (delete_round id) → Keeps P (delete id)
  unfolding delete
  delete-Keeps id kept = Keeps-bind _ _ (Keeps-exec _ kept) affected-Keeps

  explain-Keeps : (id : Text) → Keeps P (explain id)
  unfolding explain find_by_id
  explain-Keeps id = search keeps_rules

  moved-Keeps : (n : ℕ) (id : Text) → Keeps P (moved n (explain id))
  unfolding moved
  moved-Keeps zero id = explain-Keeps id
  moved-Keeps (suc n) id = Keeps-pure tt

  pub set_status-Keeps :
      (id : Text) (from to : Status)
      → StmtKeeps P (move_round id from to)
      → Keeps P (set_status id from to)
  unfolding set_status
  set_status-Keeps id from to kept = Keeps-bind _ _ (Keeps-exec _ kept) (λ n. moved-Keeps n id)

module _ {P : Tables → Type 0} (kept : UpsertsKeep P) where
  -- The state inside the transaction: `P`, and the round has still ended.
  abbrev Inside : Text → Bool → Tables → Type 0
  Inside id f db = P db × IsEnded id f db

  upsert-Inside :
      (id : Text) (f : Bool) (d : Decided)
      → DecisionIsValid f d
      → StmtKeeps (Inside id f) (upsert id d)
  upsert-Inside id f d v = record {
    on = λ uid now db h. (kept id f d v uid now db h.1 h.0, rw (upsert-rounds id d uid now db) h.1);
  }

  upsert_all-Inside :
      (id : Text) (f : Bool) (ds : List Decided)
      → All (DecisionIsValid f) ds
      → Keeps (Inside id f) (upsert_all id ds)
  unfolding upsert_all
  upsert_all-Inside id f [] v = Keeps-pure tt
  upsert_all-Inside id f (d ∷ ds) v =
      Keeps-bind _ _ (Keeps-exec _ (upsert-Inside id f d v.0)) (λ _. upsert_all-Inside id f ds v.1)

  commit-Keeps :
      {A : Type 0} (f : Fate) (a : A) (db : Tables) (w : World)
      → P db
      → P w.db
      → P (commit f a db w).1.db
  commit-Keeps runs a db w h g = g
  commit-Keeps fails a db w h g = h
  commit-Keeps loses a db w h g = g

  finish-Keeps :
      {A : Type 0} (db : Tables) (r : Result A) (w : World) → P db → P w.db → P (finish db r w).1.db
  finish-Keeps db (err e) w h g = h
  finish-Keeps db (ok a) w h g = commit-Keeps (w.fate w.step) a db w h g

  transaction-Keeps :
      (id : Text) (f : Bool) (ds : List Decided) (w : World)
      → All (DecisionIsValid f) ds
      → IsEnded id f w.db
      → KeepsAt P (transaction (upsert_all id ds)) w
  unfolding transaction
  transaction-Keeps id f ds w v e = record {
    kept = λ h.
        let m = upsert_all id ds w in
        finish-Keeps w.db m.0 m.1 h ((upsert_all-Inside id f ds v).at w (h, e)).0;
  }

  -- The transaction of a round that has ended, with checked decisions.
  pub upsert_participants-Keeps :
      (id : Text) (f : Bool) (ds : List Decided) (w : World)
      → All (DecisionIsValid f) ds
      → IsEnded id f w.db
      → KeepsAt P (upsert_participants id ds) w
  unfolding upsert_participants
  upsert_participants-Keeps id f [] w v e = KeepsAt-of _ w (Keeps-pure tt)
  upsert_participants-Keeps id f (d ∷ ds) w v e =
      let ended : Keeps (IsEnded id f) begin = Keeps-query _ in
      KeepsAt-bind begin _ w (Keeps-query _)
        (λ _ _. transaction-Keeps id f (d ∷ ds) (begin w).1 v (ended.at w e))
