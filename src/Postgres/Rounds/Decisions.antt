-- ===== src/Postgres/Rounds/Decisions.antt =====
-- The state of the table round_participants that every statement keeps.
use olympiad_next.Prelude.{
  ℕ, ◌≡◌, ◌∙◌, Bool, true, false, ◌||◌, none, some, List, [], ◌∷◌, ◌++◌, any, find, All, All-append,
  any-or, any-rest, any-weaken, any-never, find-none_iff, find-some-any, ◌==◌, int_eq, ==_comm,
  arith, inl, inr, Option-cases, find-passes,
}
use olympiad_next.Text.{Text, text_eq, eq_text_iff}
use olympiad_next.Domain.Round.{Round, Participant, is_valid, is_ended}
use olympiad_next.Store.{Tables}
use olympiad_next.Store.Rows.{update}
use olympiad_next.Store.Unique.{
  Distinct, Distinct-insert, Distinct-replace, Distinct-others, All-update,
}
use olympiad_next.Postgres
use olympiad_next.Postgres.Rounds.{
  NewRound, insert_round, update_round, delete_round, move_round, in_state, moved_row, updated_row,
}
use olympiad_next.Postgres.Rounds.Lift.{DecisionIsValid, RankFits, IsEnded}
use olympiad_next.Postgres.Participants.{
  Decided, by_round_user, by_rank, rank_taken, new_row, decided_row, others, upsert,
}

-- The round with the id is there, and has ended.
abbrev pub ended_in : Text → List Round → Bool
ended_in id rs = elim (find (Postgres.Rounds.by_id id) rs) [
  | none ↦ false
  | some r ↦ is_ended r.status
]

-- Two rows that the primary key or a unique index forbids together.
abbrev pub clash : Participant → Participant → Bool
clash n p =
    p.id == n.id
    || by_round_user n.round_id n.user_id p
    || elim n.rank [ none ↦ false | some k ↦ by_rank n.round_id k p ]

pub record RowIsValid (p : Participant) : Type 0 where
  pub status : is_valid p.status ≡ true
  pub rank : RankFits p.status p.rank

-- A decision is one of the three, with a positive rank exactly if it is `winner`; its round has ended;
-- a student has one decision in a round, and a rank of a round one winner.
pub record TableIsValid (db : Tables) : Type 0 where
  pub rows : All RowIsValid db.participants
  pub decided : All (λ p. ended_in p.round_id db.rounds ≡ true) db.participants
  pub unique : Distinct clash db.participants

clash-swap : (x y : Participant) → clash x y ≡ clash y x
clash-swap x y = ground (
  arith,
  ==_comm x.id y.id,
  ==_comm x.round_id y.round_id,
  ==_comm x.user_id y.user_id,
  Option-cases x.rank,
  Option-cases y.rank,
)

clash-key :
    (round user : Text) (x y : Participant)
    → by_round_user round user x ≡ true
    → by_round_user round user y ≡ true
    → clash x y ≡ true
clash-key round user x y hx hy = ground (
  arith,
  eq_text_iff x.round_id round,
  eq_text_iff y.round_id round,
  eq_text_iff x.user_id user,
  eq_text_iff y.user_id user,
  eq_text_iff y.round_id x.round_id,
  eq_text_iff y.user_id x.user_id,
)

-- A row clashes with none of the rows when the three searches of the statement find none.
free :
    (n : Participant) (ps : List Participant)
    → any (λ p. p.id == n.id) ps ≡ false
    → any (by_round_user n.round_id n.user_id) ps ≡ false
    → rank_taken n.round_id n.rank ps ≡ false
    → any (clash n) ps ≡ false
free n ps a b c =
    let same_id : Participant → Bool = λ p. p.id == n.id in
    let same_key = by_round_user n.round_id n.user_id in
    let none_yet = any-or same_id same_key ps in
    elim (Option-cases n.rank) [
      | inl absent ↦
          rw absent
            (any-or (λ p. same_id p || same_key p) (λ _. false) ps ∙ ground (arith, any-never ps))
      | inr (k, present) ↦ rw present (
          any-or (λ p. same_id p || same_key p) (by_rank n.round_id k) ps
          ∙ ground (arith, rw present at (c)))
    ]

replaced :
    (round : Text) (d : Decided) (now : ℕ) (p : Participant) (db : Tables)
    → is_valid d.status ≡ true
    → RankFits d.status d.rank
    → find (by_round_user round d.user_id) db.participants ≡ some p
    → rank_taken round d.rank (others round d.user_id db.participants) ≡ false
    → TableIsValid db
    → TableIsValid (record db {
      participants = update (by_round_user round d.user_id) (decided_row d now) db.participants;
    })
replaced round d now p db v rank found fresh h =
    let q = by_round_user round d.user_id in
    let hit = find-passes q db.participants p found in
    let same_round : p.round_id ≡ round = ground (arith, eq_text_iff p.round_id round) in
    let same_user : p.user_id ≡ d.user_id = ground (arith, eq_text_iff p.user_id d.user_id) in
    let apart =
      Distinct-others clash q (decided_row d now) clash-swap (clash-key round d.user_id) p
        db.participants found h.unique in
    record {
      rows =
          All-update RowIsValid q (decided_row d now) db.participants
            (λ x _ _. record { status = v; rank = rank }) h.rows;
      decided =
          All-update (λ x. ended_in x.round_id db.rounds ≡ true) q (decided_row d now)
            db.participants (λ x _ e. e) h.decided;
      unique =
          Distinct-replace clash q (decided_row d now) clash-swap (clash-key round d.user_id) p
            db.participants found
            (free (decided_row d now p) (others round d.user_id db.participants)
              (any-weaken (clash p) (λ x. x.id == p.id) _ (λ x e. ground arith) apart)
              (rw (same_round, same_user) (any-rest q db.participants)) (rw same_round fresh))
            h.unique;
    }

inserted :
    (n : Participant) (db : Tables)
    → any (clash n) db.participants ≡ false
    → RowIsValid n
    → ended_in n.round_id db.rounds ≡ true
    → TableIsValid db
    → TableIsValid (record db { participants = db.participants ++ n ∷ [] })
inserted n db fresh v e h = record {
  rows = All-append RowIsValid db.participants (n ∷ []) h.rows (v, tt);
  decided =
      All-append (λ p. ended_in p.round_id db.rounds ≡ true) db.participants (n ∷ []) h.decided
        (e, tt);
  unique =
      Distinct-insert clash db.participants n h.unique
        (any-weaken (clash n) (λ x. clash x n) db.participants (λ x e. clash-swap x n ∙ e) fresh);
}

pub upsert-Keeps :
    (id : Text) (f : Bool) (d : Decided)
    → DecisionIsValid f d
    → (uid : Text) (now : ℕ) (db : Tables) → IsEnded id f db
    → TableIsValid db
    → TableIsValid (upsert id d uid now db).1
unfolding upsert
upsert-Keeps id f d v uid now db (r, there, over, final) h =
    elim (Option-cases (find (by_round_user id d.user_id) db.participants)) [
      | inl absent ↦ ground (
        arith,
        (find-none_iff (by_round_user id d.user_id) db.participants).0 absent,
        inserted (new_row id d uid now) db,
        free (new_row id d uid now) db.participants,
        h,
      )
      | inr (p, found) ↦ ground (
        arith,
        find-some-any (by_round_user id d.user_id) db.participants p found,
        replaced id d now p db v.status v.rank found,
        h,
      )
    ]
