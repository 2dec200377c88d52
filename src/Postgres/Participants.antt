-- ===== src/Postgres/Participants.antt =====
-- round_repository.go over the table round_participants.
use olympiad_next.Prelude.{
  ℕ, suc, ℤ, Bool, false, not, ◌&&◌, Option, none, some, List, [], ◌∷◌, ◌++◌, find, any, filter,
  ◌==◌, int_eq, if◌then◌else◌,
}
use olympiad_next.Text.{Text, text_eq}
use olympiad_next.Errors.{internal, of_round, RoundError, Result, ok, err}
use olympiad_next.Domain.Round.{ParticipantStatus, Participant, is_valid, status_text}
use olympiad_next.Store.{
  Tables, World, Fate, runs, fails, loses, App, Stmt, exec, query, pure, ◌>>◌,
}
use olympiad_next.Store.Rows.{update, or_err}
use olympiad_next.Postgres.Users.{exists_user}
use olympiad_next.Postgres.Rounds

-- The columns that the caller supplies of a decision.
pub record Decided : Type 0 where
  pub user_id : Text
  pub status : ParticipantStatus
  pub rank : Option ℤ

-- uq_round_participants_round_user
abbrev pub by_round_user : Text → Text → Participant → Bool
by_round_user round user p = p.round_id == round && p.user_id == user

abbrev pub has_rank : ℤ → Option ℤ → Bool
has_rank k none = false
has_rank k (some j) = j == k

-- uq_round_participants_rank, a partial index: a row without a rank is not in it.
abbrev pub by_rank : Text → ℤ → Participant → Bool
by_rank round k p = p.round_id == round && has_rank k p.rank

abbrev pub rank_taken : Text → Option ℤ → List Participant → Bool
rank_taken round none ps = false
rank_taken round (some k) ps = any (by_rank round k) ps

abbrev pub new_row : Text → Decided → Text → ℕ → Participant
new_row round d id now = record {
  id = id;
  round_id = round;
  user_id = d.user_id;
  status = d.status;
  rank = d.rank;
  decided_at = now;
}

abbrev pub decided_row : Decided → ℕ → Participant → Participant
decided_row d now p = record p { status = d.status; rank = d.rank; decided_at = now }

-- The rows that an UPDATE of the student's row is compared with.
abbrev pub others : Text → Text → List Participant → List Participant
others round user ps = filter (λ p. not (by_round_user round user p)) ps

-- INSERT ... ON CONFLICT (round_id, user_id) DO UPDATE: the CHECK on the status, then either the
-- UPDATE under the index of ranks, or the INSERT under the primary key, that index and the foreign keys.
unfoldable pub upsert : Text → Decided → Stmt Unit
unfolding is_valid
upsert round d id now db =
    let ps = db.participants in
    if not (is_valid d.status)
    then (err internal, db)
    else if any (by_round_user round d.user_id) ps
    then if rank_taken round d.rank (others round d.user_id ps)
      then (err (of_round RoundError.duplicate_rank), db)
      else (
        ok tt,
        record db { participants = update (by_round_user round d.user_id) (decided_row d now) ps },
      )
    else if any (λ p. p.id == id) ps
    then (err internal, db)
    else if rank_taken round d.rank ps
    then (err (of_round RoundError.duplicate_rank), db)
    else if not (any (Rounds.by_id round) db.rounds && exists_user d.user_id db)
    then (err internal, db)
    else (ok tt, record db { participants = ps ++ new_row round d id now ∷ [] })

-- COMMIT of a transaction that began on the tables `db`.
abbrev pub commit : {A : Type 0} → Fate → A → Tables → World → Result A × World
commit runs a db w = (ok a, record w { step = suc w.step })
commit fails a db w = (err internal, record w { db = db; step = suc w.step })
commit loses a db w = (err internal, record w { step = suc w.step })

-- The end of a transaction: COMMIT after a success, else ROLLBACK.
abbrev pub finish : {A : Type 0} → Tables → Result A → World → Result A × World
finish db (err e) w = (err e, record w { db = db })
finish db (ok a) w = commit (w.fate w.step) a db w

-- A transaction: what its statements did is kept only if it commits.
unfoldable pub transaction : {A : Type 0} → App A → App A
transaction m w = let (r, w') = m w in finish w.db r w'

abbrev pub begin : App Unit
begin = query λ _. ok tt

unfoldable pub upsert_all : Text → List Decided → App Unit
unfolding upsert
upsert_all round [] = pure tt
upsert_all round (d ∷ ds) = exec (upsert round d) >> upsert_all round ds

-- RoundRepository.UpsertParticipants
unfoldable pub upsert_participants : Text → List Decided → App Unit
unfolding transaction upsert_all
upsert_participants round [] = pure tt
upsert_participants round (d ∷ ds) = begin >> transaction (upsert_all round (d ∷ ds))

-- RoundRepository.GetParticipant
unfoldable pub get_participant : Text → Text → App Participant
get_participant round user = query λ db.
    or_err (find (by_round_user round user) db.participants)
      (of_round RoundError.participant_not_found)

-- RoundRepository.ListParticipantsByRound
unfoldable pub list_participants_by_round : Text → App (List Participant)
list_participants_by_round round =
    query λ db. ok (filter (λ p. p.round_id == round) db.participants)

-- ParticipantDetail: a decision with the columns joined from users.
pub record ParticipantDetail : Type 0 where
  pub participant : Participant
  pub open participant use *
  pub student_name : Option Text
  pub student_email : Text

-- The inner join with users.
unfoldable pub join_users : Tables → List Participant → List ParticipantDetail
join_users db [] = []
join_users db (p ∷ ps) =
    let rest = join_users db ps in
    elim (find (λ u. u.id == p.user_id) db.users) [
      | none ↦ rest
      | some u ↦
          record { participant = p; student_name = u.full_name; student_email = u.email } ∷ rest
    ]

-- RoundRepository.ListParticipantsWithUser
unfoldable pub list_participants_with_user : Text → ParticipantStatus → App (List ParticipantDetail)
unfolding join_users status_text
list_participants_with_user round status = query λ db. ok (
    join_users db (
      filter (λ p. p.round_id == round && status_text p.status == status_text status)
        db.participants))
