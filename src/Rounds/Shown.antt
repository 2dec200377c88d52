-- ===== src/Rounds/Shown.antt =====
-- The status that a student sees agrees with the entry gate.
use olympiad_next.Prelude.{suc, ◌≡◌, refl, true, false, none, find, arith}
use olympiad_next.Text.{Text, lit}
use olympiad_next.Errors.{ok}
use olympiad_next.Domain.Round.{is_ongoing, is_ended, Status}
use olympiad_next.Store.{World, healthy, ◌>>=◌, query}
use olympiad_next.Postgres
use olympiad_next.Postgres.Participants.{by_round_user}
use olympiad_next.Rounds.Entry.{
  your_status, status_of, participant_or_none, undecided_status, is_admissible,
}
use olympiad_next.Rounds.Gate.{MayEnter, eligible_answer, level-is}

not_ended : (s : Status) → is_ongoing s ≡ true → is_ended s ≡ false
not_ended s h = ground arith

-- A student who may enter a round and has no decision in it sees the status `ready`.
pub MayEnter-your_status :
    (id user : Text) (w : World) (m : MayEnter w.db w.now id user)
    → find (by_round_user m.round.id user) w.db.participants ≡ none
    → (your_status user m.round (healthy w)).0 ≡ ok (lit "ready", none)
unfolding your_status status_of participant_or_none undecided_status ◌>>=◌ query
    Postgres.Participants.get_participant
MayEnter-your_status id user w m absent =
    let lev = level-is m.student.level m.round.level m.level in
    let adm : is_admissible m.student m.round ≡ true = rw (lev, m.verified) refl in
    let (d, answer, same) =
      eligible_answer user m.round m.student (record w { step = suc w.step }) m.known adm
        m.qualified in
    rw (absent, answer, not_ended m.round.status m.ongoing, m.ongoing, same, m.started) refl
