-- ===== src/Notices/Answer.antt =====
-- What Update answers and what it leaves in the table.
use olympiad_next.Prelude.{◌≡◌, refl, some, find, ==_iff, arith, find-passes, find-some-any}
use olympiad_next.Text.{Text, text_eq}
use olympiad_next.Text.Trim.{trim_space}
use olympiad_next.Errors.{ok}
use olympiad_next.Domain.Notice.{Notice}
use olympiad_next.Store.{World, healthy, exec, lift, pure, ◌>>=◌}
use olympiad_next.Store.Rows.{update, find-update}
use olympiad_next.Postgres
use olympiad_next.Postgres.Notices.{by_id, updated_row, update_notice}
use olympiad_next.Notices as Notices
use olympiad_next.Notices.{Input, validate, answered, new_notice}

-- Update on a server that runs every statement, with input that is valid and an id that is there: the
-- row has the trimmed texts, the order and the flag of the input and a new time of change, and keeps its
-- id and its time of creation; the answer is that row except that its time of creation is the zero time.
pub update-Recorded :
    (id : Text) (i : Input) (w : World) (old : Notice)
    → validate i ≡ ok tt
    → find (by_id (trim_space id)) w.db.notices ≡ some old
    → (find (by_id (trim_space id)) (Notices.update id i (healthy w)).1.db.notices
        ≡ some (updated_row (new_notice i) w.now old))
      × ((Notices.update id i (healthy w)).0
          ≡ ok (record (updated_row (new_notice i) w.now old) { created_at = 0 }))
unfolding Notices.update Postgres.Notices.update_by_id update_notice exec lift pure ◌>>=◌
update-Recorded id i w old valid found =
    let key = trim_space id in
    let f = updated_row (new_notice i) w.now in
    let hit = find-passes (by_id key) w.db.notices old found in
    let same : old.id ≡ key = (==_iff old.id key).0 hit in
    let there = find-some-any (by_id key) w.db.notices old found in
    let kept = find-update (by_id key) (by_id key) f w.db.notices (λ _. refl) in
    let stored : find (by_id key) (update (by_id key) f w.db.notices) ≡ some (f old) =
      ground (arith, kept, hit) in
    (rw (valid, there) stored, rw (valid, there, same) refl)
