-- ===== src/Postgres/Prizes.antt =====
-- prize_repository.go over the table prizes.
use olympiad_next.Prelude.{
  ℕ, ℤ, zero, Bool, not, Option, List, [], ◌∷◌, ◌++◌, any, filter, ◌==◌, leb_ℤ, if◌then◌else◌,
}
use olympiad_next.Text.{Text, text_eq}
use olympiad_next.Errors.{Error, internal, ok, err}
use olympiad_next.Domain.Prize.{Prize}
use olympiad_next.Store.{App, Stmt, exec, query, raise, pure, ◌>>=◌}
use olympiad_next.Store.Rows.{update, count, delete_rows, order_by}
use olympiad_next.Postgres.Events.{exists_event}

-- The columns that the caller supplies to Create and Update.
pub record NewPrize : Type 0 where
  pub event_id : Text
  pub rank_from : ℤ
  pub rank_to : ℤ
  pub prize_name : Text
  pub prize_description : Option Text
  pub level : Text

abbrev pub by_id : Text → Prize → Bool
by_id id p = p.id == id

abbrev pub new_row : NewPrize → Text → ℕ → Prize
new_row n id now = record {
  id = id;
  event_id = n.event_id;
  level = n.level;
  rank_from = n.rank_from;
  rank_to = n.rank_to;
  prize_name = n.prize_name;
  prize_description = n.prize_description;
  created_at = now;
  updated_at = now;
}

-- The INSERT: the CHECK chk_prizes_rank_range, the primary key, the foreign key.
unfoldable pub insert_prize : NewPrize → Stmt Prize
insert_prize n id now db =
    if not (leb_ℤ n.rank_from n.rank_to)
    then (err internal, db)
    else if any (by_id id) db.prizes
    then (err internal, db)
    else if not (exists_event n.event_id db)
    then (err internal, db)
    else (ok (new_row n id now), record db { prizes = db.prizes ++ new_row n id now ∷ [] })

-- PrizeRepository.Create
unfoldable pub create : NewPrize → App Prize
unfolding insert_prize
create n = exec (insert_prize n)

-- The event of the row stays.
abbrev pub updated_row : NewPrize → ℕ → Prize → Prize
updated_row n now p = record p {
  rank_from = n.rank_from;
  rank_to = n.rank_to;
  prize_name = n.prize_name;
  prize_description = n.prize_description;
  level = n.level;
  updated_at = now;
}

-- The UPDATE of the row with the id, under the CHECK.
unfoldable pub update_prize : Text → NewPrize → Stmt ℕ
update_prize id n _ now db =
    if not (any (by_id id) db.prizes)
    then (err Error.prize_not_found, db)
    else if not (leb_ℤ n.rank_from n.rank_to)
    then (err internal, db)
    else (ok now, record db { prizes = update (by_id id) (updated_row n now) db.prizes })

-- PrizeRepository.Update; it returns updated_at.
unfoldable pub update_by_id : Text → NewPrize → App ℕ
unfolding update_prize
update_by_id id n = exec (update_prize id n)

unfoldable pub delete_prize : Text → Stmt ℕ
delete_prize id _ _ db =
    (ok (count (by_id id) db.prizes), record db { prizes = delete_rows (by_id id) db.prizes })

unfoldable pub affected : ℕ → App Unit
affected zero = raise Error.prize_not_found
affected _ = pure tt

-- PrizeRepository.Delete
unfoldable pub delete : Text → App Unit
unfolding delete_prize affected
delete id = do n ← exec (delete_prize id); affected n

-- PrizeRepository.ListByEvent, with ORDER BY rank_from ASC
unfoldable pub list_by_event : Text → App (List Prize)
list_by_event event = query λ db.
    ok (
      order_by (λ a b. leb_ℤ a.rank_from b.rank_from) (filter (λ p. p.event_id == event) db.prizes))
