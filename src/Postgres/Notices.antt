-- ===== src/Postgres/Notices.antt =====
-- notice_repository.go over the table notices.
use olympiad_next.Prelude.{
  ℕ, ℤ, zero, Bool, not, ◌&&◌, ◌||◌, List, [], ◌∷◌, ◌++◌, any, filter, ◌==◌, leb, leb_ℤ, int_eq,
  if◌then◌else◌,
}
use olympiad_next.Text.{Text, text_eq}
use olympiad_next.Errors.{Error, internal, ok, err}
use olympiad_next.Domain.Notice.{Notice}
use olympiad_next.Store.{App, Stmt, exec, query, raise, pure, ◌>>=◌}
use olympiad_next.Store.Rows.{update, count, delete_rows, order_by}

-- The columns that the caller supplies to Create and Update.
pub record NewNotice : Type 0 where
  pub text_en : Text
  pub text_bn : Text
  pub display_order : ℤ
  pub is_active : Bool

abbrev pub by_id : Text → Notice → Bool
by_id id n = n.id == id

abbrev pub new_row : NewNotice → Text → ℕ → Notice
new_row n id now = record {
  id = id;
  text_en = n.text_en;
  text_bn = n.text_bn;
  display_order = n.display_order;
  is_active = n.is_active;
  created_at = now;
  updated_at = now;
}

-- The INSERT, under the primary key.
unfoldable pub insert_notice : NewNotice → Stmt Notice
insert_notice n id now db =
    if any (by_id id) db.notices
    then (err internal, db)
    else (ok (new_row n id now), record db { notices = db.notices ++ new_row n id now ∷ [] })

-- NoticeRepository.Create
unfoldable pub create : NewNotice → App Notice
unfolding insert_notice
create n = exec (insert_notice n)

abbrev pub updated_row : NewNotice → ℕ → Notice → Notice
updated_row n now r = record r {
  text_en = n.text_en;
  text_bn = n.text_bn;
  display_order = n.display_order;
  is_active = n.is_active;
  updated_at = now;
}

-- The UPDATE of the row with the id.
unfoldable pub update_notice : Text → NewNotice → Stmt ℕ
update_notice id n _ now db =
    if any (by_id id) db.notices
    then (ok now, record db { notices = update (by_id id) (updated_row n now) db.notices })
    else (err Error.notice_not_found, db)

-- NoticeRepository.Update; it returns updated_at.
unfoldable pub update_by_id : Text → NewNotice → App ℕ
unfolding update_notice
update_by_id id n = exec (update_notice id n)

unfoldable pub delete_notice : Text → Stmt ℕ
delete_notice id _ _ db =
    (ok (count (by_id id) db.notices), record db { notices = delete_rows (by_id id) db.notices })

unfoldable pub affected : ℕ → App Unit
affected zero = raise Error.notice_not_found
affected _ = pure tt

-- NoticeRepository.Delete
unfoldable pub delete : Text → App Unit
unfolding delete_notice affected
delete id = do n ← exec (delete_notice id); affected n

-- ORDER BY display_order ASC, created_at ASC
abbrev pub earlier : Notice → Notice → Bool
earlier a b =
    not (leb_ℤ b.display_order a.display_order)
    || (a.display_order == b.display_order && leb a.created_at b.created_at)

-- NoticeRepository.ListAll
unfoldable pub list_all : App (List Notice)
list_all = query λ db. ok (order_by earlier db.notices)

-- NoticeRepository.ListActive
unfoldable pub list_active : App (List Notice)
list_active = query λ db. ok (order_by earlier (filter (λ n. n.is_active) db.notices))
