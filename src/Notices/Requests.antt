-- ===== src/Notices/Requests.antt =====
-- Any sequence of requests to the notices service, on any server.
use olympiad_next.Prelude.{
  ℕ, zero, suc, ◌≡◌, ◌≢◌, refl, Bool, false, List, [], ◌∷◌, ◌++◌, any, All, All-append, ◌==◌,
  ==_comm, ==_iff, is_negative, arith, any-weaken, ◌∙◌,
}
use olympiad_next.Text.{Text, text_eq}
use olympiad_next.Text.Trim.{trim_space}
use olympiad_next.Errors.{ok}
use olympiad_next.Domain.Notice.{Notice}
use olympiad_next.Store.{Tables, World}
use olympiad_next.Store.Rows.{update}
use olympiad_next.Store.Keeps.{
  Keeps, StmtKeeps, Keeps-exec, Keeps-bind, Keeps-pure, Keeps-query, Keeps-lift-bind, keeps_rules,
}
use olympiad_next.Store.Unique.{
  Distinct, Distinct-insert, Distinct-update, Distinct-delete, All-update, All-delete,
}
use olympiad_next.Postgres
use olympiad_next.Postgres.Notices.{
  by_id, new_row, updated_row, insert_notice, update_notice, delete_notice, affected,
}
use olympiad_next.Notices as Notices
use olympiad_next.Notices.{Input, validate, new_notice}

pub data Request : Type 0 where
  add : Input → Request
  change : Text → Input → Request
  remove : Text → Request
  list_all list_active : Request

unfoldable pub serve : Request → World → World
serve (add i) w = (Notices.create i w).1
serve (change id i) w = (Notices.update id i w).1
serve (remove id) w = (Notices.delete id w).1
serve list_all w = (Notices.list_all w).1
serve list_active w = (Notices.list_active w).1

unfoldable pub serve_all : List Request → World → World
unfolding serve
serve_all [] w = w
serve_all (r ∷ rs) w = serve_all rs (serve r w)

abbrev pub same_id : Notice → Notice → Bool
same_id a b = b.id == a.id

pub record NoticeIsValid (n : Notice) : Type 0 where
  pub english : n.text_en ≢ []
  pub bengali : n.text_bn ≢ []
  pub placed : is_negative n.display_order ≡ false

pub record TableIsValid (db : Tables) : Type 0 where
  pub rows : All NoticeIsValid db.notices
  pub unique : Distinct same_id db.notices

module _ (i : Input) (valid : validate i ≡ ok tt) where
  new_row-NoticeIsValid : (id : Text) (now : ℕ) → NoticeIsValid (new_row (new_notice i) id now)
  unfolding validate
  new_row-NoticeIsValid id now = record {
    english = λ e. ground (arith, ==_iff (trim_space i.text_en) []);
    bengali = λ e. ground (arith, ==_iff (trim_space i.text_bn) []);
    placed = ground arith;
  }

  insert-Keeps : StmtKeeps TableIsValid (insert_notice (new_notice i))
  unfolding insert_notice
  insert-Keeps = record {
    on = λ id now db h.
        let n = new_row (new_notice i) id now in
        let added : any (by_id id) db.notices ≡ false
            → TableIsValid (record db { notices = db.notices ++ n ∷ [] }) =
          λ fresh. record {
            rows =
                All-append NoticeIsValid db.notices (n ∷ []) h.rows
                  (new_row-NoticeIsValid id now, tt);
            unique = Distinct-insert same_id db.notices n h.unique (
                any-weaken (by_id id) (λ x. same_id x n) db.notices (λ x e. ==_comm id x.id ∙ e)
                  fresh);
          } in
        ground (arith, added, h);
  }

  update-Keeps : (id : Text) → StmtKeeps TableIsValid (update_notice id (new_notice i))
  unfolding update_notice
  update-Keeps id = record {
    on = λ uid now db h.
        let f = updated_row (new_notice i) now in
        let changed : TableIsValid (record db { notices = update (by_id id) f db.notices }) =
          record {
            rows =
                All-update NoticeIsValid (by_id id) f db.notices
                  (λ x _ _.
                    let fine = new_row-NoticeIsValid x.id now in
                    record { english = fine.english; bengali = fine.bengali; placed = fine.placed })
                  h.rows;
            unique =
                Distinct-update same_id f (λ _ _. refl) (λ _ _. refl) (by_id id) db.notices
                  h.unique;
          } in
        ground (arith, changed, h);
  }

create-Keeps : (i : Input) → Keeps TableIsValid (Notices.create i)
unfolding Notices.create Postgres.Notices.create
create-Keeps i = Keeps-lift-bind _ _ λ _ valid. Keeps-exec _ (insert-Keeps i valid)

change-Keeps : (id : Text) (i : Input) → Keeps TableIsValid (Notices.update id i)
unfolding Notices.update Postgres.Notices.update_by_id
change-Keeps id i = Keeps-lift-bind _ _ λ _ valid.
    Keeps-bind _ _ (Keeps-exec _ (update-Keeps i valid (trim_space id))) λ at. Keeps-pure _

affected-Keeps : (n : ℕ) → Keeps TableIsValid (affected n)
unfolding affected
affected-Keeps zero = search keeps_rules
affected-Keeps (suc n) = search keeps_rules

delete-Keeps : (id : Text) → Keeps TableIsValid (Notices.delete id)
unfolding Notices.delete Postgres.Notices.delete delete_notice
delete-Keeps id =
    Keeps-bind _ _
      (Keeps-exec _ (record {
        on = λ _ _ db h. record {
          rows = All-delete NoticeIsValid (by_id (trim_space id)) db.notices h.rows;
          unique = Distinct-delete same_id (by_id (trim_space id)) db.notices h.unique;
        };
      }))
      affected-Keeps

serve-kept : (r : Request) (w : World) → TableIsValid w.db → TableIsValid (serve r w).db
unfolding serve Notices.list_all Notices.list_active Postgres.Notices.list_all
    Postgres.Notices.list_active
serve-kept (add i) w h = (create-Keeps i).at w h
serve-kept (change id i) w h = (change-Keeps id i).at w h
serve-kept (remove id) w h = (delete-Keeps id).at w h
serve-kept list_all w h = (Keeps-query {P = TableIsValid} _).at w h
serve-kept list_active w h = (Keeps-query {P = TableIsValid} _).at w h

-- After any requests, whatever the server did to their statements, every notice has both texts and no
-- negative display order, and no two have one id.
pub serve_all-NoticeTable :
    (rs : List Request) (w : World) → TableIsValid w.db → TableIsValid (serve_all rs w).db
unfolding serve_all
serve_all-NoticeTable [] w h = h
serve_all-NoticeTable (r ∷ rs) w h = serve_all-NoticeTable rs (serve r w) (serve-kept r w h)
