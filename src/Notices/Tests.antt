-- ===== src/Notices/Tests.antt =====
-- The theorems on notices at concrete ones.
use olympiad_next.Prelude.{pos, ◌≡◌, refl, true, false, List, [], ◌∷◌, filter, any}
use olympiad_next.Text.{codes, eq_text}
use olympiad_next.Errors.{ok}
use olympiad_next.Domain.Notice.{Notice}
use olympiad_next.Store.{World, query}
use olympiad_next.Store.Rows.{order_by}
use olympiad_next.Postgres
use olympiad_next.Notices.{Input, list_active}
use olympiad_next.Postgres.Notices.{by_id, updated_row}
use olympiad_next.Notices.Board.{IsBoard, list_active-IsBoard}
use olympiad_next.Notices.Requests.{
  Request, add, change, remove, serve_all, TableIsValid, serve_all-NoticeTable,
}
use olympiad_next.Fixtures.{no_tables, world}

abbrev a_notice : Notice
a_notice = record {
  id = codes "n";
  text_en = codes "T";
  text_bn = codes "B";
  display_order = pos 2;
  is_active = true;
  created_at = 1;
  updated_at = 1;
}

abbrev first : Notice
first = record a_notice { id = codes "m"; display_order = pos 1 }

abbrev w1 : World
w1 =
    world
      (record no_tables {
        notices = a_notice ∷ record a_notice { id = codes "k"; is_active = false } ∷ first ∷ [];
      })
      5

shown : (list_active w1).0 ≡ ok (first ∷ a_notice ∷ [])
unfolding list_active Postgres.Notices.list_active query order_by filter
shown = refl

list_active-IsBoard_example : IsBoard w1.db (first ∷ a_notice ∷ [])
list_active-IsBoard_example = list_active-IsBoard w1 (first ∷ a_notice ∷ []) shown

abbrev an_input : Input
an_input = record {
  text_en = codes " T ";
  text_bn = codes "B";
  display_order = pos 0;
  is_active = true;
}

abbrev requests : List Request
requests = add an_input ∷ change (0 ∷ []) an_input ∷ remove (codes "n") ∷ []

abbrev w0 : World
w0 = world (record no_tables { notices = a_notice ∷ [] }) 5

serve_all-NoticeTable_example : TableIsValid (serve_all requests w0).db
unfolding any eq_text
serve_all-NoticeTable_example = serve_all-NoticeTable requests w0 (record {
  rows = (record { english = λ e. cc; bengali = λ e. cc; placed = refl }, tt);
  unique = (refl, tt);
})
