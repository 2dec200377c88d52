-- ===== src/Events/Tests.antt =====
-- The theorems on events at concrete ones.
use olympiad_next.Prelude.{pos, ◌≡◌, refl, true, [], ◌∷◌, filter, any}
use olympiad_next.Text.{codes, eq_text}
use olympiad_next.Errors.{ok}
use olympiad_next.Store.{World, query}
use olympiad_next.Store.Rows.{order_by}
use olympiad_next.Postgres
use olympiad_next.Events.{Input, get_active_event}
use olympiad_next.Events.Laws.{IsPublished, get_active_event-IsPublished}
use olympiad_next.Events.Requests.{
  publish, show_active, serve_all, TableIsValid, serve_all-EventTable,
}
use olympiad_next.Fixtures.{event_id, an_event, no_tables, world}

abbrev w0 : World
w0 = world no_tables 5

abbrev w1 : World
w1 =
    world
      (record no_tables {
        events = an_event ∷ record an_event { id = codes "f"; event_date = 20 } ∷ [];
      })
      5

published : (get_active_event w1).0 ≡ ok (record an_event { id = codes "f"; event_date = 20 })
unfolding get_active_event Postgres.Events.find_active query order_by filter
published = refl

get_active_event-IsPublished_example :
    IsPublished w1.db (record an_event { id = codes "f"; event_date = 20 })
get_active_event-IsPublished_example =
    get_active_event-IsPublished w1 (record an_event { id = codes "f"; event_date = 20 }) published

abbrev an_input : Input
an_input = record {
  title = codes "T";
  description = [];
  image_url = [];
  event_date = 7;
  is_active = true;
  bkash_number = [];
  nagad_number = [];
  registration_fee = pos 0;
}

serve_all-EventTable_example :
    TableIsValid (event_id ∷ []) (serve_all (publish an_input ∷ show_active ∷ []) w0).db
unfolding any eq_text
serve_all-EventTable_example =
    serve_all-EventTable (event_id ∷ []) (publish an_input ∷ show_active ∷ []) w0 (record {
      rows = (record { titled = λ e. cc; dated = λ e. cc; fee = refl }, tt);
      unique = (refl, tt);
      there = (refl, tt);
    })
