-- ===== src/Postgres/Events.antt =====
-- event_repository.go over the table events.
use olympiad_next.Prelude.{
  ℕ, ℤ, Bool, not, ◌&&◌, ◌||◌, Option, none, some, List, [], ◌∷◌, ◌++◌, find, any, filter, ◌==◌,
  nat_eq, leb, ltb, if◌then◌else◌,
}
use olympiad_next.Text.{Text, text_eq}
use olympiad_next.Errors.{Error, internal, ok, err}
use olympiad_next.Domain.Event.{Event}
use olympiad_next.Store.{Tables, App, Stmt, exec, query}
use olympiad_next.Store.Rows.{update, order_by, or_err}

-- The target of a foreign key to events.
abbrev pub exists_event : Text → Tables → Bool
exists_event id db = any (λ e. e.id == id) db.events

-- The columns that the caller supplies to Create and Update.
pub record NewEvent : Type 0 where
  pub title : Text
  pub description : Text
  pub image_url : Text
  pub event_date : ℕ
  pub is_active : Bool
  pub bkash_number : Text
  pub nagad_number : Text
  pub registration_fee : ℤ

abbrev pub by_id : Text → Event → Bool
by_id id e = e.id == id

abbrev pub new_row : NewEvent → Text → ℕ → Event
new_row n id now = record {
  id = id;
  title = n.title;
  description = n.description;
  image_url = n.image_url;
  event_date = n.event_date;
  is_active = n.is_active;
  bkash_number = n.bkash_number;
  nagad_number = n.nagad_number;
  registration_fee = n.registration_fee;
  created_at = now;
  updated_at = now;
}

-- The INSERT, under the primary key.
unfoldable pub insert_event : NewEvent → Stmt Event
insert_event n id now db =
    if any (by_id id) db.events
    then (err internal, db)
    else (ok (new_row n id now), record db { events = db.events ++ new_row n id now ∷ [] })

-- EventRepository.Create
unfoldable pub create : NewEvent → App Event
unfolding insert_event
create n = exec (insert_event n)

abbrev pub updated_row : NewEvent → ℕ → Event → Event
updated_row n now e = record e {
  title = n.title;
  description = n.description;
  image_url = n.image_url;
  event_date = n.event_date;
  is_active = n.is_active;
  bkash_number = n.bkash_number;
  nagad_number = n.nagad_number;
  registration_fee = n.registration_fee;
  updated_at = now;
}

-- The UPDATE of the row with the id.
unfoldable pub update_event : Text → NewEvent → Stmt ℕ
update_event id n _ now db =
    if any (by_id id) db.events
    then (ok now, record db { events = update (by_id id) (updated_row n now) db.events })
    else (err Error.event_not_found, db)

-- EventRepository.Update; it returns updated_at.
unfoldable pub update_by_id : Text → NewEvent → App ℕ
unfolding update_event
update_by_id id n = exec (update_event id n)

-- EventRepository.FindByID
unfoldable pub find_by_id : Text → App Event
find_by_id id = query λ db. or_err (find (by_id id) db.events) Error.event_not_found

-- ORDER BY event_date DESC, updated_at DESC
abbrev pub newest : Event → Event → Bool
newest a b =
    ltb b.event_date a.event_date || (a.event_date == b.event_date && leb b.updated_at a.updated_at)

-- LIMIT 1
abbrev pub first : List Event → Option Event
first [] = none
first (e ∷ _) = some e

-- EventRepository.FindActive
unfoldable pub find_active : App Event
find_active = query λ db.
    or_err (first (order_by newest (filter (λ e. e.is_active) db.events))) Error.event_not_found

-- ORDER BY is_active DESC, event_date DESC
abbrev pub open_first : Event → Event → Bool
open_first a b =
    (a.is_active && not b.is_active)
    || (not (not a.is_active && b.is_active) && leb b.event_date a.event_date)

-- EventRepository.ListAll
unfoldable pub list_all : App (List Event)
list_all = query λ db. ok (order_by open_first db.events)
