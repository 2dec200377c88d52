-- ===== src/Events.antt =====
-- internal/app/events/service.go: the events that administrators publish.
pub mod Laws
pub mod Requests
pub mod Tests
use olympiad_next.Prelude.{
  is_negative, ℕ, ℤ, pos, negsuc, Bool, true, false, List, [], ◌==◌, nat_eq, if◌then◌else◌,
}
use olympiad_next.Text.{Text, text_eq, lit}
use olympiad_next.Text.Trim.{trim_space}
use olympiad_next.Errors.{Error, events_validation, Result, ok, err}
use olympiad_next.Domain.Event.{Event}
use olympiad_next.Store.{App, pure, lift, ◌>>=◌, ◌>>◌}
use olympiad_next.Postgres
use olympiad_next.Postgres.Events.{NewEvent, updated_row}

pub record Input : Type 0 where
  pub title : Text
  pub description : Text
  pub image_url : Text
  pub event_date : ℕ
  pub is_active : Bool
  pub bkash_number : Text
  pub nagad_number : Text
  pub registration_fee : ℤ

-- Input.validate
unfoldable pub validate : Input → Result (Unit {0})
validate i =
    if trim_space i.title == []
    then err (events_validation (lit "title is required"))
    else if i.event_date == 0
    then err (events_validation (lit "event_date is required"))
    else if is_negative i.registration_fee
    then err (events_validation (lit "registration_fee cannot be negative"))
    else ok tt

abbrev pub new_event : Input → NewEvent
new_event i = record {
  title = trim_space i.title;
  description = i.description;
  image_url = i.image_url;
  event_date = i.event_date;
  is_active = i.is_active;
  bkash_number = trim_space i.bkash_number;
  nagad_number = trim_space i.nagad_number;
  registration_fee = i.registration_fee;
}

-- Service.CreateEvent
unfoldable pub create_event : Input → App Event
unfolding validate
create_event i = do lift (validate i); Postgres.Events.create (new_event i)

-- Service.UpdateEvent
unfoldable pub update_event : Text → Input → App Event
unfolding validate
update_event id i = do
  lift (validate i)
  existing ← Postgres.Events.find_by_id id
  updated ← Postgres.Events.update_by_id existing.id (new_event i)
  pure (updated_row (new_event i) updated existing)

-- Service.GetActiveEvent
unfoldable pub get_active_event : App Event
get_active_event = Postgres.Events.find_active

-- Service.GetEvent
unfoldable pub get_event : Text → App Event
get_event id = Postgres.Events.find_by_id id

-- Service.ListEvents
unfoldable pub list_events : App (List Event)
list_events = Postgres.Events.list_all
