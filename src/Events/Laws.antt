-- ===== src/Events/Laws.antt =====
-- Which event is published.
use olympiad_next.Prelude.{
  ◌≡◌, ◌<◌, ◌≤◌, ◌⊎◌, inl, inr, ◌==◌, ltb, leb, ltb→lt, Bool-cases, All-map, Bool, true, false,
  some, List, [], ◌∷◌, filter, All, All-filter, Mem, Mem-filter, arith, nat_eq,
}
use olympiad_next.Errors.{Error, ok}
use olympiad_next.Domain.Event.{Event}
use olympiad_next.Store.{Tables, World}
use olympiad_next.Store.Rows.{order_by}
use olympiad_next.Store.Order.{order_by-IsFirst}
use olympiad_next.Store.Answers.{found-row}
use olympiad_next.Postgres
use olympiad_next.Postgres.Events.{newest, first}
use olympiad_next.Events.{get_active_event}

-- No active event has a later date, or a later change on the same date.
abbrev pub IsOlder : Event → Event → Type 0
IsOlder e x =
    x.is_active ≡ true
    → (x.event_date < e.event_date)
      ⊎ ((x.event_date ≡ e.event_date) × (x.updated_at ≤ e.updated_at))

newest-IsOlder : (e x : Event) → (x.is_active ≡ true → newest e x ≡ true) → IsOlder e x
newest-IsOlder e x h on =
    let first_of_two = h on in
    elim (Bool-cases (ltb x.event_date e.event_date)) [
      | inl later ↦ inl (ltb→lt x.event_date e.event_date later)
      | inr miss ↦
          let same : e.event_date == x.event_date ≡ true = ground arith in
          let newer : leb x.updated_at e.updated_at ≡ true = ground arith in
          inr (ground (arith, same), ground (arith, newer))
    ]

-- The event is active, and no active event has a later date or, on the same date, a later change.
pub record IsPublished (db : Tables) (e : Event) : Type 0 where
  pub there : Mem e db.events
  pub active : e.is_active ≡ true
  pub latest : All (IsOlder e) db.events

newest-total : (x y : Event) → newest x y ≡ false → newest y x ≡ true
newest-total x y h = ground arith

newest-same : (x : Event) → newest x x ≡ true
newest-same x = ground arith

newest_trans : (x y z : Event) → newest x y ≡ true → newest y z ≡ true → newest x z ≡ true
newest_trans x y z h k = ground arith

first-some :
    (es : List Event) (e : Event) → first es ≡ some e → (rest : List Event) × (es ≡ e ∷ rest)
first-some [] e h = cc
first-some (x ∷ xs) e h = (xs, ground arith)

-- GetActiveEvent, whatever the server does: an event that it answers with is active, and the latest of
-- the active events by date and, on one date, by its last change.
pub get_active_event-IsPublished :
    (w : World) (e : Event) → (get_active_event w).0 ≡ ok e → IsPublished w.db e
unfolding get_active_event Postgres.Events.find_active
get_active_event-IsPublished w e h =
    let active : Event → Bool = λ x. x.is_active in
    let (said, left) =
      found-row (λ db. first (order_by newest (filter (λ x. x.is_active) db.events)))
        Error.event_not_found w e h in
    let (rest, sorted) = first-some (order_by newest (filter active w.db.events)) e said in
    let (m, all) =
      order_by-IsFirst newest newest-total newest-same newest_trans e rest
        (filter active w.db.events) sorted in
    let (there, on) = Mem-filter active e w.db.events m in
    record {
      there = there;
      active = on;
      latest =
          All-map (λ x. x.is_active ≡ true → newest e x ≡ true) (IsOlder e) w.db.events
            (newest-IsOlder e) (All-filter (λ x. newest e x ≡ true) active w.db.events all);
    }
