-- ===== src/Events/Requests.antt =====
-- Any sequence of requests to the events service, on any server.
use olympiad_next.Prelude.{
  is_negative, ℕ, ◌≡◌, ◌≢◌, refl, Bool, true, false, List, [], ◌∷◌, ◌++◌, any, All, All-append,
  All-map, ◌==◌, ==_comm, ==_iff, nat_eq, arith, any-append, any-weaken, ◌∙◌,
}
use olympiad_next.Text.{Text, text_eq}
use olympiad_next.Text.Trim.{trim_space}
use olympiad_next.Errors.{ok}
use olympiad_next.Domain.Event.{Event}
use olympiad_next.Store.{Tables, World}
use olympiad_next.Store.Rows.{update, any-update}
use olympiad_next.Store.Keeps.{
  Keeps, StmtKeeps, Keeps-exec, Keeps-bind, Keeps-pure, Keeps-query, Keeps-lift-bind,
}
use olympiad_next.Store.Unique.{Distinct, Distinct-insert, Distinct-update, All-update}
use olympiad_next.Postgres
use olympiad_next.Postgres.Events.{by_id, new_row, updated_row, insert_event, update_event}
use olympiad_next.Events as Events
use olympiad_next.Events.{
  Input, validate, new_event, create_event, get_active_event, get_event, list_events,
}

pub data Request : Type 0 where
  publish : Input → Request
  change : Text → Input → Request
  show_active list_all : Request
  show : Text → Request

unfoldable pub serve : Request → World → World
serve (publish i) w = (create_event i w).1
serve (change id i) w = (Events.update_event id i w).1
serve show_active w = (get_active_event w).1
serve list_all w = (list_events w).1
serve (show id) w = (get_event id w).1

unfoldable pub serve_all : List Request → World → World
unfolding serve
serve_all [] w = w
serve_all (r ∷ rs) w = serve_all rs (serve r w)

abbrev pub same_id : Event → Event → Bool
same_id a b = b.id == a.id

pub record EventIsValid (e : Event) : Type 0 where
  pub titled : e.title ≢ []
  pub dated : e.event_date ≢ 0
  pub fee : is_negative e.registration_fee ≡ false

-- The events are valid, have different ids, and the events with the ids `kept` are there.
pub record TableIsValid (kept : List Text) (db : Tables) : Type 0 where
  pub rows : All EventIsValid db.events
  pub unique : Distinct same_id db.events
  pub there : All (λ id. any (by_id id) db.events ≡ true) kept

module _ (i : Input) (valid : validate i ≡ ok tt) where
  new_row-EventIsValid : (id : Text) (now : ℕ) → EventIsValid (new_row (new_event i) id now)
  unfolding validate
  new_row-EventIsValid id now = record {
    titled = λ e. ground (arith, ==_iff (trim_space i.title) []);
    dated = λ e. ground (arith, ==_iff i.event_date 0);
    fee = ground arith;
  }

  insert-Keeps : (kept : List Text) → StmtKeeps (TableIsValid kept) (insert_event (new_event i))
  unfolding insert_event
  insert-Keeps kept = record {
    on = λ id now db h.
        let n = new_row (new_event i) id now in
        let added : any (by_id id) db.events ≡ false
            → TableIsValid kept (record db { events = db.events ++ n ∷ [] }) =
          λ fresh. record {
            rows =
                All-append EventIsValid db.events (n ∷ []) h.rows (new_row-EventIsValid id now, tt);
            unique = Distinct-insert same_id db.events n h.unique (
                any-weaken (by_id id) (λ x. same_id x n) db.events (λ x e. ==_comm id x.id ∙ e)
                  fresh);
            there =
                All-map (λ k. any (by_id k) db.events ≡ true)
                  (λ k. any (by_id k) (db.events ++ n ∷ []) ≡ true) kept
                  (λ k e. ground (arith, any-append (by_id k) db.events (n ∷ []))) h.there;
          } in
        ground (arith, added, h);
  }

  update-Keeps :
      (kept : List Text) (id : Text) → StmtKeeps (TableIsValid kept) (update_event id (new_event i))
  unfolding update_event
  update-Keeps kept id = record {
    on = λ uid now db h.
        let f = updated_row (new_event i) now in
        let changed : TableIsValid kept (record db { events = update (by_id id) f db.events }) =
          record {
            rows =
                All-update EventIsValid (by_id id) f db.events
                  (λ x _ _.
                    let fine = new_row-EventIsValid x.id now in
                    record { titled = fine.titled; dated = fine.dated; fee = fine.fee })
                  h.rows;
            unique =
                Distinct-update same_id f (λ _ _. refl) (λ _ _. refl) (by_id id) db.events h.unique;
            there =
                All-map (λ k. any (by_id k) db.events ≡ true)
                  (λ k. any (by_id k) (update (by_id id) f db.events) ≡ true) kept
                  (λ k e. any-update (by_id k) (by_id id) f db.events (λ _. refl) ∙ e) h.there;
          } in
        ground (arith, changed, h);
  }

module _ (kept : List Text) where
  create-Keeps : (i : Input) → Keeps (TableIsValid kept) (create_event i)
  unfolding create_event Postgres.Events.create
  create-Keeps i = Keeps-lift-bind _ _ λ _ valid. Keeps-exec _ (insert-Keeps i valid kept)

  change-Keeps : (id : Text) (i : Input) → Keeps (TableIsValid kept) (Events.update_event id i)
  unfolding Events.update_event Postgres.Events.update_by_id Postgres.Events.find_by_id
  change-Keeps id i = Keeps-lift-bind _ _ λ _ valid.
      Keeps-bind _ _ (Keeps-query _)
        λ e. Keeps-bind _ _ (Keeps-exec _ (update-Keeps i valid kept e.id)) λ at. Keeps-pure _

  serve-kept : (r : Request) (w : World) → TableIsValid kept w.db → TableIsValid kept (serve r w).db
  unfolding serve get_active_event list_events get_event Postgres.Events.find_active
      Postgres.Events.list_all Postgres.Events.find_by_id
  serve-kept (publish i) w h = (create-Keeps i).at w h
  serve-kept (change id i) w h = (change-Keeps id i).at w h
  serve-kept show_active w h = (Keeps-query {P = TableIsValid kept} _).at w h
  serve-kept list_all w h = (Keeps-query {P = TableIsValid kept} _).at w h
  serve-kept (show id) w h = (Keeps-query {P = TableIsValid kept} _).at w h

-- After any requests, whatever the server did to their statements, every event has a title, a date and
-- no negative fee, no two have one id, and no event that was there is gone.
pub serve_all-EventTable :
    (kept : List Text) (rs : List Request) (w : World)
    → TableIsValid kept w.db
    → TableIsValid kept (serve_all rs w).db
unfolding serve_all
serve_all-EventTable kept [] w h = h
serve_all-EventTable kept (r ∷ rs) w h =
    serve_all-EventTable kept rs (serve r w) (serve-kept kept r w h)
