-- ===== src/Rounds/Life.antt =====
-- The life of a round over any sequence of requests, as a transition system.
use olympiad_next.Prelude.{◌≡◌, ◌⊎◌, inl, inr, refl, Option, none, some, List, [], ◌∷◌}
use olympiad_next.Text.{Text}
use olympiad_next.Domain.Round.{Status, upcoming, ongoing, ended}
use olympiad_next.Store.{Tables, World}
use olympiad_next.Store.Changes.{Changes}
use olympiad_next.Postgres.Rounds.States.{
  state_of, insert_round-state, move_round-state, delete_round-state, update_round-state,
  upsert-state,
}
use olympiad_next.Rounds.{Input}
use olympiad_next.Rounds.Reads.{
  list_for_caller-Keeps, enter-Keeps, your_status-Keeps, candidates-Keeps, list_rounds-Keeps,
}
use olympiad_next.Rounds.Requests.{
  Request, create, change, remove, start, end, decide, enter, ask_status, list_rounds,
  list_for_caller, list_candidates, wait, serve, serve_all, create_round-Keeps, update_round-Keeps,
  delete_round-Keeps, start_round-Keeps, end_round-Keeps, set_participants-Keeps,
}

-- What a request may do to the state of the round with the id; `none` where there is none.
pub data Step (id : Text) : Request → Option Status → Option Status → Type 0 where
  stays : {r : Request} {s : Option Status} → Step id r s s
  creates : {event : Text} {i : Input} → Step id (create event i) none (some upcoming)
  opens : Step id (start id) (some upcoming) (some ongoing)
  closes : Step id (end id) (some ongoing) (some ended)
  removes : {s : Option Status} → Step id (remove id) s none

-- One step for each request, in their order.
pub data RoundRun (id : Text) : List Request → Option Status → Option Status → Type 0 where
  done : {s : Option Status} → RoundRun id [] s s
  then_next :
      {r : Request} {rs : List Request} {s t u : Option Status}
      → Step id r s t
      → RoundRun id rs t u
      → RoundRun id (r ∷ rs) s u

module _ (id : Text) where
  same-Step : (r : Request) (s t : Option Status) → t ≡ s → Step id r s t
  same-Step r s t e = rw e stays

  create-Step :
      (event : Text) (i : Input) (s t : Option Status)
      → Changes Unit none (some upcoming) s t
      → Step id (create event i) s t
  create-Step event i s t (inl e) = rw e stays
  create-Step event i s t (inr (_, a, b)) = rw (a, b) creates

  start-Step :
      (key : Text) (s t : Option Status)
      → Changes (id ≡ key) (some upcoming) (some ongoing) s t
      → Step id (start key) s t
  start-Step key s t (inl e) = rw e stays
  start-Step key s t (inr (k, a, b)) = rw (← k, a, b) opens

  end-Step :
      (key : Text) (s t : Option Status)
      → Changes (id ≡ key) (some ongoing) (some ended) s t
      → Step id (end key) s t
  end-Step key s t (inl e) = rw e stays
  end-Step key s t (inr (k, a, b)) = rw (← k, a, b) closes

  remove-Step :
      (key : Text) (s t : Option Status)
      → (t ≡ s) ⊎ ((id ≡ key) × (t ≡ none))
      → Step id (remove key) s t
  remove-Step key s t (inl e) = rw e stays
  remove-Step key s t (inr (k, e)) = rw (← k, e) removes

  module _ (w : World) where
    abbrev before : Option Status
    before = state_of id w.db

    abbrev IsSame : Tables → Type 0
    IsSame db = state_of id db ≡ before

    serve-Step : (r : Request) → Step id r before (state_of id (serve r w).db)
    unfolding serve
    serve-Step (create event i) =
        create-Step event i _ _
          ((create_round-Keeps event i (λ n _. insert_round-state id before n)).at w (inl refl))
    serve-Step (remove key) =
        remove-Step key _ _
          ((delete_round-Keeps key (delete_round-state id before key)).at w (inl refl))
    serve-Step (start key) = start-Step key _ _ (
        (start_round-Keeps key (move_round-state id before key upcoming ongoing (λ c. cc))).at w
          (inl refl))
    serve-Step (end key) = end-Step key _ _ (
        (end_round-Keeps key (move_round-state id before key ongoing ended (λ c. cc))).at w
          (inl refl))
    serve-Step (change key i) =
        same-Step (change key i) _ _
          ((update_round-Keeps key i (λ k n _. update_round-state id before k n)).at w refl)
    serve-Step (decide key ds) =
        same-Step (decide key ds) _ _
          ((set_participants-Keeps key ds w (upsert-state id before)).kept refl)
    serve-Step (enter key user) =
        same-Step (enter key user) _ _ ((enter-Keeps {P = IsSame} key user).at w refl)
    serve-Step (ask_status user r) =
        same-Step (ask_status user r) _ _ ((your_status-Keeps {P = IsSame} user r).at w refl)
    serve-Step (list_rounds event) =
        same-Step (list_rounds event) _ _ ((list_rounds-Keeps {P = IsSame} event).at w refl)
    serve-Step (list_for_caller event user) =
        same-Step (list_for_caller event user) _ _
          ((list_for_caller-Keeps {P = IsSame} event user).at w refl)
    serve-Step (list_candidates key) =
        same-Step (list_candidates key) _ _ ((candidates-Keeps {P = IsSame} key).at w refl)
    serve-Step (wait n) = stays

-- The life of a round under any requests, whatever the server does to their statements: each request
-- leaves its state, or is a creation, by which a round that was not there is upcoming, the start of this
-- round, which was upcoming and is ongoing, its end, which was ongoing and is ended, or its deletion.
pub serve_all-RoundRun :
    (id : Text) (rs : List Request) (w : World)
    → RoundRun id rs (state_of id w.db) (state_of id (serve_all rs w).db)
unfolding serve_all
serve_all-RoundRun id [] w = done
serve_all-RoundRun id (r ∷ rs) w =
    then_next (serve-Step id w r) (serve_all-RoundRun id rs (serve r w))
