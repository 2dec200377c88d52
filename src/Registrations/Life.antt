-- ===== src/Registrations/Life.antt =====
-- The review of a registration over any sequence of requests, as a transition system.
use olympiad_next.Prelude.{
  ◌≡◌, ◌≢◌, inl, inr, refl, ◌∙◌, ◌||◌, true, Option, none, some, List, [], ◌∷◌,
}
use olympiad_next.Text.{Text}
use olympiad_next.Domain.Registration.{
  Status, pending, approved, rejected, is_approved, is_rejected,
}
use olympiad_next.Store.{Tables, World}
use olympiad_next.Store.Changes.{Changes}
use olympiad_next.Postgres.Registrations.States.{
  status_of, insert_registration-status, review_stmt-status, unreject-status, card-status,
}
use olympiad_next.Registrations.{RegisterInput}
use olympiad_next.Registrations.Requests.{
  Request, submit, decide, correct, attach, look, ask, ask_status, list_own, list_queue, wait,
  serve, serve_all, register-Keeps, service_review-Keeps, service_unreject-Keeps, attach-Keeps,
  look-Keeps, ask-Keeps, ask_status-Keeps, list_own-Keeps, list_for_review-Keeps,
}

-- A decision.
pub data Decision : Status → Type 0 where
  approval : Decision approved
  rejection : Decision rejected

-- What a request may do to the state of the registration with the id; `none` where there is none.
pub data Step (id : Text) : Request → Option Status → Option Status → Type 0 where
  stays : {r : Request} {s : Option Status} → Step id r s s
  submits : {user : Text} {i : RegisterInput} → Step id (submit user i) none (some pending)
  decides :
      {admin : Text} {d : Status} → Decision d → Step id (decide id admin d) (some pending) (some d)
  reopens : {admin : Text} → Step id (correct id admin) (some rejected) (some pending)

-- One step for each request, in their order.
pub data ReviewRun (id : Text) : List Request → Option Status → Option Status → Type 0 where
  done : {s : Option Status} → ReviewRun id [] s s
  then_next :
      {r : Request} {rs : List Request} {s t u : Option Status}
      → Step id r s t
      → ReviewRun id rs t u
      → ReviewRun id (r ∷ rs) s u

decision : (d : Status) → (is_approved d || is_rejected d) ≡ true → Decision d
decision approved h = approval
decision rejected h = rejection
decision pending h = cc
decision (Status.other x) h = cc

Decision-new : {d : Status} → Decision d → some d ≢ some pending
Decision-new approval = λ c. cc
Decision-new rejection = λ c. cc

module _ (id : Text) where
  same-Step : (r : Request) (s t : Option Status) → t ≡ s → Step id r s t
  same-Step r s t e = rw e stays

  submit-Step :
      (user : Text) (i : RegisterInput) (s t : Option Status)
      → Changes Unit none (some pending) s t
      → Step id (submit user i) s t
  submit-Step user i s t (inl e) = rw e stays
  submit-Step user i s t (inr (_, a, b)) = rw (a, b) submits

  correct-Step :
      (key admin : Text) (s t : Option Status)
      → Changes (id ≡ key) (some rejected) (some pending) s t
      → Step id (correct key admin) s t
  correct-Step key admin s t (inl e) = rw e stays
  correct-Step key admin s t (inr (k, a, b)) = rw (← k, a, b) reopens

  decide-Step :
      (key admin : Text) (d : Status) (s t : Option Status)
      → Changes ((id ≡ key) × Decision d) (some pending) (some d) s t
      → Step id (decide key admin d) s t
  decide-Step key admin d s t (inl e) = rw e stays
  decide-Step key admin d s t (inr ((k, x), a, b)) = rw (← k, a, b) (decides x)

  module _ (w : World) where
    abbrev before : Option Status
    before = status_of id w.db

    abbrev IsSame : Tables → Type 0
    IsSame db = status_of id db ≡ before

    serve-Step : (r : Request) → Step id r before (status_of id (serve r w).db)
    unfolding serve
    serve-Step (submit user i) =
        submit-Step user i _ _
          ((register-Keeps user i (λ n _. insert_registration-status id before n)).at w (inl refl))
    serve-Step (decide key admin d) = decide-Step key admin d _ _ (
        (service_review-Keeps key admin d (λ h.
            review_stmt-status id before key admin d (decision d h)
              (Decision-new (decision d h)))).at
          w (inl refl))
    serve-Step (correct key admin) =
        correct-Step key admin _ _
          ((service_unreject-Keeps key admin (unreject-status id before key)).at w (inl refl))
    serve-Step (attach key url) =
        same-Step (attach key url) _ _
          ((attach-Keeps key url (λ k. card-status id before k url)).at w refl)
    serve-Step (look key) = same-Step (look key) _ _ ((look-Keeps {P = IsSame} key).at w refl)
    serve-Step (ask user event) =
        same-Step (ask user event) _ _ ((ask-Keeps {P = IsSame} user event).at w refl)
    serve-Step (ask_status user event) =
        same-Step (ask_status user event) _ _ ((ask_status-Keeps {P = IsSame} user event).at w refl)
    serve-Step (list_own user) =
        same-Step (list_own user) _ _ ((list_own-Keeps {P = IsSame} user).at w refl)
    serve-Step (list_queue s event n) =
        same-Step (list_queue s event n) _ _
          ((list_for_review-Keeps {P = IsSame} s event n).at w refl)
    serve-Step (wait n) = stays

  Step-approved : {r : Request} {s t : Option Status} → Step id r s t → s ≡ some approved → t ≡ s
  Step-approved stays e = refl
  Step-approved submits e = cc
  Step-approved (decides x) e = cc
  Step-approved reopens e = cc

  Step-there : {r : Request} {s t : Option Status} → Step id r s t → s ≢ none → t ≢ none
  Step-there stays e = e
  Step-there submits e = λ c. cc
  Step-there (decides x) e = λ c. cc
  Step-there reopens e = λ c. cc

  ReviewRun-approved :
      {rs : List Request} {s t : Option Status}
      → ReviewRun id rs s t
      → s ≡ some approved
      → t ≡ some approved
  ReviewRun-approved done e = e
  ReviewRun-approved (then_next step run) e = ReviewRun-approved run (Step-approved step e ∙ e)

  ReviewRun-there :
      {rs : List Request} {s t : Option Status} → ReviewRun id rs s t → s ≢ none → t ≢ none
  ReviewRun-there done e = e
  ReviewRun-there (then_next step run) e = ReviewRun-there run (Step-there step e)

  run :
      (rs : List Request) (w : World)
      → ReviewRun id rs (status_of id w.db) (status_of id (serve_all rs w).db)
  unfolding serve_all
  run [] w = done
  run (r ∷ rs) w = then_next (serve-Step w r) (run rs (serve r w))

  -- The review of a registration under any requests, whatever the server does to their statements: each
  -- request leaves its state, or is a submission, by which one that was not there is pending, a decision
  -- on this registration, which was pending and is approved or rejected as decided, or a correction of it,
  -- which was rejected and is pending; so approval is final, and no registration disappears.
  pub serve_all-ReviewRun :
      (rs : List Request) (w : World)
      → let s = status_of id w.db in
        let t = status_of id (serve_all rs w).db in
        ReviewRun id rs s t × (s ≡ some approved → t ≡ some approved) × (s ≢ none → t ≢ none)
  serve_all-ReviewRun rs w =
      let all = run rs w in (all, ReviewRun-approved all, ReviewRun-there all)
