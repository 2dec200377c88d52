-- ===== src/Http/Cards.antt =====
-- Who is told of an admit card.
use olympiad_next.Prelude.{
  ℕ, zero, suc, List, ◌≡◌, refl, sym, ap, subst, ◌∙◌, true, not, some, [], ◌∷◌, find, arith, ◌⊎◌,
  inl, inr, ◌==◌, if◌then◌else◌,
}
use olympiad_next.Text.{Text, text_eq, lit}
use olympiad_next.Text.Trim.{trim_space}
use olympiad_next.Errors.{Error, Result, ok, err, of_registration, RegistrationError}
use olympiad_next.Domain.User.{User}
use olympiad_next.Domain.Message.{Message}
use olympiad_next.Domain.Registration.{Registration, is_approved}
use olympiad_next.Store.{Tables, World}
use olympiad_next.Store.Keeps.{Keeps, keeps_rules, Keeps-bind, Keeps-exec}
use olympiad_next.Store.Quiet.{Quiet, quiet_rules}
use olympiad_next.Store.Answers.{found-row}
use olympiad_next.Postgres.Users as Users
use olympiad_next.Postgres
use olympiad_next.Postgres.Registrations.{
  by_id, find_by_id, set_admit_card, update_registrations, guarded, explain,
}
use olympiad_next.Registrations.Requests.{best_effort_title-Keeps}
use olympiad_next.Registrations.{get, attach_admit_card, best_effort_title}
use olympiad_next.Auth.Outside.{Outside}
use olympiad_next.Notify.{notify_admit_card_ready}
use olympiad_next.Notify.Channel.{IsAddressed, notify_admit_card_ready-IsAddressed}
use olympiad_next.Http.{
  done, Handler, answer, refuse, call, Delivers, Delivers-call, Delivers-refuse, Delivers-if,
}
use olympiad_next.Http.Owners.{not-false}
use olympiad_next.Http.Registrations.{
  Received, rejected_file, stored, registration_error, attach_and_notify, upload_admit_card,
}

abbrev HasUsers : List User → Tables → Type 0
HasUsers us db = db.users ≡ us

-- AttachAdmitCard tells no one, and changes no account.
refusal-Quiet : (n : ℕ) (id : Text) → Quiet (guarded n (explain id RegistrationError.not_approved))
unfolding guarded explain find_by_id
refusal-Quiet zero id = search quiet_rules
refusal-Quiet (suc n) id = search quiet_rules

title-Quiet : (r : Result Registration) → Quiet (best_effort_title r)
unfolding Postgres.Events.find_by_id
title-Quiet (err e) = search quiet_rules
title-Quiet (ok reg) = search quiet_rules

attach-Quiet : (id url : Text) → Quiet (attach_admit_card id url)
unfolding attach_admit_card set_admit_card find_by_id
attach-Quiet id url = search (quiet_rules, refusal-Quiet, title-Quiet) depth 12

refusal-Keeps :
    (us : List User) (n : ℕ) (id : Text)
    → Keeps (HasUsers us) (guarded n (explain id RegistrationError.not_approved))
unfolding guarded explain find_by_id
refusal-Keeps us zero id = search keeps_rules
refusal-Keeps us (suc n) id = search keeps_rules

attach-users : (us : List User) (id url : Text) → Keeps (HasUsers us) (attach_admit_card id url)
unfolding attach_admit_card set_admit_card update_registrations find_by_id
attach-users us id url =
    Keeps-bind _ _
      (Keeps-bind _ _ (Keeps-exec _ (record { on = λ _ _ _ h. h }))
        λ n. refusal-Keeps us n (trim_space id))
      λ _. Keeps-bind _ _ (search keeps_rules) λ reg. best_effort_title-Keeps reg

module _ (o : Outside) (received : Text → Received) where
  -- Nobody is told, or the student of the registration is, on the channel that the student has verified.
  abbrev pub Tells : World → Registration → World → Type 0
  Tells w reg left =
      (left.outbox ≡ w.outbox)
      ⊎ ((u : User) × (m : Message) × (find (Users.by_id reg.user_id) w.db.users ≡ some u)
          × IsAddressed u m
          × (left.outbox ≡ m ∷ w.outbox))

  error-Delivers :
      {A : Type 0} (e : Error) (w : World) (P : ℕ → A → World → Type 0)
      → Delivers (registration_error e) w P
  unfolding registration_error
  error-Delivers e w P = Delivers-refuse _ _ _

  -- What the alert does after an action that has told no one and changed no account.
  told :
      (reg : Registration) (title : Text) (w w1 : World)
      → w1.db.users ≡ w.db.users
      → w1.outbox ≡ w.outbox
      → Tells w reg (notify_admit_card_ready o reg.user_id title w1).1
  told reg title w w1 users silent =
      elim (notify_admit_card_ready-IsAddressed o reg.user_id title w1).2 [
        | inl same ↦ inl (same ∙ silent)
        | inr (u, m, known, addressed, out) ↦ inr (
          u,
          m,
          ap (find (Users.by_id reg.user_id)) (sym users) ∙ known,
          addressed,
          out ∙ ap (◌∷◌ m) silent,
        )
      ]

  attach-Delivers :
      (id : Text) (reg : Registration) (r : Received) (w : World)
      → Delivers
          (attach_and_notify o received id reg r)
          w
          λ s body left. (r ≡ stored body.1) × Tells w reg left
  unfolding attach_and_notify answer
  attach-Delivers id reg (rejected_file status message) w = Delivers-refuse _ _ _
  attach-Delivers id reg (stored url) w =
      let w1 : World = (attach_admit_card id url w).1 in
      let users : w1.db.users ≡ w.db.users = (attach-users w.db.users id url).at w refl in
      let silent : w1.outbox ≡ w.outbox = (attach-Quiet id url).at w in
      Delivers-call _ _ _ w (λ e _. error-Delivers e _ _)
        λ title _.
          Delivers-call _ _ _ w1 (λ e _. error-Delivers e _ _)
            λ _ _. record { of = λ s body h. (ground arith, told reg title w w1 users silent) }

  upload-Delivers :
      (raw : Text) (w : World)
      → Delivers (upload_admit_card o received raw) w λ s body left.
        (reg : Registration) × (find (by_id (trim_space (trim_space raw))) w.db.registrations
          ≡ some reg)
        × (is_approved reg.status ≡ true)
        × (received reg.user_id ≡ stored body.1)
        × Tells w reg left
  unfolding upload_admit_card get find_by_id
  upload-Delivers raw w =
      let id = trim_space raw in
      let issue : Registration → Handler (Text × Text) =
        λ reg. attach_and_notify o received id reg (received reg.user_id) in
      let next : Registration → Handler (Text × Text) = λ reg.
        if not (is_approved reg.status)
        then refuse 409 (lit "an admit card can only be issued for an approved registration")
        else issue reg in
      Delivers-if (id == []) _ (call (get id) registration_error next) w
        (λ _. Delivers-refuse _ _ _)
        λ _.
          Delivers-call (get id) registration_error next w (λ e _. error-Delivers e _ _)
            λ reg read.
              let w1 : World = (get id w).1 in
              let (known, left) =
                found-row (λ db. find (by_id (trim_space id)) db.registrations)
                  (of_registration RegistrationError.not_found) w reg read in
              Delivers-if (not (is_approved reg.status)) _ (issue reg) w1
                (λ _. Delivers-refuse _ _ _)
                λ passed. record {
                  of = λ s body h.
                      let (url, tells) =
                        (attach-Delivers id reg (received reg.user_id) w1).of s body h in
                      (
                        reg,
                        known,
                        not-false (is_approved reg.status) passed,
                        url,
                        subst (λ v. Tells v reg (issue reg w1).1) left tells,
                      );
                }

  -- UploadAdmitCard, whatever the server and the senders do: if it ends well, the registration was
  -- approved, the URL of the answer is that of the file that was stored for its student, and nobody was
  -- told, or the student was, by SMS only at a number that is verified and chosen.
  pub upload_admit_card-Tells :
      (raw : Text) (w : World) (s : ℕ) (body : Text × Text)
      → (upload_admit_card o received raw w).0 ≡ done s body
      → (reg : Registration) × (find (by_id (trim_space (trim_space raw))) w.db.registrations
          ≡ some reg)
        × (is_approved reg.status ≡ true)
        × (received reg.user_id ≡ stored body.1)
        × Tells w reg (upload_admit_card o received raw w).1
  upload_admit_card-Tells raw w s body h = (upload-Delivers raw w).of s body h
