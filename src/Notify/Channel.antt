-- ===== src/Notify/Channel.antt =====
-- Where the alert on an admit card goes.
use olympiad_next.Prelude.{
  suc, ◌≡◌, refl, true, some, ◌∷◌, find, arith, ◌⊎◌, inl, inr, Option-cases,
}
use olympiad_next.Text.{Text}
use olympiad_next.Errors.{Result-cases, ok, of_user, UserError}
use olympiad_next.Domain.User.{User}
use olympiad_next.Domain.Message.{Message, otp_mail, otp_sms, sms, mail}
use olympiad_next.Store.{World, attempt, pure, on_result, ◌>>=◌}
use olympiad_next.Store.Answers.{found-row, query-left}
use olympiad_next.Store.Rows.{or_err}
use olympiad_next.Postgres.Users.{by_id, find_by_id}
use olympiad_next.Auth.Outside.{Outside, post}
use olympiad_next.Notify.{is_phone, phone_of, alert, event_name, notify_admit_card_ready}

-- An SMS goes to the number that the user has verified and chosen, a mail to the user's address.
abbrev pub IsAddressed : User → Message → Type 0
IsAddressed u (sms number text) =
    (is_phone u.notification_method ≡ true)
    × (u.notification_phone_verified ≡ true)
    × (u.notification_phone ≡ some number)
IsAddressed u (mail address subject body) = address ≡ u.email
IsAddressed u (otp_mail _ _) = ⊥
IsAddressed u (otp_sms _ _) = ⊥

alert-IsAddressed : (u : User) (event : Text) → IsAddressed u (alert u event)
unfolding alert
alert-IsAddressed u event = elim (Option-cases (phone_of u)) [
  | inl no_phone ↦ rw (alert, no_phone) refl
  | inr (number, chosen) ↦ ground (arith, chosen)
]

-- A lookup changes no table and sends nothing, whether it succeeds or not.
quiet : (user : Text) (w : World) → (find_by_id user w).1 ≡ record w { step = suc w.step }
unfolding find_by_id
quiet user w =
    query-left (λ db. or_err (find (by_id user) db.users) (of_user UserError.not_found)) w

module _ (o : Outside) where
  -- NotifyAdmitCardReady never fails, whatever the server and the sender do, and hands over no message or
  -- one, which is addressed to the user: by SMS only to a number that is verified and chosen.
  pub notify_admit_card_ready-IsAddressed :
      (user title : Text) (w : World)
      → let r = notify_admit_card_ready o user title w in
        (r.0 ≡ ok tt)
        × (r.1.db ≡ w.db)
        × ((r.1.outbox ≡ w.outbox)
            ⊎ ((u : User) × (m : Message) × (find (by_id user) w.db.users ≡ some u)
                × IsAddressed u m
                × (r.1.outbox ≡ m ∷ w.outbox)))
  unfolding notify_admit_card_ready find_by_id attempt on_result post pure ◌>>=◌
  notify_admit_card_ready-IsAddressed user title w = elim (Result-cases (find_by_id user w).0) [
    | inl (e, failed) ↦ rw (failed, quiet user w) (refl, refl, inl refl)
    | inr (u, there) ↦
        let (known, _) =
          found-row (λ db. find (by_id user) db.users) (of_user UserError.not_found) w u there in
        let m = alert u (event_name title) in
        rw (there, quiet user w)
          (refl, refl, inr (u, m, known, alert-IsAddressed u (event_name title), refl))
  ]
