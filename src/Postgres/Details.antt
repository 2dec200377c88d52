-- ===== src/Postgres/Details.antt =====
-- registration_repository.go: the lists of registrations joined with events and users.
use olympiad_next.Prelude.{
  ℕ, Bool, true, false, ◌&&◌, Option, none, some, List, [], ◌∷◌, find, filter, ◌==◌, leb,
  if◌then◌else◌,
}
use olympiad_next.Text.{Text, text_eq}
use olympiad_next.Errors.{ok}
use olympiad_next.Domain.Registration.{Status, Registration, status_text}
use olympiad_next.Store.{Tables, App, query}
use olympiad_next.Store.Rows.{order_by, limit}

-- A registration with the columns joined from events and users.
pub record Detail : Type 0 where
  pub registration : Registration
  pub open registration use *
  pub student_name : Option Text
  pub student_email : Text
  pub event_title : Text

-- The inner join with events: a row without its event drops out.
unfoldable pub join_events : Tables → List Registration → List Detail
join_events db [] = []
join_events db (r ∷ rs) =
    let rest = join_events db rs in
    elim (find (λ e. e.id == r.event_id) db.events) [
      | none ↦ rest
      | some e ↦
          record {
            registration = r;
            student_name = none;
            student_email = [];
            event_title = e.title;
          }
          ∷ rest
    ]

-- The inner join of that with users.
unfoldable pub join_users : Tables → List Detail → List Detail
join_users db [] = []
join_users db (d ∷ ds) =
    let rest = join_users db ds in
    elim (find (λ u. u.id == d.user_id) db.users) [
      | none ↦ rest
      | some u ↦ record d { student_name = u.full_name; student_email = u.email } ∷ rest
    ]

-- ORDER BY created_at DESC
abbrev pub newest_first : List Registration → List Registration
newest_first = order_by (λ a b. leb b.created_at a.created_at)

-- RegistrationRepository.ListByUser
unfoldable pub list_by_user : Text → App (List Detail)
unfolding join_events
list_by_user user =
    query
      λ db. ok (join_events db (newest_first (filter (λ r. r.user_id == user) db.registrations)))

abbrev is_empty : Text → Bool
is_empty [] = true
is_empty (_ ∷ _) = false

-- The WHERE clause of ListByStatus; an empty filter is left off.
unfoldable pub matches_filters : Text → Text → Registration → Bool
matches_filters status event r =
    (if is_empty status then true else status_text r.status == status)
    && (if is_empty event then true else r.event_id == event)

-- RegistrationRepository.ListByStatus
unfoldable pub list_by_status : Status → Text → ℕ → App (List Detail)
unfolding join_events join_users matches_filters status_text
list_by_status status event n = query λ db. ok (
    limit n (
      join_users db (
        join_events db
          (newest_first (filter (matches_filters (status_text status) event) db.registrations)))))
