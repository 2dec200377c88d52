-- ===== src/Postgres/Users.antt =====
-- user_repository.go over the table users: the lookups, the INSERT, and the frame of an UPDATE of the row
-- with an id. SQL's LOWER depends on the locale of the database: it is a parameter.
pub mod Changes
pub mod State
pub mod Links
pub mod Valid
pub mod Lift
pub mod Changed
use olympiad_next.Prelude.{
  ℕ, zero, Bool, true, false, not, ◌&&◌, ◌||◌, Option, none, some, List, [], ◌∷◌, ◌++◌, find, any,
  filter, leb, ◌==◌, if◌then◌else◌,
}
use olympiad_next.Text.{Text, text_eq, points_to, or_empty}
use olympiad_next.Errors.{Error, internal, of_user, UserError, ok, err}
use olympiad_next.Domain.User.{
  AuthProvider, Role, student, VerificationStatus, unverified, User, NotificationMethod, email,
  same_verification,
}
use olympiad_next.Store.{Tables, App, Stmt, exec, query, raise, pure, ◌>>=◌}
use olympiad_next.Store.Rows.{or_err, order_by, limit, update, count}

abbrev pub by_id : Text → User → Bool
by_id id u = u.id == id

-- UserRepository.FindByID
unfoldable pub find_by_id : Text → App User
find_by_id id = query λ db. or_err (find (by_id id) db.users) (of_user UserError.not_found)

-- The target of a foreign key to users.
abbrev pub exists_user : Text → Tables → Bool
exists_user id db = any (by_id id) db.users

abbrev pub by_google_id : Text → User → Bool
by_google_id google_id u = points_to u.google_id google_id

-- UserRepository.FindByGoogleID
unfoldable pub find_by_google_id : Text → App User
find_by_google_id id =
    query λ db. or_err (find (by_google_id id) db.users) (of_user UserError.not_found)

-- UserRepository.GetActiveDeviceFingerprint: a NULL is the empty text.
unfoldable pub get_active_device_fingerprint : Text → App Text
get_active_device_fingerprint id = do u ← find_by_id id; pure (or_empty u.active_device_fingerprint)

-- UserRepository.GetRole
unfoldable pub get_role : Text → App Role
get_role id = do u ← find_by_id id; pure u.role

-- ORDER BY created_at DESC
abbrev pub newer : User → User → Bool
newer a b = leb b.created_at a.created_at

-- UserRepository.ListUsers: the empty status stands for every user.
unfoldable pub list_users : VerificationStatus → ℕ → App (List User)
list_users (VerificationStatus.other []) n = query λ db. ok (limit n (order_by newer db.users))
list_users status n = query λ db. ok (
    limit n
      (order_by newer (filter (λ u. same_verification u.verification_status status) db.users)))

-- The columns that the caller supplies to Create.
pub record NewUser : Type 0 where
  pub email : Text
  pub full_name : Option Text
  pub password_hash : Option Text
  pub auth_provider : AuthProvider
  pub google_id : Option Text
  pub email_verified : Bool
  pub institution_name : Option Text
  pub level : Option Text
  pub medium : Option Text

-- The row, with the defaults of the other columns.
abbrev pub new_row : NewUser → Text → ℕ → User
new_row n id now = record {
  id = id;
  email = n.email;
  full_name = n.full_name;
  password_hash = n.password_hash;
  auth_provider = n.auth_provider;
  google_id = n.google_id;
  active_device_fingerprint = none;
  role = student;
  email_verified = n.email_verified;
  email_otp = none;
  email_otp_expiry = none;
  institution_name = n.institution_name;
  level = n.level;
  medium = n.medium;
  profile_picture = none;
  verification_doc = none;
  verification_status = unverified;
  notification_method = NotificationMethod.email;
  notification_phone = none;
  notification_phone_verified = false;
  notification_phone_otp = none;
  notification_phone_otp_expiry = none;
  created_at = now;
  updated_at = now;
}

abbrev pub is_null : Option Text → Bool
is_null none = true
is_null (some _) = false

-- chk_users_has_credential
abbrev pub has_credential : User → Bool
has_credential u = not (is_null u.password_hash) || not (is_null u.google_id)

-- idx_users_google_id: no two rows have one google_id, where it is not NULL.
abbrev pub same_google_id : Option Text → Option Text → Bool
same_google_id none _ = false
same_google_id (some g) o = points_to o g

abbrev pub clash_google : User → User → Bool
clash_google u v = same_google_id u.google_id v.google_id

-- checkRowsAffected
unfoldable pub check_rows_affected : ℕ → App Unit
check_rows_affected zero = raise (of_user UserError.not_found)
check_rows_affected _ = pure tt

-- UPDATE users ... WHERE id = ..., with the number of affected rows.
unfoldable pub update_users : (ℕ → User → User) → Text → Stmt ℕ
update_users f id _ now db =
    (ok (count (by_id id) db.users), record db { users = update (by_id id) (f now) db.users })

unfoldable pub change_user : (ℕ → User → User) → Text → App Unit
unfolding update_users check_rows_affected
change_user f id = do n ← exec (update_users f id); check_rows_affected n

module _ (lower : Text → Text) where
  abbrev pub by_email : Text → User → Bool
  by_email address u = lower u.email == lower address

  -- UserRepository.FindByEmail
  unfoldable pub find_by_email : Text → App User
  find_by_email address =
      query λ db. or_err (find (by_email address) db.users) (of_user UserError.not_found)

  -- idx_users_email_lower
  abbrev pub clash_email : User → User → Bool
  clash_email u v = lower v.email == lower u.email

  -- The unique indexes of the table, with the primary key.
  abbrev pub is_taken : User → User → Bool
  is_taken n u = by_id n.id u || clash_email n u || clash_google n u

  -- The INSERT: the CHECK, then the unique indexes, whose errors are one error for the caller.
  unfoldable pub insert_user : NewUser → Stmt User
  insert_user n id now db =
      let row = new_row n id now in
      if not (has_credential row)
      then (err internal, db)
      else if any (is_taken row) db.users
      then (err (of_user UserError.email_taken), db)
      else (ok row, record db { users = db.users ++ row ∷ [] })

  -- UserRepository.Create
  unfoldable pub create : NewUser → App User
  unfolding insert_user
  create n = exec (insert_user n)
