-- ===== src/Http/Reviewed.antt =====
-- A verified account has the level and the school that an administrator has reviewed.
use olympiad_next.Prelude.{
  ℕ, ◌≡◌, refl, subst, ◌∙◌, true, false, not, ◌&&◌, some, [], find, arith, ◌==◌, ==_iff,
  if◌then◌else◌, find-passes,
}
use olympiad_next.Text.{Text, text_eq, lit, or_empty}
use olympiad_next.Text.Trim.{trim_space}
use olympiad_next.Errors.{Error, of_user, UserError, is_user_not_found}
use olympiad_next.Domain.User.{User, is_verified}
use olympiad_next.Store.{Tables, World, exec}
use olympiad_next.Store.Rows.{find-update}
use olympiad_next.Store.Keeps.{Keeps, KeepsAt, KeepsAt-exec}
use olympiad_next.Store.Answers.{found-row}
use olympiad_next.Postgres.Users.{by_id, find_by_id}
use olympiad_next.Postgres.Users.Lift.{find_by_id-Keeps}
use olympiad_next.Postgres.Users.Changes.{onboard, onboarded_row, submit_onboarding_profile}
use olympiad_next.Auth.Jwt.{AccessClaims}
use olympiad_next.Http.{
  refuse, answer, call, Leaves, Leaves-call, Leaves-refuse, Leaves-answer, Leaves-if,
}
use olympiad_next.Http.Files.{is_owned_user_file_url}
use olympiad_next.Http.Profile.{
  SubmitProfileRequest, Fields, Checked, good, bad, validate_profile_fields,
  requires_new_verification_doc, user_error, profile_of, submit_checked, submit_fields,
  submit_profile,
}

-- The row `v` is verified only if `u` was, with the same level and school.
pub record StaysReviewed (u v : User) : Type 0 where
  pub verified : is_verified v.verification_status ≡ true → is_verified u.verification_status ≡ true
  pub level : is_verified v.verification_status ≡ true → or_empty v.level ≡ or_empty u.level
  pub school :
      is_verified v.verification_status ≡ true
      → or_empty v.institution_name ≡ or_empty u.institution_name

-- The account that was `u` is there, and stays reviewed.
abbrev pub IsReviewed : Text → User → Tables → Type 0
IsReviewed id u db = (v : User) × (find (by_id id) db.users ≡ some v) × StaysReviewed u v

module _ (id : Text) (u : User) where
  unchanged : (w : World) → find (by_id id) w.db.users ≡ some u → IsReviewed id u w.db
  unchanged w there =
      (u, there, record { verified = λ h. h; level = λ _. refl; school = λ _. refl })

  -- A row that is onboarded without a new document has the level and the school that it had.
  onboarded-StaysReviewed :
      (f : Fields) (doc picture : Text) (now : ℕ)
      → requires_new_verification_doc
          (or_empty u.level)
          (or_empty u.institution_name)
          f.level
          f.institution
          doc
        ≡ false
      → StaysReviewed u (onboarded_row (profile_of f doc picture) now u)
  unfolding requires_new_verification_doc
  onboarded-StaysReviewed f doc picture now h = record {
    verified = λ v. ground arith;
    level = λ v. ground (arith, ==_iff f.level (or_empty u.level));
    school = λ v. ground (arith, ==_iff f.institution (or_empty u.institution_name));
  }

  stored-IsReviewed :
      (f : Fields) (doc picture : Text) (w : World)
      → find (by_id id) w.db.users ≡ some u
      → requires_new_verification_doc
          (or_empty u.level)
          (or_empty u.institution_name)
          f.level
          f.institution
          doc
        ≡ false
      → IsReviewed id u (submit_onboarding_profile id (profile_of f doc picture) w).1.db
  unfolding submit_onboarding_profile onboard
  stored-IsReviewed f doc picture w there h =
      let g = onboarded_row (profile_of f doc picture) in
      let kept : KeepsAt (IsReviewed id u) (exec (onboard id (profile_of f doc picture))) w =
        KeepsAt-exec (onboard id (profile_of f doc picture)) w λ _. (
          g w.now u,
          find-update (by_id id) (by_id id) (g w.now) w.db.users (λ _. refl)
              ∙ ground (arith, there, find-passes (by_id id) w.db.users u there),
          onboarded-StaysReviewed f doc picture w.now h,
        ) in
      kept.kept (unchanged w there)

  user_error-Leaves :
      {A : Type 0} (e : Error) (w : World)
      → IsReviewed id u w.db
      → Leaves (user_error {A = A} e) w (IsReviewed id u)
  unfolding user_error
  user_error-Leaves e w h =
      Leaves-if (is_user_not_found e) _ _ w (λ _. Leaves-refuse _ _ _ h)
        (λ _. Leaves-refuse _ _ _ h)

  checked-Leaves :
      (f : Fields) (doc picture : Text) (w : World)
      → find (by_id id) w.db.users ≡ some u
      → Leaves (submit_checked id f doc picture u) w (IsReviewed id u)
  unfolding submit_checked
  checked-Leaves f doc picture w there =
      let store =
        call (submit_onboarding_profile id (profile_of f doc picture)) user_error
          λ s. answer 200 s in
      let own_picture =
        if not (picture == []) && not (is_owned_user_file_url picture id)
        then refuse 400 (lit "profile_picture must be a file you uploaded")
        else store in
      let same_school =
        if requires_new_verification_doc (or_empty u.level) (or_empty u.institution_name) f.level
          f.institution doc
        then refuse 400
            (lit "changing your level or school requires submitting a new verification document")
        else own_picture in
      let before = unchanged w there in
      Leaves-if (not (doc == []) && not (is_owned_user_file_url doc id)) _ same_school w
        (λ _. Leaves-refuse _ _ _ before)
        λ _.
          Leaves-if _ _ own_picture w (λ _. Leaves-refuse _ _ _ before)
            λ settled.
              Leaves-if (not (picture == []) && not (is_owned_user_file_url picture id)) _ store w
                (λ _. Leaves-refuse _ _ _ before)
                λ _.
                  let after = stored-IsReviewed f doc picture w there settled in
                  Leaves-call _ _ _ w (λ e _. user_error-Leaves e _ after)
                    λ status _. Leaves-answer _ _ _ after

  fields-Leaves :
      (c : Checked) (doc picture : Text) (w : World)
      → find (by_id id) w.db.users ≡ some u
      → Leaves (submit_fields id c doc picture) w (IsReviewed id u)
  unfolding submit_fields find_by_id
  fields-Leaves (bad message) doc picture w there = Leaves-refuse _ _ _ (unchanged w there)
  fields-Leaves (good f) doc picture w there =
      let kept : Keeps (λ db. find (by_id id) db.users ≡ some u) (find_by_id id) =
        find_by_id-Keeps id in
      let left : World = (find_by_id id w).1 in
      let still = kept.at w there in
      Leaves-call _ _ _ w (λ e _. user_error-Leaves e left (unchanged left still))
        λ current read.
          let (known, _) =
            found-row (λ db. find (by_id id) db.users) (of_user UserError.not_found) w current
              read in
          let same : u ≡ current = ground (arith, known, there) in
          subst (λ x. Leaves (submit_checked id f doc picture x) left (IsReviewed id u)) same
            (checked-Leaves f doc picture left still)

-- SubmitProfile, whatever the server does and whatever it answers: an account that is verified afterwards
-- was verified before, with the same level and the same school.
pub submit_profile-IsReviewed :
    (claims : AccessClaims) (req : SubmitProfileRequest) (u : User) (w : World)
    → find (by_id claims.user_id) w.db.users ≡ some u
    → IsReviewed claims.user_id u (submit_profile (some claims) req w).1.db
unfolding submit_profile
submit_profile-IsReviewed claims req u w there =
    (fields-Leaves claims.user_id u
      (validate_profile_fields req.full_name req.institution_name req.level req.medium)
      (trim_space req.verification_doc) (trim_space req.profile_picture) w there).of
