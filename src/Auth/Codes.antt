-- ===== src/Auth/Codes.antt =====
-- The codes that verify an e-mail address.
use olympiad_next.Prelude.{
  ℕ, zero, suc, ◌≡◌, ◌≤◌, ◌<◌, ◌+◌, sym, ap, subst, ◌∙◌, true, none, some, Option, refl, ◌==◌, ltb,
  ltb→lt, ◌∷◌, find, length, All, arith, Option-cases, inl, inr, ◌⊎◌,
}
use olympiad_next.Text.{Text, text_eq, eq_text_iff}
use olympiad_next.Errors.{ok, of_user, UserError}
use olympiad_next.Domain.User.{User}
use olympiad_next.Store.{World, attempt, lift, clock, ◌>>=◌}
use olympiad_next.Store.Answers.{
  Ensures, Ensures-bind, Ensures-if, Ensures-require, Ensures-on_result, Ensures-raise, attempt-ok,
  found-row,
}
use olympiad_next.Postgres.Users.{by_email, find_by_email}
use olympiad_next.Auth.Outside.{Outside, moment}
use olympiad_next.Auth.Otp.{draw, digit, generate_otp_code, accepts, verify_found, verify_email_otp}

-- crypto/rand.Int answers below its bound.
abbrev pub DrawsDigits : Outside → Type 0
DrawsDigits o = (step i d : ℕ) → o.random_digit step i ≡ some d → d < 10

-- An ASCII digit.
abbrev pub IsDigit : ℕ → Type 0
IsDigit c = (48 ≤ c) × (c ≤ 57)

module _ (o : Outside) where
  draw-digits :
      (digits : DrawsDigits o) (step i n : ℕ) (s : Text)
      → draw o step i n ≡ some s
      → (length s ≡ n) × All IsDigit s
  unfolding draw
  draw-digits digits step i zero s h = ground arith
  draw-digits digits step i (suc n) s h = elim (Option-cases (o.random_digit step i)) [
    | inl failed ↦ ground (arith, failed)
    | inr (d, drawn) ↦ elim (Option-cases (draw o step (i + 1) n)) [
      | inl failed ↦ ground (arith, failed, drawn)
      | inr (rest, later) ↦
          let (size, ascii) = draw-digits digits step (i + 1) n rest later in
          let whole : s ≡ digit d ∷ rest = ground (arith, drawn, later) in
          let below = digits step i d drawn in
          rw whole (ap suc size, ((omega arith, omega arith), ascii))
    ]
  ]

  -- Every code that is drawn has six digits.
  pub generate_otp_code-IsCode :
      (digits : DrawsDigits o) (code : Text) (w : World)
      → (generate_otp_code o w).0 ≡ ok code
      → (length code ≡ 6) × All IsDigit code
  unfolding generate_otp_code moment lift ◌>>=◌
  generate_otp_code-IsCode digits code w h = draw-digits digits w.step 0 6 code (ground arith)

  clock-ok : (w : World) (now : ℕ) → (clock w).0 ≡ ok now → now ≡ w.now
  unfolding clock
  clock-ok w now e = ground arith

  -- The account is verified already, or has the code, which has not expired.
  abbrev pub IsKnown : ℕ → Text → User → Type 0
  IsKnown now code u =
      (u.email_verified ≡ true)
      ⊎ ((expires : ℕ) × (u.email_otp ≡ some code)
          × (u.email_otp_expiry ≡ some expires)
          × (now < expires))

  accepts-ok :
      (now : ℕ) (code : Text) (otp : Option Text) (expiry : Option ℕ)
      → accepts now code otp expiry ≡ true
      → (expires : ℕ) × (otp ≡ some code) × (expiry ≡ some expires) × (now < expires)
  accepts-ok now code none expiry h = cc
  accepts-ok now code (some stored) none h = cc
  accepts-ok now code (some stored) (some expires) h =
      let same : stored == code ≡ true = ground arith in
      let early : ltb now expires ≡ true = ground arith in
      (expires, ap some ((eq_text_iff stored code).0 same), refl, ltb→lt now expires early)

  found-Ensures :
      (u : User) (code : Text) (w : World)
      → Ensures (verify_found o u code) w (λ _ _. IsKnown w.now code u)
  unfolding verify_found
  found-Ensures u code w =
      Ensures-if u.email_verified _ _ w (λ e. record { of = λ _ _. inl e })
        λ _. Ensures-bind _ _ w λ now e. Ensures-require _ _ _ _ λ good.
          let known : IsKnown w.now code u = inr (
            accepts-ok w.now code u.email_otp u.email_otp_expiry (
              ap (λ t. accepts t code u.email_otp u.email_otp_expiry) (sym (clock-ok w now e))
              ∙ good)) in
          record { of = λ _ _. known }

  verify-Ensures :
      (email code : Text) (w : World)
      → Ensures (verify_email_otp o email code) w (λ _ _.
        (u : User) × (find (by_email o.lower email) w.db.users ≡ some u) × IsKnown w.now code u)
  unfolding verify_email_otp find_by_email attempt
  verify-Ensures email code w = Ensures-bind _ _ w λ found e.
      Ensures-on_result found _ _ _ (λ x bad. Ensures-raise _ _)
        λ u good.
          let (there, left) =
            found-row (λ db. find (by_email o.lower email) db.users) (of_user UserError.not_found) w
              u (attempt-ok (find_by_email o.lower email) w found e ∙ good) in
          record {
            of = λ _ h. (
              u,
              there,
              subst (λ v. IsKnown v.now code u) left ((found-Ensures u code _).of tt h),
            );
          }

  -- VerifyEmailOTP, whatever the server does: it succeeds only for an account of the address that is
  -- verified already, or whose stored code is the one given and has not expired.
  pub verify_email_otp-IsKnown :
      (email code : Text) (w : World)
      → (verify_email_otp o email code w).0 ≡ ok tt
      → (u : User) × (find (by_email o.lower email) w.db.users ≡ some u) × IsKnown w.now code u
  verify_email_otp-IsKnown email code w h = (verify-Ensures email code w).of tt h
