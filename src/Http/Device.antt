-- ===== src/Http/Device.antt =====
-- One device at a time: a login from another device ends the session of the first.
use olympiad_next.Prelude.{
  ℕ, ◌≡◌, ◌≢◌, refl, sym, ap, ◌∙◌, false, some, [], ◌∷◌, find, arith, Bool-cases, inl, inr, ◌⊎◌,
  ◌==◌, ==_iff,
}
use olympiad_next.Text.{Text, text_eq, or_empty}
use olympiad_next.Errors.{ok, of_user, UserError}
use olympiad_next.Domain.User.{User}
use olympiad_next.Store.{World, pure, lift, clock, ◌>>=◌}
use olympiad_next.Store.Answers.{Ensures, Ensures-bind, found-row}
use olympiad_next.Postgres
use olympiad_next.Postgres.Users.Changed.{change_user-Ensures}
use olympiad_next.Postgres.Users.Changes.{with_device}
use olympiad_next.Postgres.Users.{by_id, find_by_id, get_active_device_fingerprint}
use olympiad_next.Auth.Outside.{Outside, spawn}
use olympiad_next.Auth.Jwt.{Manager, AccessClaims, parse_access_token}
use olympiad_next.Auth.Session.{TokenPair, bind_device, issue_token_pair, issue_session_after_auth}
use olympiad_next.Http.{done, Handler, Delivers, Delivers-call, Delivers-refuse, Delivers-if}
use olympiad_next.Http.Gates.{extract_bearer_token, is_superseded, require_access_token}

filled_in : (raw : Text) → (raw == []) ≡ false → raw ≢ []
filled_in raw h e = ground (arith, ==_iff raw [])

module _ (o : Outside) (m : Manager) where
  -- The request has a token that is signed and has not expired, for an account whose active device, if it
  -- has one, is the one that the request names.
  pub record MayPass (authorization fingerprint : Text) (w : World) (claims : AccessClaims)
      : Type 0 where
    pub bearer : extract_bearer_token authorization ≢ []
    pub signed : (parse_access_token o m (extract_bearer_token authorization) w).0 ≡ ok claims
    pub account : User
    pub known : find (by_id claims.user_id) w.db.users ≡ some account
    pub device :
        (or_empty account.active_device_fingerprint ≡ [])
        ⊎ (fingerprint ≡ or_empty account.active_device_fingerprint)

  current_device :
      (active : Text) (u : User) (fingerprint : Text)
      → or_empty u.active_device_fingerprint ≡ active
      → is_superseded active fingerprint ≡ false
      → (or_empty u.active_device_fingerprint ≡ [])
        ⊎ (fingerprint ≡ or_empty u.active_device_fingerprint)
  current_device active u fingerprint named current = elim (Bool-cases (active == [])) [
    | inl e ↦ inl (named ∙ (==_iff active []).0 e)
    | inr ne ↦ inr ((==_iff fingerprint active).0 (ground (arith, ne, current)) ∙ sym named)
  ]

  pub parse-left : (raw : Text) (w : World) → (parse_access_token o m raw w).1 ≡ w
  unfolding parse_access_token clock lift pure ◌>>=◌
  parse-left raw w = ground arith

  active-Ensures :
      (id : Text) (w : World)
      → Ensures (get_active_device_fingerprint id) w (λ a left.
        (u : User) × (find (by_id id) w.db.users ≡ some u)
        × (or_empty u.active_device_fingerprint ≡ a)
        × (left.db ≡ w.db))
  unfolding get_active_device_fingerprint find_by_id pure
  active-Ensures id w = Ensures-bind _ _ w λ u e. record {
    of = λ a h.
        let (there, left) =
          found-row (λ db. find (by_id id) db.users) (of_user UserError.not_found) w u e in
        (u, there, ground arith, ap (λ v. v.db) left);
  }

  -- The tests of the middleware, each passed.
  pub passes-MayPass :
      (authorization fingerprint : Text) (claims : AccessClaims) (active : Text) (w : World)
      → let raw = extract_bearer_token authorization in
        let w1 = (parse_access_token o m raw w).1 in
        (raw == []) ≡ false
        → (parse_access_token o m raw w).0 ≡ ok claims
        → (get_active_device_fingerprint claims.user_id w1).0 ≡ ok active
        → is_superseded active fingerprint ≡ false
        → MayPass authorization fingerprint w claims
          × ((get_active_device_fingerprint claims.user_id w1).1.db ≡ w.db)
  passes-MayPass authorization fingerprint claims active w filled signed read current =
      let raw = extract_bearer_token authorization in
      let w1 : World = (parse_access_token o m raw w).1 in
      let same : w1 ≡ w = parse-left raw w in
      let (u, known, named, kept) = (active-Ensures claims.user_id w1).of active read in
      (
        record {
          bearer = filled_in raw filled;
          signed = signed;
          account = u;
          known = ap (λ v. find (by_id claims.user_id) v.db.users) (sym same) ∙ known;
          device = current_device active u fingerprint named current;
        },
        kept ∙ ap (λ v. v.db) same,
      )

  gate-Delivers :
      {A : Type 0} (authorization fingerprint : Text) (next : AccessClaims → Handler A) (w : World)
      → Delivers (require_access_token o m authorization fingerprint next) w λ s a _.
        (claims : AccessClaims) × MayPass authorization fingerprint w claims
        × ((left : World) × (left.db ≡ w.db) × ((next claims left).0 ≡ done s a))
  unfolding require_access_token
  gate-Delivers authorization fingerprint next w =
      Delivers-if _ _ _ w (λ _. Delivers-refuse _ _ _)
        λ filled.
          Delivers-call _ _ _ w (λ _ _. Delivers-refuse _ _ _)
            λ claims signed.
              Delivers-call _ _ _ _ (λ _ _. Delivers-refuse _ _ _)
                λ active read.
                  Delivers-if _ _ _ _ (λ _. Delivers-refuse _ _ _)
                    λ current.
                      let w1 : World =
                        (parse_access_token o m (extract_bearer_token authorization) w).1 in
                      let (may, kept) =
                        passes-MayPass authorization fingerprint claims active w filled signed read
                          current in
                      record {
                        of = λ s a h. (
                          claims,
                          may,
                          ((get_active_device_fingerprint claims.user_id w1).1, kept, h),
                        );
                      }

  -- The account of the session has the device of the login as its active one.
  bind-Ensures :
      (user device : Text) (w : World)
      → device ≢ []
      → Ensures (bind_device user device) w (λ _ left.
        (u : User) × (find (by_id user) left.db.users ≡ some u)
        × (u.active_device_fingerprint ≡ some device))
  unfolding bind_device Postgres.Users.Changes.update_active_device_fingerprint spawn
  bind-Ensures user [] w named = absurd (named refl)
  bind-Ensures user (c ∷ s) w named = Ensures-bind _ _ w λ x e. record {
    of = λ _ h.
        let (u, there, now) =
          (change_user-Ensures (with_device (c ∷ s)) user (λ _ _. refl) w).of tt e in
        (with_device (c ∷ s) w.now u, now, refl);
  }

  session-Ensures :
      (user email device : Text) (w : World)
      → device ≢ []
      → Ensures (issue_session_after_auth o m user email device) w (λ _ left.
        (u : User) × (find (by_id user) left.db.users ≡ some u)
        × (u.active_device_fingerprint ≡ some device))
  unfolding issue_session_after_auth issue_token_pair pure
  session-Ensures user email device w named = Ensures-bind _ _ w λ issued e. record {
    of = λ _ _.
        (Ensures-bind
            {P = λ _ left.
              (u : User) × (find (by_id user) left.db.users ≡ some u)
              × (u.active_device_fingerprint ≡ some device)}
            _ _ w
            λ _ _. Ensures-bind _ _ _ λ _ _. Ensures-bind _ _ _ λ _ _. Ensures-bind _ _ _ λ _ _.
              Ensures-bind _ _ _ λ _ _.
                Ensures-bind _ _ _ λ _ bound. record {
                  of = λ _ _. (bind-Ensures user device _ named).of tt bound;
                }).of
          issued e;
  }

  -- A login from a device shuts out every other device, whatever the server does: once it has answered with
  -- a pair, no request of another device passes RequireAccessToken with a token of the account.
  pub session-one_device :
      {A : Type 0} (user email device other authorization : Text) (w : World) (pair : TokenPair)
      (claims : AccessClaims) (next : AccessClaims → Handler A) (s : ℕ) (a : A)
      → device ≢ []
      → other ≢ device
      → (issue_session_after_auth o m user email device w).0 ≡ ok pair
      → let left = (issue_session_after_auth o m user email device w).1 in
        (parse_access_token o m (extract_bearer_token authorization) left).0 ≡ ok claims
        → claims.user_id ≡ user
        → (require_access_token o m authorization other next left).0 ≢ done s a
  session-one_device user email device other authorization w pair claims next s a named differs
        first signed owner passed =
      let left = (issue_session_after_auth o m user email device w).1 in
      let (u, there, active) = (session-Ensures user email device w named).of pair first in
      let (own, may, ran) = (gate-Delivers authorization other next left).of s a passed in
      let mine : own.user_id ≡ user = ground (arith, may.signed, signed, owner) in
      let found : find (by_id user) left.db.users ≡ some may.account =
        ap (λ i. find (by_id i) left.db.users) (sym mine) ∙ may.known in
      let same : may.account.active_device_fingerprint ≡ some device =
        ground (arith, found, there, active) in
      let stored = ap or_empty same in
      elim may.device [
        | inl empty ↦ named (sym stored ∙ empty)
        | inr equal ↦ differs (equal ∙ stored)
      ]
