-- ===== src/Http/Admin.antt =====
-- Every route under /api/admin of server/router.go: the two gates before its handler.
use olympiad_next.Prelude.{
  ℕ, suc, ◌≡◌, refl, ap, ◌∙◌, Bool, true, false, some, find, arith, ◌⊎◌, inl, inr, if◌then◌else◌,
}
use olympiad_next.Text.{Text, text_eq}
use olympiad_next.Errors.{Error, Result-cases, ok, err, of_user, UserError}
use olympiad_next.Store.{World, App, pure, ◌>>=◌}
use olympiad_next.Store.Rows.{or_err}
use olympiad_next.Store.Answers.{query-left}
use olympiad_next.Postgres.Users.{by_id, find_by_id, get_active_device_fingerprint, get_role}
use olympiad_next.Auth.Outside.{Outside}
use olympiad_next.Auth.Jwt.{Manager, AccessClaims, parse_access_token}
use olympiad_next.Http.{Reply, refused, Handler, refuse, call}
use olympiad_next.Http.Gates.{
  extract_bearer_token, is_admin_role, require_access_token, require_admin,
}
use olympiad_next.Http.Device.{MayPass, parse-left, passes-MayPass}
use olympiad_next.Http.Owners.{role-Ensures, not-false}

-- The route of a handler under /api/admin, at the headers Authorization and X-Device-Fingerprint.
unfoldable pub admin_route : {A : Type 0} → Outside → Manager → Text → Text → Handler A → Handler A
unfolding require_access_token require_admin
admin_route o m authorization fingerprint next =
    require_access_token o m authorization fingerprint λ claims. require_admin (some claims) next

-- From the world `w`, whose tables are those of `start`, the handler refuses and leaves them as they were,
-- or what it does is `P`.
pub record Passes {A : Type 0} (start : World) (h : Handler A) (w : World)
    (P : Reply A × World → Type 0) : Type 0 where
  pub of :
      ((s : ℕ) × (message : Text) × ((h w).0 ≡ refused s message) × ((h w).1.db ≡ start.db))
      ⊎ P (h w)

module _ {A B : Type 0} {P : Reply B × World → Type 0} (start : World) where
  Passes-call :
      (m : App A) (bad : Error → Handler B) (good : A → Handler B) (w : World)
      → ((e : Error) → (m w).0 ≡ err e → Passes start (bad e) (m w).1 P)
      → ((a : A) → (m w).0 ≡ ok a → Passes start (good a) (m w).1 P)
      → Passes start (call m bad good) w P
  unfolding call
  Passes-call m bad good w kb kg = elim (Result-cases (m w).0) [
    | inl (e, failed) ↦ record { of = rw failed ((kb e failed).of) }
    | inr (a, answered) ↦ record { of = rw answered ((kg a answered).of) }
  ]

module _ {A : Type 0} {P : Reply A × World → Type 0} (start : World) where
  Passes-refuse :
      (status : ℕ) (message : Text) (w : World)
      → w.db ≡ start.db
      → Passes start (refuse status message) w P
  unfolding refuse
  Passes-refuse status message w h = record { of = inl (status, message, refl, h) }

  Passes-if :
      (t : Bool) (on off : Handler A) (w : World)
      → (t ≡ true → Passes start on w P)
      → (t ≡ false → Passes start off w P)
      → Passes start (if t then on else off) w P
  Passes-if true on off w k l = k refl
  Passes-if false on off w k l = l refl

found_by_id-left : (id : Text) (w : World) → (find_by_id id w).1 ≡ record w { step = suc w.step }
unfolding find_by_id
found_by_id-left id w =
    query-left (λ db. or_err (find (by_id id) db.users) (of_user UserError.not_found)) w

active-left : (id : Text) (w : World) → (get_active_device_fingerprint id w).1.db ≡ w.db
unfolding get_active_device_fingerprint pure ◌>>=◌
active-left id w = elim (Result-cases (find_by_id id w).0) [
  | inl (e, failed) ↦ rw failed (ap (λ v. v.db) (found_by_id-left id w))
  | inr (u, there) ↦ rw there (ap (λ v. v.db) (found_by_id-left id w))
]

role-left : (id : Text) (w : World) → (get_role id w).1.db ≡ w.db
unfolding get_role pure ◌>>=◌
role-left id w = elim (Result-cases (find_by_id id w).0) [
  | inl (e, failed) ↦ rw failed (ap (λ v. v.db) (found_by_id-left id w))
  | inr (u, there) ↦ rw there (ap (λ v. v.db) (found_by_id-left id w))
]

module _ (o : Outside) (m : Manager) where
  -- The request may pass, and its account has the admin role.
  pub record MayAdminister (authorization fingerprint : Text) (w : World) : Type 0 where
    pub claims : AccessClaims
    pub may : MayPass o m authorization fingerprint w claims
    pub granted : is_admin_role may.account.role ≡ true

  -- The handler behind the gates runs, on the tables as they were, and says what the route says.
  abbrev pub Administers : {A : Type 0} → Text → Text → Handler A → World → Reply A × World → Type 0
  Administers authorization fingerprint next w r =
      MayAdminister authorization fingerprint w
      × ((left : World) × (left.db ≡ w.db) × (r ≡ next left))

  role-known :
      (claims : AccessClaims) (authorization fingerprint : Text) (w v : World)
      (may : MayPass o m authorization fingerprint w claims) (role : _)
      → v.db ≡ w.db
      → (get_role claims.user_id v).0 ≡ ok role
      → may.account.role ≡ role
  role-known claims authorization fingerprint w v may role same read =
      let (u, known, is) = (role-Ensures o m claims.user_id v).of role read in
      ground (arith, known, may.known, is, same)

  gate-Passes :
      {A : Type 0} (authorization fingerprint : Text) (next : Handler A) (w : World)
      → Passes w
          (admin_route o m authorization fingerprint next)
          w
          (Administers authorization fingerprint next w)
  unfolding admin_route require_access_token require_admin
  gate-Passes authorization fingerprint next w =
      let raw = extract_bearer_token authorization in
      let w1 : World = (parse_access_token o m raw w).1 in
      let same : w1.db ≡ w.db = ap (λ v. v.db) (parse-left o m raw w) in
      Passes-if w _ _ _ w (λ _. Passes-refuse w _ _ _ refl)
        λ filled.
          Passes-call w _ _ _ w (λ _ _. Passes-refuse w _ _ _ same)
            λ claims signed.
              Passes-call w _ _ _ w1
                (λ _ _. Passes-refuse w _ _ _ (active-left claims.user_id w1 ∙ same))
                λ active read.
                  let w2 : World = (get_active_device_fingerprint claims.user_id w1).1 in
                  let kept : w2.db ≡ w.db = active-left claims.user_id w1 ∙ same in
                  Passes-if w _ _ _ w2 (λ _. Passes-refuse w _ _ _ kept)
                    λ current.
                      let (may, _) =
                        passes-MayPass o m authorization fingerprint claims active w filled signed
                          read current in
                      let w3 : World = (get_role claims.user_id w2).1 in
                      let end : w3.db ≡ w.db = role-left claims.user_id w2 ∙ kept in
                      Passes-call w _ _ _ w2 (λ _ _. Passes-refuse w _ _ _ end)
                        λ role looked.
                          Passes-if w _ _ _ w3 (λ _. Passes-refuse w _ _ _ end)
                            λ admin. record {
                              of = inr (
                                record {
                                  claims = claims;
                                  may = may;
                                  granted =
                                      ap is_admin_role (
                                        role-known claims authorization fingerprint w w2 may role
                                          kept looked)
                                      ∙ not-false (is_admin_role role) admin;
                                },
                                (w3, end, refl),
                              );
                            }

  -- A route under /api/admin, for any handler and whatever the server does: it refuses and changes no
  -- table, or the request has a good token of an account that is an administrator's in the tables, and
  -- whose active device, if it has one, is the one that the request names; the handler has then run on the
  -- tables as they were.
  pub admin_route-Administers :
      {A : Type 0} (authorization fingerprint : Text) (next : Handler A) (w : World)
      → let r = admin_route o m authorization fingerprint next w in
        ((s : ℕ) × (message : Text) × (r.0 ≡ refused s message) × (r.1.db ≡ w.db))
        ⊎ Administers authorization fingerprint next w r
  admin_route-Administers authorization fingerprint next w =
      (gate-Passes authorization fingerprint next w).of
