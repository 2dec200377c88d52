-- ===== src/Auth/Session.antt =====
-- internal/auth/service.go: token pairs, their rotation, and the end of a session.
use olympiad_next.Prelude.{ℕ, Bool, true, false, not, List, [], ◌∷◌, ◌+◌, if◌then◌else◌}
use olympiad_next.Text.{Text, text_eq}
use olympiad_next.Errors.{Error, of_auth, AuthError, Result, ok, err}
use olympiad_next.Domain.User.{User}
use olympiad_next.Domain.Token.{RefreshToken, is_active}
use olympiad_next.Store.{App, pure, raise, lift, attempt, require, clock, ◌>>=◌, ◌>>◌, on_result}
use olympiad_next.Postgres
use olympiad_next.Auth.Outside.{Outside, spawn}
use olympiad_next.Auth.Jwt.{
  Manager, RefreshClaims, generate_access_token, generate_refresh_token, parse_refresh_token,
}

pub record TokenPair : Type 0 where
  pub access_token : Text
  pub access_token_expires_at : ℕ
  pub refresh_token : Text
  pub refresh_token_expires_at : ℕ

abbrev pub expired : Error
expired = of_auth AuthError.session_expired

-- errors.Is(err, token.ErrDuplicateTokenHash)
abbrev pub is_duplicate : Error → Bool
is_duplicate (of_auth AuthError.duplicate_token_hash) = true
is_duplicate _ = false

-- An error of Create, unless it is the duplicate, is the answer; whether it is one is kept.
abbrev pub unless_duplicate : Result RefreshToken → Result Bool
unless_duplicate (ok _) = ok false
unless_duplicate (err e) = if is_duplicate e then ok true else err e

-- The device of a login, which may be empty.
unfoldable pub bind_device : Text → Text → App Unit
bind_device user [] = pure tt
bind_device user (c ∷ s) = do
  Postgres.Users.Changes.update_active_device_fingerprint user (c ∷ s)
  spawn user (c ∷ s)

-- Service.upsertDeviceAsync: an error is only logged.
unfoldable pub upsert_device_async : Text → Text → App Unit
upsert_device_async user fingerprint = do
  _ ← attempt (Postgres.Tokens.upsert_device user fingerprint)
  pure tt

-- The first goroutine that has not run yet runs.
abbrev pub run_first : List (Text × Text) → App Unit
run_first [] w = (ok tt, w)
run_first ((user, fingerprint) ∷ rest) w =
    upsert_device_async user fingerprint (record w { spawned = rest })

unfoldable pub run_spawned : App Unit
run_spawned w = run_first w.spawned w

module _ (o : Outside) (m : Manager) where
  -- Service.issueTokenPair: the pair, and whether its row was there already.
  unfoldable pub issue_token_pair : Text → Text → Text → App (TokenPair × Bool)
  unfolding bind_device
  issue_token_pair user email fingerprint = do
    access ← generate_access_token o m user email
    refresh ← generate_refresh_token o m user
    now ← clock
    created ← attempt (
        Postgres.Tokens.create
          (record { user_id = user; token_hash = o.sha256_hex refresh.0; expires_at = refresh.1 }))
    duplicate ← lift (unless_duplicate created)
    bind_device user fingerprint
    pure (
      record {
        access_token = access;
        access_token_expires_at = now + m.access_ttl;
        refresh_token = refresh.0;
        refresh_token_expires_at = refresh.1;
      },
      duplicate,
    )

  -- Service.issueSessionAfterAuth: a duplicate is a success.
  unfoldable pub issue_session_after_auth : Text → Text → Text → App TokenPair
  issue_session_after_auth user email fingerprint = do
    issued ← issue_token_pair user email fingerprint
    pure issued.0

  -- A token is presented that has been used: all sessions of its user end.
  unfoldable pub reuse : RefreshToken → App TokenPair
  reuse stored = do _ ← attempt (Postgres.Tokens.revoke_all_for_user stored.user_id); raise expired

  -- The new pair of a rotation, where a duplicate is a spent token.
  unfoldable pub issue_rotated : User → App TokenPair
  unfolding issue_token_pair
  issue_rotated u = do
    issued ← issue_token_pair u.id u.email []
    require (not issued.1) expired
    pure issued.0

  -- Refresh, once the token and its user are read.
  unfoldable pub rotate : RefreshToken → User → App TokenPair
  unfolding reuse issue_rotated
  rotate stored u = do
    revoked ← Postgres.Tokens.revoke stored.id
    if not revoked then reuse stored else issue_rotated u

  -- An error of a lookup that the caller does not look at.
  abbrev pub or_expired {ℓ} : {A : Type ℓ} → Result A → Result A
  or_expired (ok a) = ok a
  or_expired (err _) = err expired

  -- Service.Refresh, at a row that is read.
  unfoldable pub refresh_stored : RefreshClaims → RefreshToken → App TokenPair
  unfolding reuse rotate
  refresh_stored claims stored = if stored.revoked then reuse stored else do
    now ← clock
    require (is_active now stored) expired
    found ← attempt (Postgres.Users.find_by_id claims.user_id)
    u ← lift (or_expired found)
    rotate stored u

  -- Service.Refresh
  unfoldable pub refresh : Text → App TokenPair
  unfolding refresh_stored
  refresh raw = do
    parsed ← attempt (parse_refresh_token o m raw)
    claims ← lift (or_expired parsed)
    found ← attempt (Postgres.Tokens.find_by_token_hash (o.sha256_hex raw))
    stored ← lift (or_expired found)
    refresh_stored claims stored

  -- Service.Logout: a token that is not found is no error.
  unfoldable pub logout : Text → App Unit
  logout raw = do
    found ← attempt (Postgres.Tokens.find_by_token_hash (o.sha256_hex raw))
    on_result found (λ _. pure tt) λ stored. do _ ← Postgres.Tokens.revoke stored.id; pure tt
