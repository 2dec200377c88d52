-- ===== src/Postgres/Tokens.antt =====
-- refresh_token_repository.go over the table refresh_tokens, and device_repository.go over user_devices.
use olympiad_next.Prelude.{
  ℕ, Bool, true, false, not, ◌&&◌, none, some, [], ◌∷◌, ◌++◌, find, any, ◌==◌, nat_eq,
  if◌then◌else◌,
}
use olympiad_next.Text.{Text, text_eq}
use olympiad_next.Errors.{internal, no_rows, of_auth, AuthError, ok, err}
use olympiad_next.Domain.Token.{RefreshToken, is_unrevoked}
use olympiad_next.Domain.Device.{Device}
use olympiad_next.Store.{App, Stmt, exec, query, pure, ◌>>=◌}
use olympiad_next.Store.Rows.{or_err, update, count}
use olympiad_next.Postgres.Users.{exists_user}

abbrev pub by_id : Text → RefreshToken → Bool
by_id id t = t.id == id

abbrev pub by_hash : Text → RefreshToken → Bool
by_hash hash t = t.token_hash == hash

-- The columns that the caller supplies to Create.
pub record NewToken : Type 0 where
  pub user_id : Text
  pub token_hash : Text
  pub expires_at : ℕ

abbrev pub new_row : NewToken → Text → ℕ → RefreshToken
new_row n id now = record {
  id = id;
  user_id = n.user_id;
  token_hash = n.token_hash;
  expires_at = n.expires_at;
  created_at = now;
  revoked_at = none;
  revoked = false;
}

-- The INSERT: the primary key, the unique index on the hash, the foreign key.
unfoldable pub insert_token : NewToken → Stmt RefreshToken
insert_token n id now db =
    if any (by_id id) db.refresh_tokens
    then (err internal, db)
    else if any (by_hash n.token_hash) db.refresh_tokens
    then (err (of_auth AuthError.duplicate_token_hash), db)
    else if not (exists_user n.user_id db)
    then (err internal, db)
    else (
      ok (new_row n id now),
      record db { refresh_tokens = db.refresh_tokens ++ new_row n id now ∷ [] },
    )

-- RefreshTokenRepository.Create
unfoldable pub create : NewToken → App RefreshToken
unfolding insert_token
create n = exec (insert_token n)

-- RefreshTokenRepository.FindByTokenHash
unfoldable pub find_by_token_hash : Text → App RefreshToken
find_by_token_hash hash = query λ db. or_err (find (by_hash hash) db.refresh_tokens) no_rows

-- The column `revoked` is generated from `revoked_at`.
abbrev pub revoked_row : ℕ → RefreshToken → RefreshToken
revoked_row now t = record t { revoked_at = some now; revoked = true }

abbrev pub unrevoked_by_id : Text → RefreshToken → Bool
unrevoked_by_id id t = by_id id t && is_unrevoked t

unfoldable pub revoke_stmt : Text → Stmt ℕ
revoke_stmt id _ now db = (
  ok (count (unrevoked_by_id id) db.refresh_tokens),
  record db { refresh_tokens = update (unrevoked_by_id id) (revoked_row now) db.refresh_tokens },
)

-- RefreshTokenRepository.Revoke: whether this call has revoked the token.
unfoldable pub revoke : Text → App Bool
unfolding revoke_stmt
revoke id = do n ← exec (revoke_stmt id); pure (n == 1)

abbrev pub unrevoked_of : Text → RefreshToken → Bool
unrevoked_of user t = t.user_id == user && is_unrevoked t

unfoldable pub revoke_all_stmt : Text → Stmt Unit
revoke_all_stmt user _ now db = (
  ok tt,
  record db { refresh_tokens = update (unrevoked_of user) (revoked_row now) db.refresh_tokens },
)

-- RefreshTokenRepository.RevokeAllForUser
unfoldable pub revoke_all_for_user : Text → App Unit
unfolding revoke_all_stmt
revoke_all_for_user user = exec (revoke_all_stmt user)

abbrev pub same_device : Text → Text → Device → Bool
same_device user fingerprint d = d.user_id == user && d.device_fingerprint == fingerprint

abbrev pub new_device : Text → Text → Text → ℕ → Device
new_device user fingerprint id now = record {
  id = id;
  user_id = user;
  device_fingerprint = fingerprint;
  last_login_at = now;
  created_at = now;
}

abbrev pub seen_again : ℕ → Device → Device
seen_again now d = record d { last_login_at = now }

-- INSERT ... ON CONFLICT (user_id, device_fingerprint) DO UPDATE, under the foreign key.
unfoldable pub upsert_stmt : Text → Text → Stmt Unit
upsert_stmt user fingerprint id now db =
    if any (same_device user fingerprint) db.devices
    then (
      ok tt,
      record db { devices = update (same_device user fingerprint) (seen_again now) db.devices },
    )
    else if any (λ d. d.id == id) db.devices
    then (err internal, db)
    else if not (exists_user user db)
    then (err internal, db)
    else (ok tt, record db { devices = db.devices ++ new_device user fingerprint id now ∷ [] })

-- DeviceRepository.UpsertDevice
unfoldable pub upsert_device : Text → Text → App Unit
unfolding upsert_stmt
upsert_device user fingerprint = exec (upsert_stmt user fingerprint)
