-- ===== src/Domain/Token.antt =====
-- internal/domain/token: a refresh token as it is stored, by its hash.
use olympiad_next.Prelude.{ℕ, Bool, true, false, ◌&&◌, Option, none, some, ltb}
use olympiad_next.Text.{Text}

-- ExpiresAt, CreatedAt and RevokedAt are instants in nanoseconds.
pub record RefreshToken : Type 0 where
  pub id : Text
  pub user_id : Text
  pub token_hash : Text
  pub expires_at : ℕ
  pub created_at : ℕ
  pub revoked_at : Option ℕ
  pub revoked : Bool

-- `r.RevokedAt == nil`
abbrev pub is_unrevoked : RefreshToken → Bool
is_unrevoked t = elim t.revoked_at [ none ↦ true | some _ ↦ false ]

-- RefreshToken.IsActive
unfoldable pub is_active : ℕ → RefreshToken → Bool
is_active now t = is_unrevoked t && ltb now t.expires_at
