-- ===== src/Auth/Jwt.antt =====
-- internal/auth/jwt/jwt.go: the two kinds of token.
use olympiad_next.Prelude.{ℕ, Option, none, some, ◌+◌}
use olympiad_next.Text.{Text, or_empty}
use olympiad_next.Errors.{of_auth, AuthError, Result, ok, err}
use olympiad_next.Store.{App, lift, clock, pure, ◌>>=◌}
use olympiad_next.Auth.Outside.{Claims, Outside, or_internal, moment}

pub record Manager : Type 0 where
  pub access_secret : Text
  pub refresh_secret : Text
  pub access_ttl : ℕ
  pub refresh_ttl : ℕ

pub record AccessClaims : Type 0 where
  pub user_id : Text
  pub email : Text
  pub jti : Text
  pub issued_at : ℕ
  pub expires_at : ℕ

pub record RefreshClaims : Type 0 where
  pub user_id : Text
  pub jti : Text
  pub issued_at : ℕ
  pub expires_at : ℕ

abbrev pub to_access : Claims → AccessClaims
to_access c = record {
  user_id = c.user_id;
  email = or_empty c.email;
  jti = c.jti;
  issued_at = c.issued_at;
  expires_at = c.expires_at;
}

abbrev pub to_refresh : Claims → RefreshClaims
to_refresh c = record {
  user_id = c.user_id;
  jti = c.jti;
  issued_at = c.issued_at;
  expires_at = c.expires_at;
}

module _ (o : Outside) where
  -- newJTI; `i` numbers the calls at one moment.
  unfoldable pub new_jti : ℕ → App Text
  new_jti i = do step ← moment; lift (or_internal (o.random_id step i))

  -- The claims of a token that is issued now and lives for `ttl`.
  abbrev pub claims_at : Text → Option Text → Text → ℕ → ℕ → Claims
  claims_at user email jti now ttl = record {
    user_id = user;
    email = email;
    jti = jti;
    issued_at = o.numeric_date now;
    expires_at = o.numeric_date (now + ttl);
  }

  -- Manager.parse, where an error of any kind is ErrInvalidToken.
  abbrev pub parse : Text → ℕ → Text → Result Claims
  parse secret now raw = elim (o.parse_with_claims secret now raw) [
    | none ↦ err (of_auth AuthError.invalid_token)
    | some c ↦ ok c
  ]

  module _ (m : Manager) where
    -- Manager.GenerateAccessToken
    unfoldable pub generate_access_token : Text → Text → App Text
    unfolding new_jti
    generate_access_token user email = do
      now ← clock
      jti ← new_jti 0
      lift (
          or_internal
            (o.signed_string m.access_secret (claims_at user (some email) jti now m.access_ttl)))

    -- Manager.GenerateRefreshToken: the token and the instant at which it expires.
    unfoldable pub generate_refresh_token : Text → App (Text × ℕ)
    unfolding new_jti
    generate_refresh_token user = do
      now ← clock
      jti ← new_jti 1
      token ← lift (
          or_internal
            (o.signed_string m.refresh_secret (claims_at user none jti now m.refresh_ttl)))
      pure (token, now + m.refresh_ttl)

    -- Manager.ParseAccessToken
    unfoldable pub parse_access_token : Text → App AccessClaims
    parse_access_token raw = do
      now ← clock
      c ← lift (parse m.access_secret now raw)
      pure (to_access c)

    -- Manager.ParseRefreshToken
    unfoldable pub parse_refresh_token : Text → App RefreshClaims
    parse_refresh_token raw = do
      now ← clock
      c ← lift (parse m.refresh_secret now raw)
      pure (to_refresh c)
