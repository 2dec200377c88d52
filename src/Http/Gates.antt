-- ===== src/Http/Gates.antt =====
-- internal/http/middleware: auth.go, admin.go and profile.go.
use olympiad_next.Prelude.{
  Bool, true, false, not, ◌&&◌, Option, none, some, [], ◌==◌, if◌then◌else◌,
}
use olympiad_next.Text.{Text, text_eq, lit, codes, trim_prefix}
use olympiad_next.Text.Trim.{trim_space}
use olympiad_next.Domain.User.{User, Role, admin, is_verified}
use olympiad_next.Postgres
use olympiad_next.Auth.Outside.{Outside}
use olympiad_next.Auth.Jwt.{Manager, AccessClaims, parse_access_token}
use olympiad_next.Http.{Handler, refuse, call}

-- ExtractBearerToken
unfoldable pub extract_bearer_token : Text → Text
unfolding trim_prefix
extract_bearer_token header = elim (trim_prefix (codes "Bearer ") header) [
  | none ↦ []
  | some rest ↦ trim_space rest
]

-- hasValue
abbrev pub has_value : Option Text → Bool
has_value none = false
has_value (some s) = not (s == [])

-- isProfileComplete
unfoldable pub is_profile_complete : User → Bool
is_profile_complete u =
    u.email_verified
    && is_verified u.verification_status
    && has_value u.full_name
    && has_value u.institution_name
    && has_value u.level
    && has_value u.medium

-- `role == user.RoleAdmin`
abbrev pub is_admin_role : Role → Bool
is_admin_role admin = true
is_admin_role _ = false

-- The session of another device has replaced this one.
abbrev pub is_superseded : Text → Text → Bool
is_superseded active fingerprint = not (active == []) && not (fingerprint == active)

module _ {A : Type 0} where
  -- RequireAccessToken, at the headers Authorization and X-Device-Fingerprint.
  unfoldable pub require_access_token :
      Outside → Manager → Text → Text → (AccessClaims → Handler A) → Handler A
  unfolding extract_bearer_token
  require_access_token o m authorization fingerprint next =
      let raw = extract_bearer_token authorization in
      if raw == []
      then refuse 401 (lit "missing bearer token")
      else call (parse_access_token o m raw)
          (λ _. refuse 401 (lit "invalid or expired access token"))
          λ claims.
            call (Postgres.Users.get_active_device_fingerprint claims.user_id)
              (λ _. refuse 401 (lit "invalid or expired access token"))
              λ active.
                if is_superseded active fingerprint
                then refuse 401 (lit "Session expired or logged in from another device.")
                else next claims

  -- RequireAdmin, at the claims of the context.
  unfoldable pub require_admin : Option AccessClaims → Handler A → Handler A
  require_admin none next = refuse 401 (lit "unauthenticated")
  require_admin (some claims) next =
      call (Postgres.Users.get_role claims.user_id) (λ _. refuse 403 (lit "admin access required"))
        λ role. if not (is_admin_role role) then refuse 403 (lit "admin access required") else next

  -- RequireCompleteProfile, at the claims of the context.
  unfoldable pub require_complete_profile : Option AccessClaims → Handler A → Handler A
  unfolding is_profile_complete
  require_complete_profile none next = refuse 401 (lit "unauthenticated")
  require_complete_profile (some claims) next =
      call (Postgres.Users.find_by_id claims.user_id) (λ _. refuse 401 (lit "unauthenticated"))
        λ u. if not (is_profile_complete u) then refuse 403 (lit "profile incomplete") else next
