-- ===== src/Http/Cookies.antt =====
-- handler/cookie.go: the cookie that holds the refresh token.
use olympiad_next.Prelude.{ℕ, Bool, true, false, [], ◌==◌, if◌then◌else◌}
use olympiad_next.Text.{Text, text_eq, lit}
use olympiad_next.Text.Trim.{trim_space}
use olympiad_next.Text.Case.{to_lower}

pub data SameSite : Type 0 where
  lax strict cross_site : SameSite

pub record CookieConfig : Type 0 where
  pub name : Text
  pub path : Text
  pub domain : Text
  pub secure : Bool
  pub same_site : SameSite

-- The fields of http.Cookie that the code sets; `max_age` is whether MaxAge is -1, which deletes it.
pub record Cookie : Type 0 where
  pub name : Text
  pub value : Text
  pub path : Text
  pub domain : Text
  pub expires : ℕ
  pub deletes : Bool
  pub http_only : Bool
  pub secure : Bool
  pub same_site : SameSite

abbrev pub student_refresh_cookie_name : Text
student_refresh_cookie_name = lit "refresh_token"

abbrev pub student_refresh_cookie_path : Text
student_refresh_cookie_path = lit "/api/auth"

abbrev pub admin_refresh_cookie_name : Text
admin_refresh_cookie_name = lit "admin_refresh_token"

abbrev pub admin_refresh_cookie_path : Text
admin_refresh_cookie_path = lit "/api/auth/admin"

-- ParseSameSite
unfoldable pub parse_same_site : Text → SameSite
parse_same_site raw =
    let s = to_lower (trim_space raw) in
    if s == lit "strict" then strict else if s == lit "none" then cross_site else lax

abbrev pub is_cross_site : SameSite → Bool
is_cross_site cross_site = true
is_cross_site _ = false

-- newCookieConfig
unfoldable pub new_cookie_config : Text → Text → Text → Bool → Text → CookieConfig
unfolding parse_same_site
new_cookie_config name path domain secure same_site =
    let resolved = parse_same_site same_site in
    record {
      name = name;
      path = path;
      domain = domain;
      secure = if is_cross_site resolved then true else secure;
      same_site = resolved;
    }

-- setRefreshCookie
abbrev pub set_refresh_cookie : CookieConfig → Text → ℕ → Cookie
set_refresh_cookie cfg value expires_at = record {
  name = cfg.name;
  value = value;
  path = cfg.path;
  domain = cfg.domain;
  expires = expires_at;
  deletes = false;
  http_only = true;
  secure = cfg.secure;
  same_site = cfg.same_site;
}

-- clearRefreshCookie; time.Unix(0, 0), at 0 here, lies in the past as well.
abbrev pub clear_refresh_cookie : CookieConfig → Cookie
clear_refresh_cookie cfg = record {
  name = cfg.name;
  value = [];
  path = cfg.path;
  domain = cfg.domain;
  expires = 0;
  deletes = true;
  http_only = true;
  secure = cfg.secure;
  same_site = cfg.same_site;
}
