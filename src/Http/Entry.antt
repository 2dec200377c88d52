-- ===== src/Http/Entry.antt =====
-- The cookies that the routes under /api/auth set.
use olympiad_next.Prelude.{
  ℕ, ◌≡◌, refl, Bool, true, false, not, ◌||◌, Option, none, some, [], ◌==◌, arith, if◌then◌else◌,
  inl, inr,
}
use olympiad_next.Text.{Text, text_eq}
use olympiad_next.Errors.{Error, Result-cases}
use olympiad_next.Store.{World, App}
use olympiad_next.Auth.Outside.{Outside}
use olympiad_next.Auth.Jwt.{Manager}
use olympiad_next.Auth.Session.{TokenPair}
use olympiad_next.Http.{Handler}
use olympiad_next.Http.Cookies.{
  Cookie, is_cross_site, new_cookie_config, clear_refresh_cookie, student_refresh_cookie_name,
  student_refresh_cookie_path, admin_refresh_cookie_name, admin_refresh_cookie_path,
}
use olympiad_next.Http.Sessions.{
  Page, AuthHandler, call_page, with_cookie, tell, respond_with_session, post_register, post_login,
  post_google, post_refresh, post_logout, log_out_of, post_verify_email_otp, post_resend_email_otp,
  new_auth_handler, new_admin_auth_handler,
}

-- A cookie that no script reads, that the surface reads alone, and that no browser drops on a request from
-- another site because it is not Secure.
pub record IsGuarded (name path : Text) (c : Cookie) : Type 0 where
  pub hidden : c.http_only ≡ true
  pub named : c.name ≡ name
  pub scoped : c.path ≡ path
  pub kept : (not (is_cross_site c.same_site) || c.secure) ≡ true

abbrev pub EachGuarded : Text → Text → Option Cookie → Type 0
EachGuarded name path none = Unit
EachGuarded name path (some c) = IsGuarded name path c

-- Every cookie of the page is guarded.
pub record Guards (name path : Text) {A : Type 0} (p : Page A) : Type 0 where
  pub of : (w : World) → EachGuarded name path (p w).0.1

module _ (name path : Text) where
  Guards-with_cookie :
      {A : Type 0} (c : Option Cookie) (h : Handler A)
      → EachGuarded name path c
      → Guards name path (with_cookie c h)
  unfolding with_cookie
  Guards-with_cookie c h g = record { of = λ w. g }

  Guards-call_page :
      {A B : Type 0} (m : App B) (bad : Error → Page A) (good : B → Page A)
      → ((e : Error) → Guards name path (bad e))
      → ((b : B) → Guards name path (good b))
      → Guards name path (call_page m bad good)
  unfolding call_page
  Guards-call_page m bad good kb kg = record {
    of = λ w. elim (Result-cases (m w).0) [
      | inl (e, failed) ↦ rw failed ((kb e).of (m w).1)
      | inr (b, answered) ↦ rw answered ((kg b).of (m w).1)
    ];
  }

  Guards-if :
      {A : Type 0} (t : Bool) (on off : Page A)
      → Guards name path on
      → Guards name path off
      → Guards name path (if t then on else off)
  Guards-if true on off k l = k
  Guards-if false on off k l = l

-- The POST requests under /api/auth.
pub data Post : Type 0 where
  sign_up : Text → Text → Post
  log_in : Text → Text → Text → Post
  log_in_google : Text → Text → Text → Post
  renew log_out : Option Text → Post
  verify_code : Text → Text → Post
  resend_code : Text → Post

module _ (o : Outside) (m : Manager) where
  -- The cookie that the answer to a request sets.
  abbrev pub cookie_after : AuthHandler → Post → World → Option Cookie
  cookie_after h (sign_up email password) w = (post_register h o m email password w).0.1
  cookie_after h (log_in email password fingerprint) w =
      (post_login h o m email password fingerprint w).0.1
  cookie_after h (log_in_google client token fingerprint) w =
      (post_google h o m client token fingerprint w).0.1
  cookie_after h (renew raw) w = (post_refresh h o m raw w).0.1
  cookie_after h (log_out raw) w = (post_logout h o m raw w).0.1
  cookie_after h (verify_code email code) w = (post_verify_email_otp h o m email code w).0.1
  cookie_after h (resend_code email) w = (post_resend_email_otp h o m email w).0.1

  module _ (h : AuthHandler)
      (secured : (not (is_cross_site h.cookies.same_site) || h.cookies.secure) ≡ true) where
    abbrev name : Text
    name = h.cookies.name

    abbrev path : Text
    path = h.cookies.path

    respond-Guards : (pair : TokenPair) → Guards name path (respond_with_session h pair)
    unfolding respond_with_session
    respond-Guards pair =
        Guards-with_cookie _ _ _ _
          (record { hidden = refl; named = refl; scoped = refl; kept = secured })

    cleared-Guards :
        {A : Type 0} (r : Handler A)
        → Guards name path (with_cookie (some (clear_refresh_cookie h.cookies)) r)
    cleared-Guards r =
        Guards-with_cookie _ _ _ _
          (record { hidden = refl; named = refl; scoped = refl; kept = secured })

    bare-Guards : {A : Type 0} (r : Handler A) → Guards name path (with_cookie none r)
    bare-Guards r = Guards-with_cookie _ _ none r tt

    tell-Guards :
        (a : App Unit) (status : ℕ) (message : Text) → Guards name path (tell h a status message)
    unfolding tell
    tell-Guards a status message =
        Guards-call_page _ _ _ _ _ (λ e. bare-Guards _) (λ _. bare-Guards _)

    post-Guarded : (p : Post) (w : World) → EachGuarded name path (cookie_after h p w)
    unfolding post_register post_login post_google post_refresh post_logout post_verify_email_otp
        post_resend_email_otp with_cookie
    post-Guarded (sign_up email password) w = (tell-Guards _ _ _).of w
    post-Guarded (log_in email password fingerprint) w =
        (Guards-call_page name path _ _ _ (λ e. bare-Guards _) respond-Guards).of w
    post-Guarded (log_in_google client token fingerprint) w =
        (Guards-if name path (token == []) _ _ (bare-Guards _)
            (Guards-call_page name path _ _ _ (λ e. bare-Guards _) respond-Guards)).of
          w
    post-Guarded (renew none) w = tt
    post-Guarded (renew (some raw)) w =
        (Guards-if name path (raw == []) _ _ (bare-Guards _)
            (Guards-call_page name path _ _ _ (λ e. cleared-Guards _) respond-Guards)).of
          w
    post-Guarded (log_out raw) w =
        (Guards-call_page name path (log_out_of h o m raw) _ _ (λ e. cleared-Guards _)
            (λ _. cleared-Guards _)).of
          w
    post-Guarded (verify_code email code) w =
        (Guards-if name path _ _ _ (bare-Guards _) (tell-Guards _ _ _)).of w
    post-Guarded (resend_code email) w =
        (Guards-if name path _ _ _ (bare-Guards _) (tell-Guards _ _ _)).of w

config-secured :
    (name path domain : Text) (secure : Bool) (same_site : Text)
    → let c = new_cookie_config name path domain secure same_site in
      (not (is_cross_site c.same_site) || c.secure) ≡ true
unfolding new_cookie_config
config-secured name path domain secure same_site = ground arith

-- Every cookie that a POST under /api/auth sets, for any settings of the deployment and whatever the server
-- does: no script reads it, it has the name and the path of its surface, and it is Secure if it is to be
-- sent across sites.
pub post-Guarded_each :
    (o : Outside) (m : Manager) (domain : Text) (secure : Bool) (same_site : Text) (p : Post)
    (w : World)
    → EachGuarded student_refresh_cookie_name student_refresh_cookie_path
        (cookie_after o m (new_auth_handler domain secure same_site) p w)
      × EachGuarded admin_refresh_cookie_name admin_refresh_cookie_path
          (cookie_after o m (new_admin_auth_handler domain secure same_site) p w)
unfolding new_cookie_config
post-Guarded_each o m domain secure same_site p w = (
  post-Guarded o m (new_auth_handler domain secure same_site)
      (config-secured student_refresh_cookie_name student_refresh_cookie_path domain secure
        same_site)
      p w,
  post-Guarded o m (new_admin_auth_handler domain secure same_site)
      (config-secured admin_refresh_cookie_name admin_refresh_cookie_path domain secure same_site) p
      w,
)
