-- ===== src/Auth/Requests.antt =====
-- Any sequence of requests to the auth service, on any server.
use olympiad_next.Prelude.{ℕ, List, [], ◌∷◌, ◌+◌}
use olympiad_next.Text.{Text}
use olympiad_next.Store.{World}
use olympiad_next.Auth.Outside.{Outside}
use olympiad_next.Auth.Jwt.{Manager}
use olympiad_next.Auth.Session.{refresh, logout, run_spawned}
use olympiad_next.Auth.Otp.{verify_email_otp, resend_email_otp}
use olympiad_next.Auth.Accounts.{register, login, admin_login, google_login}

pub data Request : Type 0 where
  sign_up : Text → Text → Request
  log_in : Text → Text → Text → Request
  log_in_admin : Text → Text → Text → Request
  log_in_google : Text → Text → Text → Request
  renew : Text → Request
  log_out : Text → Request
  verify_code : Text → Text → Request
  resend_code : Text → Request
  background : Request
  wait : ℕ → Request

module _ (o : Outside) (m : Manager) where
  -- The world after a request; `background` runs a goroutine and `wait` lets time pass.
  unfoldable pub serve : Request → World → World
  serve (sign_up email password) w = (register o email password w).1
  serve (log_in email password fingerprint) w = (login o m email password fingerprint w).1
  serve (log_in_admin email password fingerprint) w =
      (admin_login o m email password fingerprint w).1
  serve (log_in_google client raw fingerprint) w = (google_login o m client raw fingerprint w).1
  serve (renew raw) w = (refresh o m raw w).1
  serve (log_out raw) w = (logout o m raw w).1
  serve (verify_code email code) w = (verify_email_otp o email code w).1
  serve (resend_code email) w = (resend_email_otp o email w).1
  serve background w = (run_spawned w).1
  serve (wait n) w = record w { now = w.now + n }

  unfoldable pub serve_all : List Request → World → World
  unfolding serve
  serve_all [] w = w
  serve_all (r ∷ rs) w = serve_all rs (serve r w)
