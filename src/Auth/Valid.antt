-- ===== src/Auth/Valid.antt =====
-- The tables users and refresh_tokens under any sequence of requests to the auth service.
use olympiad_next.Prelude.{List}
use olympiad_next.Store.{World}
use olympiad_next.Postgres.Users.State.{AccountsAreValid}
use olympiad_next.Postgres.Users.Valid.{statements-AccountsAreValid}
use olympiad_next.Auth.Outside.{Outside}
use olympiad_next.Auth.Jwt.{Manager}
use olympiad_next.Auth.Requests.{Request, serve_all}
use olympiad_next.Auth.Kept.{serve_all-Keeps}

-- Any requests, whatever the server does, keep the tables valid: every account has a password or a Google
-- id and every code has its expiry, no two accounts share their id, their e-mail up to letter case or
-- their Google id, no two refresh tokens share their id or their hash, and the generated column `revoked`
-- is true exactly of the tokens with an instant of revocation.
pub serve_all-AccountsAreValid :
    (o : Outside) (m : Manager) (rs : List Request) (w : World)
    → AccountsAreValid o.lower w.db
    → AccountsAreValid o.lower (serve_all o m rs w).db
serve_all-AccountsAreValid o m = serve_all-Keeps o m (statements-AccountsAreValid o.lower)
