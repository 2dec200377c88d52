-- ===== src/Auth/Refresh.antt =====
-- A refresh token is good for one pair.
use mathlib.Core.Option
use olympiad_next.Prelude.{
  ℕ, ◌≡◌, ◌≢◌, refl, sym, ap, subst, ◌∙◌, Bool, true, false, some, List, [], ◌∷◌, ◌++◌, find, arith,
  ==_refl, if◌then◌else◌,
}
use olympiad_next.Text.{Text, text_eq}
use olympiad_next.Errors.{Result, ok, err, no_rows}
use olympiad_next.Domain.User.{User}
use olympiad_next.Domain.Token.{RefreshToken, is_unrevoked, is_active}
use olympiad_next.Store.{Tables, World, attempt, lift, clock, pure, ◌>>=◌}
use olympiad_next.Store.Rows.{update, find-append, find-update}
use olympiad_next.Store.Keeps.{Keeps}
use olympiad_next.Store.Answers.{
  Ensures, Ensures-bind, Ensures-lift, Ensures-require, Ensures-if, attempt-ok, found-row,
}
use olympiad_next.Postgres
use olympiad_next.Postgres.Users.Lift.{StatementsKeep, find_by_id-Keeps}
use olympiad_next.Postgres.Users.{insert_user, update_users}
use olympiad_next.Postgres.Users.Changes.{link_google, onboard}
use olympiad_next.Postgres.Tokens as Tokens
use olympiad_next.Postgres.Tokens.{
  by_id, by_hash, unrevoked_by_id, unrevoked_of, revoked_row, insert_token, revoke_stmt,
  revoke_all_stmt, upsert_stmt,
}
use olympiad_next.Auth.Outside.{Outside}
use olympiad_next.Auth.Jwt.{Manager, RefreshClaims, parse_refresh_token}
use olympiad_next.Auth.Session.{TokenPair, or_expired, rotate, refresh_stored, refresh}
use olympiad_next.Auth.Requests.{Request, serve_all}
use olympiad_next.Auth.Kept.{serve_all-Keeps}
use olympiad_next.Auth.Rotation.{IsSpent, rotate-Ensures, rotate-kept, reuse-never, revoke-answer}

-- The first token with the hash is revoked.
pub record Ended (hash : Text) (ts : List RefreshToken) : Type 0 where
  pub stored : RefreshToken
  pub found : find (by_hash hash) ts ≡ some stored
  pub revoked : is_unrevoked stored ≡ false

abbrev pub IsEnded : Text → Tables → Type 0
IsEnded hash db = Ended hash db.refresh_tokens

module _ (hash : Text) where
  revoked-Ended :
      (p : RefreshToken → Bool) (now : ℕ) (ts : List RefreshToken)
      → Ended hash ts
      → Ended hash (update p (revoked_row now) ts)
  revoked-Ended p now ts h = record {
    stored = if p h.stored then revoked_row now h.stored else h.stored;
    found =
        find-update (by_hash hash) p (revoked_row now) ts (λ _. refl) ∙ ap (Option.map _) h.found;
    revoked = ground (arith, h.revoked);
  }

  -- No statement of the service makes an ended token good again.
  statements-IsEnded : (lower : Text → Text) → StatementsKeep lower (IsEnded hash)
  unfolding insert_user link_google update_users onboard insert_token revoke_stmt revoke_all_stmt
      upsert_stmt
  statements-IsEnded lower = record {
    inserts = λ n. record { on = λ uid now db h. ground (arith, h) };
    links = λ i g v. record { on = λ uid now db h. ground (arith, h) };
    changes = λ c i. record { on = λ _ _ _ h. h };
    onboards = λ i p. record { on = λ _ _ _ h. h };
    tokens = λ n. record {
      on = λ uid now db h.
          let added : Ended hash (db.refresh_tokens ++ Tokens.new_row n uid now ∷ []) = record {
            stored = h.stored;
            found =
                find-append (by_hash hash) db.refresh_tokens (Tokens.new_row n uid now ∷ [])
                ∙ rw h.found refl;
            revoked = h.revoked;
          } in
          ground (arith, added, h);
    };
    revokes = λ i. record {
      on = λ _ now db h. revoked-Ended (unrevoked_by_id i) now db.refresh_tokens h;
    };
    revokes_all = λ user. record {
      on = λ _ now db h. revoked-Ended (unrevoked_of user) now db.refresh_tokens h;
    };
    devices = λ user f. record { on = λ uid now db h. ground (arith, h) };
  }

module _ (o : Outside) (m : Manager) where
  -- The row that a refresh found, and what it left of it.
  pub record Rotated (raw : Text) (w left : World) : Type 0 where
    pub stored : RefreshToken
    pub found : find (by_hash (o.sha256_hex raw)) w.db.refresh_tokens ≡ some stored
    pub active : is_active w.now stored ≡ true
    pub spent : IsSpent stored.id left.db
    pub ended : IsEnded (o.sha256_hex raw) left.db

  clock-ok : (w : World) (now : ℕ) → (clock w).0 ≡ ok now → w.now ≡ now
  unfolding clock
  clock-ok w now e = ground arith

  parse-left : (raw : Text) (w : World) → (attempt (parse_refresh_token o m raw) w).1 ≡ w
  unfolding parse_refresh_token attempt clock lift pure ◌>>=◌
  parse-left raw w = ground arith

  or_expired-ok : {A : Type 0} (r : Result A) (a : A) → or_expired o m r ≡ ok a → r ≡ ok a
  or_expired-ok (ok b) a e = e
  or_expired-ok (err x) a e = cc

  rotate-Ended :
      (hash : Text) (t : RefreshToken) (u : User) (w : World)
      → find (by_hash hash) w.db.refresh_tokens ≡ some t
      → Ensures (rotate o m t u) w (λ _ left. IsEnded hash left.db)
  rotate-Ended hash t u w there = rotate-kept o m (statements-IsEnded hash o.lower) t u w λ good.
      let p = unrevoked_by_id t.id in
      let (one, left) = revoke-answer t.id w true good in
      subst (Ended hash) (sym left) (record {
        stored = if p t then revoked_row w.now t else t;
        found =
            find-update (by_hash hash) p (revoked_row w.now) w.db.refresh_tokens (λ _. refl)
            ∙ ap (Option.map _) there;
        revoked = ground (arith, ==_refl t.id);
      })

  refresh_stored-Ensures :
      (hash : Text) (c : RefreshClaims) (t : RefreshToken) (w : World)
      → find (by_hash hash) w.db.refresh_tokens ≡ some t
      → Ensures
          (refresh_stored o m c t)
          w
          (λ _ left. (is_active w.now t ≡ true) × IsSpent t.id left.db × IsEnded hash left.db)
  unfolding refresh_stored clock attempt
  refresh_stored-Ensures hash c t w there =
      Ensures-if t.revoked _ _ w
        (λ _. record { of = λ pair h. absurd (reuse-never o m t w pair h) })
        λ _. Ensures-bind _ _ w λ now read. Ensures-require _ _ _ _ λ act.
          Ensures-bind _ _ _ λ found e. Ensures-lift _ _ _ λ u e'. record {
            of = λ pair h.
                let reads : Keeps (λ db. find (by_hash hash) db.refresh_tokens ≡ some t)
                    (Postgres.Users.find_by_id c.user_id) =
                  find_by_id-Keeps c.user_id in
                (
                  rw (clock-ok w now read) act,
                  (rotate-Ensures o m t u _).of pair h,
                  (rotate-Ended hash t u _ (reads.at w there)).of pair h,
                );
          }

  refresh-Ensures :
      (raw : Text) (w : World) → Ensures (refresh o m raw) w (λ _ left. Rotated raw w left)
  unfolding refresh attempt Tokens.find_by_token_hash
  refresh-Ensures raw w = Ensures-bind _ _ w λ parsed e1. Ensures-lift _ _ _ λ c e2.
      Ensures-bind _ _ _ λ found e3. Ensures-lift _ _ _ λ t e4.
        let hash : Text = o.sha256_hex raw in
        let w1 : World = (attempt (parse_refresh_token o m raw) w).1 in
        let w2 : World = (attempt (Tokens.find_by_token_hash hash) w1).1 in
        let same : w1 ≡ w = parse-left raw w in
        let answered =
          attempt-ok (Tokens.find_by_token_hash hash) w1 found e3 ∙ or_expired-ok found t e4 in
        let (there, left) =
          found-row (λ db. find (by_hash hash) db.refresh_tokens) no_rows w1 t answered in
        record {
          of = λ pair h.
              let still : find (by_hash hash) w2.db.refresh_tokens ≡ some t =
                ap (λ v. find (by_hash hash) v.db.refresh_tokens) left ∙ there in
              let (active, spent, ended) = (refresh_stored-Ensures hash c t w2 still).of pair h in
              record {
                stored = t;
                found = ap (λ v. find (by_hash hash) v.db.refresh_tokens) (sym same) ∙ there;
                active =
                    ap (λ v. is_active v.now t) (sym same)
                    ∙ ap (λ v. is_active v.now t) (sym left)
                    ∙ active;
                spent = spent;
                ended = ended;
              };
        }

  ended-never :
      (raw : Text) (w : World)
      → IsEnded (o.sha256_hex raw) w.db
      → Ensures (refresh o m raw) w (λ _ _. ⊥)
  unfolding is_active
  ended-never raw w h = record {
    of = λ pair e.
        let r = (refresh-Ensures raw w).of pair e in
        ground (arith, r.found, r.active, h.found, h.revoked);
  }

  -- A refresh token buys one new pair, whatever the server does: once Refresh has answered it with a
  -- pair, no later Refresh of the token answers with one, whatever requests come in between.
  pub refresh_once :
      (raw : Text) (rs : List Request) (w : World) (pair pair' : TokenPair)
      → (refresh o m raw w).0 ≡ ok pair
      → (refresh o m raw (serve_all o m rs (refresh o m raw w).1)).0 ≢ ok pair'
  refresh_once raw rs w pair pair' first second =
      let ended = ((refresh-Ensures raw w).of pair first).ended in
      let still = serve_all-Keeps o m (statements-IsEnded (o.sha256_hex raw) o.lower) rs _ ended in
      (ended-never raw _ still).of pair' second
