-- ===== src/Auth/Rotation.antt =====
-- A refresh token is good for one rotation.
use olympiad_next.Prelude.{
  ℕ, ◌≡◌, ◌≢◌, refl, sym, ap, subst, ◌∙◌, Bool, true, false, List, [], ◌∷◌, ◌++◌, any, any-append,
  arith, Bool-cases, inl, inr, ◌==◌, ==_iff, nat_eq,
}
use olympiad_next.Text.{Text, text_eq}
use olympiad_next.Errors.{ok}
use olympiad_next.Domain.User.{User}
use olympiad_next.Domain.Token.{RefreshToken}
use olympiad_next.Store.{Tables, World, exec, raise, attempt, ◌>>=◌, pure}
use olympiad_next.Store.Rows.{
  update, count, count-eq-zero, any-update, any-update_self, any-update_none,
}
use olympiad_next.Store.Answers.{Ensures, Ensures-bind}
use olympiad_next.Postgres.Users.Lift.{StatementsKeep}
use olympiad_next.Postgres.Users.{insert_user, update_users}
use olympiad_next.Postgres.Users.Changes.{link_google, onboard}
use olympiad_next.Postgres.Tokens as Tokens
use olympiad_next.Postgres.Tokens.{
  by_id, unrevoked_by_id, unrevoked_of, revoked_row, insert_token, revoke_stmt, revoke_all_stmt,
  upsert_stmt,
}
use olympiad_next.Auth.Outside.{Outside}
use olympiad_next.Auth.Jwt.{Manager}
use olympiad_next.Auth.Session.{TokenPair, reuse, rotate}
use olympiad_next.Auth.Requests.{Request, serve_all}
use olympiad_next.Auth.Kept.{serve_all-Keeps, issue_rotated-Keeps}

-- The token with the id is there, and revoked.
pub record Spent (id : Text) (ts : List RefreshToken) : Type 0 where
  pub there : any (by_id id) ts ≡ true
  pub revoked : any (unrevoked_by_id id) ts ≡ false

abbrev pub IsSpent : Text → Tables → Type 0
IsSpent id db = Spent id db.refresh_tokens

module _ (id : Text) where
  revoked-Spent :
      (p : RefreshToken → Bool) (now : ℕ) (ts : List RefreshToken)
      → Spent id ts
      → Spent id (update p (revoked_row now) ts)
  revoked-Spent p now ts h = record {
    there = any-update (by_id id) p (revoked_row now) ts (λ _. refl) ∙ h.there;
    revoked =
        any-update_none (unrevoked_by_id id) p (revoked_row now) ts (λ t e. ground arith) h.revoked;
  }

  append-Spent :
      (t : RefreshToken) (ts : List RefreshToken)
      → any (by_id t.id) ts ≡ false
      → Spent id ts
      → Spent id (ts ++ t ∷ [])
  unfolding any
  append-Spent t ts fresh h =
      let other : (t.id == id) ≡ false = elim (Bool-cases (t.id == id)) [
        | inl e ↦
            let same = (==_iff t.id id).0 e in
            let f = rw same at (fresh) in ground (arith, f, h.there)
        | inr e ↦ e
      ] in
      record {
        there = ground (arith, any-append (by_id id) ts (t ∷ []), h.there);
        revoked = ground (arith, any-append (unrevoked_by_id id) ts (t ∷ []), h.revoked, other);
      }

  -- No statement of the service makes a spent token good again.
  pub statements-IsSpent : (lower : Text → Text) → StatementsKeep lower (IsSpent id)
  unfolding insert_user link_google update_users onboard insert_token revoke_stmt revoke_all_stmt
      upsert_stmt
  statements-IsSpent lower = record {
    inserts = λ n. record { on = λ uid now db h. ground (arith, h) };
    links = λ i g v. record { on = λ uid now db h. ground (arith, h) };
    changes = λ c i. record { on = λ _ _ _ h. h };
    onboards = λ i p. record { on = λ _ _ _ h. h };
    tokens = λ n. record {
      on = λ uid now db h.
          let added = append-Spent (Tokens.new_row n uid now) db.refresh_tokens in
          ground (arith, added, h);
    };
    revokes = λ i. record {
      on = λ _ now db h. revoked-Spent (unrevoked_by_id i) now db.refresh_tokens h;
    };
    revokes_all = λ user. record {
      on = λ _ now db h. revoked-Spent (unrevoked_of user) now db.refresh_tokens h;
    };
    devices = λ user f. record { on = λ uid now db h. ground (arith, h) };
  }

  pub revoke-answer :
      (w : World) (b : Bool)
      → (Tokens.revoke id w).0 ≡ ok b
      → (b ≡ (count (unrevoked_by_id id) w.db.refresh_tokens == 1))
        × ((Tokens.revoke id w).1.db.refresh_tokens
            ≡ update (unrevoked_by_id id) (revoked_row w.now) w.db.refresh_tokens)
  unfolding Tokens.revoke revoke_stmt exec pure ◌>>=◌
  revoke-answer w b h = ground arith

  counted_is_there :
      (ts : List RefreshToken) → count (unrevoked_by_id id) ts ≡ 1 → any (by_id id) ts ≡ true
  unfolding count any
  counted_is_there [] h = ground arith
  counted_is_there (t ∷ ts) h = ground (arith, counted_is_there ts)

  revoke-IsSpent :
      (w : World) → (Tokens.revoke id w).0 ≡ ok true → IsSpent id (Tokens.revoke id w).1.db
  revoke-IsSpent w h =
      let (one, left) = revoke-answer w true h in
      let ts = w.db.refresh_tokens in
      let there = counted_is_there ts (ground (arith, one)) in
      subst (Spent id) (sym left) (record {
        there =
            any-update (by_id id) (unrevoked_by_id id) (revoked_row w.now) ts (λ _. refl) ∙ there;
        revoked = any-update_self (unrevoked_by_id id) (revoked_row w.now) ts (λ t. ground arith);
      })

  spent-revoke : (w : World) → IsSpent id w.db → (Tokens.revoke id w).0 ≢ ok true
  spent-revoke w h e =
      let (one, left) = revoke-answer w true e in
      ground (arith, one, count-eq-zero (unrevoked_by_id id) w.db.refresh_tokens h.revoked)

module _ (o : Outside) (m : Manager) where
  pub reuse-never : (t : RefreshToken) (w : World) (pair : TokenPair) → (reuse o m t w).0 ≢ ok pair
  unfolding reuse attempt raise ◌>>=◌
  reuse-never t w pair h = cc

  -- What holds once Revoke has said yes, and every statement keeps, holds after the rotation.
  pub rotate-kept :
      {P : Tables → Type 0} (k : StatementsKeep o.lower P) (t : RefreshToken) (u : User) (w : World)
      → ((Tokens.revoke t.id w).0 ≡ ok true → P (Tokens.revoke t.id w).1.db)
      → Ensures (rotate o m t u) w (λ _ left. P left.db)
  unfolding rotate
  rotate-kept k t u w good = Ensures-bind _ _ w λ revoked e. elim (Bool-cases revoked) [
    | inl hit ↦ rw hit (record {
      of = λ pair h.
          let kept = issue_rotated-Keeps o m k u in
          kept.at (Tokens.revoke t.id w).1 (good (e ∙ ap ok hit));
    })
    | inr miss ↦ rw miss (record { of = λ pair h. absurd (reuse-never t _ pair h) })
  ]

  pub rotate-Ensures :
      (t : RefreshToken) (u : User) (w : World)
      → Ensures (rotate o m t u) w (λ _ left. IsSpent t.id left.db)
  rotate-Ensures t u w = rotate-kept (statements-IsSpent t.id o.lower) t u w (revoke-IsSpent t.id w)

  spent-never :
      (t : RefreshToken) (u : User) (w : World)
      → IsSpent t.id w.db
      → Ensures (rotate o m t u) w (λ _ _. ⊥)
  unfolding rotate
  spent-never t u w h = Ensures-bind _ _ w λ revoked e. elim (Bool-cases revoked) [
    | inl hit ↦ absurd (spent-revoke t.id w h (e ∙ ap ok hit))
    | inr miss ↦ rw miss (record { of = λ pair h. reuse-never t _ pair h })
  ]

  -- Two requests have read one token and then run their Revoke, with any requests in between: if the first
  -- is answered with a new pair of tokens, the second is not.
  pub rotate_once :
      (t t' : RefreshToken) (u u' : User) (rs : List Request) (w : World) (pair pair' : TokenPair)
      → t'.id ≡ t.id
      → (rotate o m t u w).0 ≡ ok pair
      → (rotate o m t' u' (serve_all o m rs (rotate o m t u w).1)).0 ≢ ok pair'
  rotate_once t t' u u' rs w pair pair' same first second =
      let spent = (rotate-Ensures t u w).of pair first in
      let still =
        serve_all-Keeps o m (statements-IsSpent t.id o.lower) rs (rotate o m t u w).1 spent in
      (spent-never t' u' _
          (subst (λ i. IsSpent i (serve_all o m rs (rotate o m t u w).1).db) (sym same) still)).of
        pair' second
