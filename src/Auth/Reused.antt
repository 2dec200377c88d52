-- ===== src/Auth/Reused.antt =====
-- What Refresh does with a token that has been used.
use olympiad_next.Prelude.{
  ℕ, suc, ◌≡◌, ◌≢◌, ◌⊎◌, inl, inr, refl, sym, subst, ap, ◌∙◌, ◌==◌, true, none, some, List, [], ◌∷◌,
  All, find, arith, Bool-cases, Option-cases, if◌then◌else◌,
}
use olympiad_next.Text.{Text, text_eq, eq_text_iff}
use olympiad_next.Errors.{ok, err, of_auth, AuthError}
use olympiad_next.Domain.Token.{RefreshToken}
use olympiad_next.Store.{World, healthy, exec, query, raise, attempt, lift, clock, pure, ◌>>=◌}
use olympiad_next.Store.Rows.{update}
use olympiad_next.Store.Answers.{>>=-run}
use olympiad_next.Postgres.Tokens as Tokens
use olympiad_next.Postgres.Tokens.{
  by_id, by_hash, unrevoked_by_id, unrevoked_of, revoked_row, insert_token, revoke_stmt,
  revoke_all_stmt, upsert_stmt,
}
use olympiad_next.Auth.Outside.{Outside, Claims}
use olympiad_next.Auth.Jwt.{Manager, to_refresh, parse_refresh_token}
use olympiad_next.Auth.Session.{reuse, refresh_stored, refresh}

-- A row after the UPDATE of RevokeAllForUser is another user's or is revoked.
revoked_row-Revoked :
    (user : Text) (now : ℕ) (x : RefreshToken)
    → let y = if unrevoked_of user x then revoked_row now x else x in
      (y.user_id ≢ user) ⊎ (y.revoked_at ≢ none)
revoked_row-Revoked user now x = elim (Bool-cases (x.user_id == user)) [
  | inl hit ↦ elim (Option-cases x.revoked_at) [
    | inl open_yet ↦ rw (hit, open_yet) (inr (λ c. cc))
    | inr (at, done) ↦ rw (hit, done) (inr (λ c. cc))
  ]
  | inr miss ↦ rw miss (inl (λ c. let e = (eq_text_iff x.user_id user).1 c in cc))
]

revoked-All :
    (user : Text) (now : ℕ) (ts : List RefreshToken)
    → All
        (λ x. (x.user_id ≢ user) ⊎ (x.revoked_at ≢ none))
        (update (unrevoked_of user) (revoked_row now) ts)
unfolding update
revoked-All user now [] = tt
revoked-All user now (x ∷ ts) = (revoked_row-Revoked user now x, revoked-All user now ts)

module _ (o : Outside) (m : Manager) where
  parse_run :
      (raw : Text) (c : Claims) (w : World)
      → o.parse_with_claims m.refresh_secret w.now raw ≡ some c
      → attempt (parse_refresh_token o m raw) w ≡ (ok (ok (to_refresh c)), w)
  unfolding parse_refresh_token attempt clock lift pure ◌>>=◌
  parse_run raw c w signed = ground (arith, signed)

  find_run :
      (h : Text) (t : RefreshToken) (w : World)
      → find (by_hash h) w.db.refresh_tokens ≡ some t
      → attempt (Tokens.find_by_token_hash h) (healthy w)
        ≡ (ok (ok t), record (healthy w) { step = suc w.step })
  unfolding Tokens.find_by_token_hash attempt query exec
  find_run h t w found = rw found refl

  -- A refresh of a token that is signed and stored is one at its row.
  refresh_run :
      (raw : Text) (c : Claims) (t : RefreshToken) (w : World)
      → o.parse_with_claims m.refresh_secret w.now raw ≡ some c
      → find (by_hash (o.sha256_hex raw)) w.db.refresh_tokens ≡ some t
      → refresh o m raw (healthy w)
        ≡ refresh_stored o m (to_refresh c) t (record (healthy w) { step = suc w.step })
  unfolding refresh lift
  refresh_run raw c t w signed found =
      let w1 = record (healthy w) { step = suc w.step } in
      >>=-run _ _ (healthy w) (healthy w) (ok (to_refresh c)) (parse_run raw c (healthy w) signed)
      ∙ >>=-run _ _ (healthy w) (healthy w) (to_refresh c) refl
      ∙ >>=-run _ _ (healthy w) w1 (ok t) (find_run (o.sha256_hex raw) t w found)
      ∙ >>=-run _ _ w1 w1 t refl

  -- A used token is presented again, on a server that runs every statement, as a signed token that has
  -- not expired: the answer is that the session has expired, and every token of its user is revoked.
  pub refresh-reuse :
      (raw : Text) (c : Claims) (t : RefreshToken) (w : World)
      → o.parse_with_claims m.refresh_secret w.now raw ≡ some c
      → find (by_hash (o.sha256_hex raw)) w.db.refresh_tokens ≡ some t
      → t.revoked ≡ true
      → ((refresh o m raw (healthy w)).0 ≡ err (of_auth AuthError.session_expired))
        × All
            (λ x. (x.user_id ≢ t.user_id) ⊎ (x.revoked_at ≢ none))
            (refresh o m raw (healthy w)).1.db.refresh_tokens
  unfolding refresh_stored reuse attempt raise ◌>>=◌ exec Tokens.revoke_all_for_user revoke_all_stmt
  refresh-reuse raw c t w signed found used =
      let gone = revoked-All t.user_id w.now w.db.refresh_tokens in
      let run = refresh_run raw c t w signed found in
      (
        ap (λ r. r.0) run ∙ rw used refl,
        subst
            (λ r. All (λ x. (x.user_id ≢ t.user_id) ⊎ (x.revoked_at ≢ none)) r.1.db.refresh_tokens)
            (sym run) (rw used gone),
      )
