-- ===== src/Postgres/Users/Valid.antt =====
-- Every statement on accounts, tokens and devices keeps the tables valid.
use olympiad_next.Prelude.{
  ℕ, ◌≡◌, refl, ◌∙◌, Bool, true, false, List, [], ◌∷◌, ◌++◌, any, All-append, arith, any-or, nat_eq,
}
use olympiad_next.Text.{Text, text_eq}
use olympiad_next.Domain.User.{User, OnboardingProfile}
use olympiad_next.Domain.Token.{RefreshToken}
use olympiad_next.Domain.Device.{Device}
use olympiad_next.Store.{Tables}
use olympiad_next.Store.Keeps.{StmtKeeps}
use olympiad_next.Store.Rows.{update}
use olympiad_next.Store.Unique.{Distinct-insert, Distinct-update, All-update}
use olympiad_next.Postgres.Users.{
  NewUser, by_id, new_row, has_credential, is_taken, insert_user, update_users,
}
use olympiad_next.Postgres.Users.Changes.{onboard, onboarded_row}
use olympiad_next.Postgres.Users.Lift.{
  Change, changed, device, email_code, email_verified, review, by_mail, phone_code, phone_verified,
  StatementsKeep,
}
use olympiad_next.Postgres.Tokens as Tokens
use olympiad_next.Postgres.Tokens.{
  NewToken, insert_token, revoke_stmt, revoke_all_stmt, upsert_stmt, revoked_row, unrevoked_by_id,
  unrevoked_of, by_hash,
}
use olympiad_next.Postgres.Users.State.{
  AccountIsValid, TokenIsValid, clash_token, clash_user, AccountsAreValid,
}
use olympiad_next.Postgres.Users.Links.{link-Keeps}

module _ (lower : Text → Text) where
  insert-Keeps : (n : NewUser) → StmtKeeps (AccountsAreValid lower) (insert_user lower n)
  unfolding insert_user
  insert-Keeps n = record {
    on = λ id now db h.
        let row = new_row n id now in
        let added : has_credential row ≡ true
            → any (is_taken lower row) db.users ≡ false
            → AccountsAreValid lower (record db { users = db.users ++ row ∷ [] }) =
          λ credential fresh. record {
            accounts =
                All-append AccountIsValid db.users (row ∷ []) h.accounts
                  (record { credential = credential; email_code = refl; phone_code = refl }, tt);
            unique = Distinct-insert (clash_user lower) db.users row h.unique fresh;
            tokens = h.tokens;
            unique_tokens = h.unique_tokens;
          } in
        ground (arith, added, h);
  }

  -- The UPDATE of one row that leaves id, e-mail and Google id alone.
  updated :
      (p : User → Bool) (f : User → User) (db : Tables)
      → ((u : User) → p u ≡ true → AccountIsValid u → AccountIsValid (f u))
      → ((u v : User) → (clash_user lower) (f u) v ≡ (clash_user lower) u v)
      → ((u v : User) → (clash_user lower) u (f v) ≡ (clash_user lower) u v)
      → AccountsAreValid lower db
      → AccountsAreValid lower (record db { users = update p f db.users })
  updated p f db keeps left right h = record {
    accounts = All-update AccountIsValid p f db.users keeps h.accounts;
    unique = Distinct-update (clash_user lower) f left right p db.users h.unique;
    tokens = h.tokens;
    unique_tokens = h.unique_tokens;
  }

  changed-valid :
      (c : Change) (now : ℕ) (u : User) → AccountIsValid u → AccountIsValid (changed c now u)
  changed-valid (device f) now u h = record {
    credential = h.credential;
    email_code = h.email_code;
    phone_code = h.phone_code;
  }
  changed-valid (email_code code expires) now u h = record {
    credential = h.credential;
    email_code = refl;
    phone_code = h.phone_code;
  }
  changed-valid email_verified now u h = record {
    credential = h.credential;
    email_code = refl;
    phone_code = h.phone_code;
  }
  changed-valid (review s) now u h = record {
    credential = h.credential;
    email_code = h.email_code;
    phone_code = h.phone_code;
  }
  changed-valid by_mail now u h = record {
    credential = h.credential;
    email_code = h.email_code;
    phone_code = h.phone_code;
  }
  changed-valid (phone_code number code expires) now u h = record {
    credential = h.credential;
    email_code = h.email_code;
    phone_code = refl;
  }
  changed-valid phone_verified now u h = record {
    credential = h.credential;
    email_code = h.email_code;
    phone_code = refl;
  }

  changed-left :
      (c : Change) (now : ℕ) (u v : User)
      → (clash_user lower) (changed c now u) v ≡ (clash_user lower) u v
  changed-left (device f) now u v = refl
  changed-left (email_code code expires) now u v = refl
  changed-left email_verified now u v = refl
  changed-left (review s) now u v = refl
  changed-left by_mail now u v = refl
  changed-left (phone_code number code expires) now u v = refl
  changed-left phone_verified now u v = refl

  changed-right :
      (c : Change) (now : ℕ) (u v : User)
      → (clash_user lower) u (changed c now v) ≡ (clash_user lower) u v
  changed-right (device f) now u v = refl
  changed-right (email_code code expires) now u v = refl
  changed-right email_verified now u v = refl
  changed-right (review s) now u v = refl
  changed-right by_mail now u v = refl
  changed-right (phone_code number code expires) now u v = refl
  changed-right phone_verified now u v = refl

  change-Keeps :
      (c : Change) (id : Text) → StmtKeeps (AccountsAreValid lower) (update_users (changed c) id)
  unfolding update_users
  change-Keeps c id = record {
    on = λ uid now db h.
        updated (by_id id) (changed c now) db (λ u _ valid. changed-valid c now u valid)
          (changed-left c now) (changed-right c now) h;
  }

  onboard-Keeps :
      (id : Text) (p : OnboardingProfile) → StmtKeeps (AccountsAreValid lower) (onboard id p)
  unfolding onboard
  onboard-Keeps id p = record {
    on = λ uid now db h.
        updated (by_id id) (onboarded_row p now) db
          (λ u _ v. record {
            credential = v.credential;
            email_code = v.email_code;
            phone_code = v.phone_code;
          })
          (λ _ _. refl) (λ _ _. refl) h;
  }

  insert_token-Keeps : (n : NewToken) → StmtKeeps (AccountsAreValid lower) (insert_token n)
  unfolding insert_token
  insert_token-Keeps n = record {
    on = λ id now db h.
        let t = Tokens.new_row n id now in
        let added : any (Tokens.by_id id) db.refresh_tokens ≡ false
            → any (by_hash n.token_hash) db.refresh_tokens ≡ false
            → AccountsAreValid lower (record db { refresh_tokens = db.refresh_tokens ++ t ∷ [] }) =
          λ fresh unused. record {
            accounts = h.accounts;
            unique = h.unique;
            tokens =
                All-append TokenIsValid db.refresh_tokens (t ∷ []) h.tokens
                  (record { generated = refl }, tt);
            unique_tokens = Distinct-insert clash_token db.refresh_tokens t h.unique_tokens (
                any-or (Tokens.by_id id) (by_hash n.token_hash) db.refresh_tokens
                ∙ ground (arith, fresh, unused));
          } in
        ground (arith, added, h);
  }

  -- Revocation of any rows.
  revoked-valid :
      (p : RefreshToken → Bool) (now : ℕ) (db : Tables)
      → AccountsAreValid lower db
      → AccountsAreValid lower
          (record db { refresh_tokens = update p (revoked_row now) db.refresh_tokens })
  revoked-valid p now db h = record {
    accounts = h.accounts;
    unique = h.unique;
    tokens =
        All-update TokenIsValid p (revoked_row now) db.refresh_tokens
          (λ t _ _. record { generated = refl }) h.tokens;
    unique_tokens =
        Distinct-update clash_token (revoked_row now) (λ _ _. refl) (λ _ _. refl) p
          db.refresh_tokens h.unique_tokens;
  }

  upsert-Keeps : (user f : Text) → StmtKeeps (AccountsAreValid lower) (upsert_stmt user f)
  unfolding upsert_stmt
  upsert-Keeps user f = record {
    on = λ id now db h.
        let same : (ds : List Device) → AccountsAreValid lower (record db { devices = ds }) = λ ds.
          record {
            accounts = h.accounts;
            unique = h.unique;
            tokens = h.tokens;
            unique_tokens = h.unique_tokens;
          } in
        ground (arith, same, h);
  }

  pub statements-AccountsAreValid : StatementsKeep lower (AccountsAreValid lower)
  unfolding revoke_stmt revoke_all_stmt
  statements-AccountsAreValid = record {
    inserts = insert-Keeps;
    links = link-Keeps lower;
    changes = change-Keeps;
    onboards = onboard-Keeps;
    tokens = insert_token-Keeps;
    revokes = λ id. record { on = λ _ now db h. revoked-valid (unrevoked_by_id id) now db h };
    revokes_all = λ user. record { on = λ _ now db h. revoked-valid (unrevoked_of user) now db h };
    devices = upsert-Keeps;
  }
