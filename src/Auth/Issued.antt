-- ===== src/Auth/Issued.antt =====
-- Whose session a token pair is.
use olympiad_next.Prelude.{◌≡◌, refl, Option, none, some, arith}
use olympiad_next.Text.{Text}
use olympiad_next.Errors.{ok}
use olympiad_next.Store.{World, lift, pure}
use olympiad_next.Store.Answers.{Ensures, Ensures-bind}
use olympiad_next.Auth.Outside.{Outside, Claims, or_internal}
use olympiad_next.Auth.Jwt.{Manager, generate_access_token, generate_refresh_token}
use olympiad_next.Auth.Session.{issue_token_pair, issue_session_after_auth}

-- The token is the signature of claims of the user.
pub record IsSigned (o : Outside) (secret user : Text) (email : Option Text) (token : Text)
    : Type 0 where
  pub claims : Claims
  pub of_user : claims.user_id ≡ user
  pub with_email : claims.email ≡ email
  pub signed : o.signed_string secret claims ≡ some token

-- Both tokens of a pair are the user's, and the access token has the address.
pub record IsSessionOf (o : Outside) (m : Manager) (user email access refresh : Text) : Type 0 where
  pub access_token : IsSigned o m.access_secret user (some email) access
  pub refresh_token : IsSigned o m.refresh_secret user none refresh

module _ {A : Type 0} where
  or_internal-some : (x : Option A) (a : A) → or_internal x ≡ ok a → x ≡ some a
  or_internal-some none a h = cc
  or_internal-some (some b) a h = ground arith

module _ (o : Outside) (m : Manager) where
  IsSigned-claims :
      (secret : Text) (c : Claims) (token : Text)
      → or_internal (o.signed_string secret c) ≡ ok token
      → IsSigned o secret c.user_id c.email token
  IsSigned-claims secret c token h = record {
    claims = c;
    of_user = refl;
    with_email = refl;
    signed = or_internal-some (o.signed_string secret c) token h;
  }

  access-Ensures :
      (user email : Text) (w : World)
      → Ensures
          (generate_access_token o m user email)
          w
          (λ t _. IsSigned o m.access_secret user (some email) t)
  unfolding generate_access_token lift
  access-Ensures user email w = Ensures-bind _ _ w λ now e.
      Ensures-bind _ _ _ λ jti f. record { of = λ t h. IsSigned-claims m.access_secret _ t h }

  refresh-Ensures :
      (user : Text) (w : World)
      → Ensures
          (generate_refresh_token o m user)
          w
          (λ t _. IsSigned o m.refresh_secret user none t.0)
  unfolding generate_refresh_token lift pure
  refresh-Ensures user w = Ensures-bind _ _ w λ now e. Ensures-bind _ _ _ λ jti f.
      Ensures-bind _ _ _ λ token g. record {
        of = λ t h.
            let same : token ≡ t.0 = ground arith in
            rw (← same) (IsSigned-claims m.refresh_secret _ token g);
      }

  pair-Ensures :
      (user email fingerprint : Text) (w : World)
      → Ensures
          (issue_token_pair o m user email fingerprint)
          w
          (λ p _. IsSessionOf o m user email p.0.access_token p.0.refresh_token)
  unfolding issue_token_pair pure
  pair-Ensures user email fingerprint w = Ensures-bind _ _ w λ access a.
      Ensures-bind _ _ _ λ refresh r. Ensures-bind _ _ _ λ now e. Ensures-bind _ _ _ λ created f.
        Ensures-bind _ _ _ λ duplicate g. Ensures-bind _ _ _ λ bound d. record {
          of = λ p h.
              let one : access ≡ p.0.access_token = ground arith in
              let two : refresh.0 ≡ p.0.refresh_token = ground arith in
              rw (← one, ← two)
                (record {
                  access_token = (access-Ensures user email _).of access a;
                  refresh_token = (refresh-Ensures user _).of refresh r;
                });
        }

  -- The session after a login is the account's.
  pub issue_session-Ensures :
      (user email fingerprint : Text) (w : World)
      → Ensures
          (issue_session_after_auth o m user email fingerprint)
          w
          (λ p _. IsSessionOf o m user email p.access_token p.refresh_token)
  unfolding issue_session_after_auth pure
  issue_session-Ensures user email fingerprint w = Ensures-bind _ _ w λ issued e. record {
    of = λ p h.
        let same : issued.0 ≡ p = ground arith in
        rw (← same) ((pair-Ensures user email fingerprint w).of issued e);
  }
