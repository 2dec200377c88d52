-- ===== src/Auth/Outside.antt =====
-- The code that internal/auth and internal/app/notify call and that is not in the repository, as one
-- record of functions, and what the world does with them.
use olympiad_next.Prelude.{ℕ, Bool, Option, none, some, [], ◌∷◌, ◌++◌}
use olympiad_next.Text.{Text}
use olympiad_next.Errors.{internal, Result, ok, err}
use olympiad_next.Domain.Message.{Message, Delivery}
use olympiad_next.Store.{App}

-- The JSON of a token's claims; `email` is absent from a refresh token. Times are instants.
pub record Claims : Type 0 where
  pub user_id : Text
  pub email : Option Text
  pub jti : Text
  pub issued_at : ℕ
  pub expires_at : ℕ

-- The claims of Google's payload that are strings, or a Boolean, as the code asserts.
pub record Payload : Type 0 where
  pub sub : Option Text
  pub email : Option Text
  pub email_verified : Option Bool
  pub name : Option Text

-- A source of randomness is read at a statement count and, where it is read in a loop, at an index.
pub record Outside : Type 0 where
  -- SQL's LOWER, in the locale of the database.
  pub lower : Text → Text
  -- Whether net/mail.ParseAddress accepts the text.
  pub parses_address : Text → Bool
  -- bcrypt.GenerateFromPassword with its salt, and whether CompareHashAndPassword answers nil.
  pub bcrypt : ℕ → Text → Option Text
  pub bcrypt_matches : Text → Text → Bool
  -- hex.EncodeToString of sha256.Sum256.
  pub sha256_hex : Text → Text
  -- crypto/rand.Int below ten.
  pub random_digit : ℕ → ℕ → Option ℕ
  -- hex.EncodeToString of sixteen bytes of crypto/rand.Read.
  pub random_id : ℕ → ℕ → Option Text
  -- golang-jwt: NewNumericDate, SignedString with HS256 and a secret, and ParseWithClaims with that
  -- method and secret at an instant.
  pub numeric_date : ℕ → ℕ
  pub signed_string : Text → Claims → Option Text
  pub parse_with_claims : Text → ℕ → Text → Option Claims
  -- idtoken.Validate of a token for the client id.
  pub validate_id_token : Text → ℕ → Text → Option Payload
  -- The answer of a sender to a message.
  pub deliver : ℕ → Message → Delivery

-- A value of a source that can fail without a sentinel error.
abbrev pub or_internal {ℓ} : {A : Type ℓ} → Option A → Result A
or_internal none = err internal
or_internal (some a) = ok a

-- The count that a source of randomness is read at.
unfoldable pub moment : App ℕ
moment w = (ok w.step, w)

-- A message is handed to its sender.
unfoldable pub post : Outside → Message → App Delivery
post o m w = (ok (o.deliver w.step m), record w { outbox = m ∷ w.outbox })

-- `go s.upsertDeviceAsync(userID, deviceFingerprint)`
unfoldable pub spawn : Text → Text → App Unit
spawn user fingerprint w = (ok tt, record w { spawned = w.spawned ++ (user, fingerprint) ∷ [] })
