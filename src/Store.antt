-- ===== src/Store.antt =====
-- The state behind a request: the tables of the database, the clock, and the database server, which
-- decides the fate of each statement. A request is an action on that state.
pub mod Rows
pub mod Keeps
pub mod Changes
pub mod Answers
pub mod Unique
pub mod Order
pub mod Quiet
use olympiad_next.Prelude.{ℕ, suc, List, Bool, true, false}
use olympiad_next.Text.{Text}
use olympiad_next.Errors.{Error, internal, Result, ok, err}
use olympiad_next.Domain.User.{User}
use olympiad_next.Domain.Event.{Event}
use olympiad_next.Domain.Registration.{Registration}
use olympiad_next.Domain.Round.{Round, Participant}
use olympiad_next.Domain.Prize.{Prize}
use olympiad_next.Domain.Notice.{Notice}
use olympiad_next.Domain.Token.{RefreshToken}
use olympiad_next.Domain.Device.{Device}
use olympiad_next.Domain.Message.{Message}

-- The tables users, events, exam_registrations, rounds, round_participants, prizes, notices,
-- refresh_tokens and user_devices.
pub record Tables : Type 0 where
  pub users : List User
  pub events : List Event
  pub registrations : List Registration
  pub rounds : List Round
  pub participants : List Participant
  pub prizes : List Prize
  pub notices : List Notice
  pub refresh_tokens : List RefreshToken
  pub devices : List Device

-- A statement does what its text says; or it fails and does nothing; or it takes effect and its
-- answer is lost.
pub data Fate : Type 0 where
  runs fails loses : Fate

-- `step` counts the statements so far. The statement number n meets `fate n`, and `uuid n` is what
-- gen_random_uuid() returns in it. A request reads the clock at one instant. `outbox` has the messages
-- that were handed to a sender, the last first, and `spawned` the goroutines that have not run yet: each
-- is to record the login of a user from a device.
pub record World : Type 0 where
  pub db : Tables
  pub now : ℕ
  pub step : ℕ
  pub fate : ℕ → Fate
  pub uuid : ℕ → Text
  pub outbox : List Message
  pub spawned : List (Text × Text)

-- The same world with a server that runs every statement.
abbrev pub healthy : World → World
healthy w = record w { fate = λ _. runs }

abbrev pub App : Type 0 → Type 0
App A = World → Result A × World

module _ {A : Type 0} where
  unfoldable pub pure : A → App A
  pure a w = (ok a, w)

  unfoldable pub raise : Error → App A
  raise e w = (err e, w)

  unfoldable pub lift : Result A → App A
  lift r w = (r, w)

  -- `x, err := f()` where the caller looks at the error.
  unfoldable pub attempt : App A → App (Result A)
  attempt m w = let (r, w') = m w in (ok r, w')

-- An early return with an error unless the test holds.
unfoldable pub require : Bool → Error → App Unit
require true e w = (ok tt, w)
require false e w = (err e, w)

unfoldable pub clock : App ℕ
clock w = (ok w.now, w)

module _ {A B : Type 0} where
  abbrev pub continue : Result A → (A → App B) → App B
  continue (ok a) f w = f a w
  continue (err e) f w = (err e, w)

  infixl 5 ◌>>=◌ ◌>>◌
  unfoldable pub ◌>>=◌ : App A → (A → App B) → App B
  unfolding pure raise lift attempt require clock
  ◌>>=◌ m f w = let (r, w') = m w in continue r f w'

  abbrev pub ◌>>◌ : App A → App B → App B
  m >> k = m >>= λ _. k

  -- `if err != nil { ... }`, with what follows it.
  unfoldable pub on_result : Result A → (Error → App B) → (A → App B) → App B
  on_result (err e) bad good = bad e
  on_result (ok a) bad good = good a

-- A statement sees its uuid, the time and the tables.
abbrev pub Stmt : Type 0 → Type 0
Stmt A = Text → ℕ → Tables → Result A × Tables

module _ {A : Type 0} where
  abbrev meet : Fate → Stmt A → App A
  meet runs q w =
      let (r, db) = q (w.uuid w.step) w.now w.db in (r, record w { db = db; step = suc w.step })
  meet fails q w = (err internal, record w { step = suc w.step })
  meet loses q w =
      (err internal, record w { db = (q (w.uuid w.step) w.now w.db).1; step = suc w.step })

  -- One statement on the database.
  unfoldable pub exec : Stmt A → App A
  exec q w = meet (w.fate w.step) q w

  abbrev pub reading : (Tables → Result A) → Stmt A
  reading f _ _ db = (f db, db)

  -- A statement that only reads.
  unfoldable pub query : (Tables → Result A) → App A
  unfolding exec
  query f = exec (reading f)
