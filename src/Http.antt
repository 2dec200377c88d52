-- ===== src/Http.antt =====
-- internal/http: the middleware and the handlers on accounts, profiles and files. A handler is an action
-- whose answer is a status with a body, or a status with the message of an error.
pub mod Gates
pub mod Files
pub mod Profile
pub mod Device
pub mod Owners
pub mod Reviewed
pub mod Admin
pub mod Cookies
pub mod Sessions
pub mod Entry
pub mod Logins
pub mod Uploads
pub mod Registrations
pub mod Cards
pub mod CardTests
pub mod Tests
use olympiad_next.Prelude.{ℕ, Bool, true, false, ◌≡◌, ◌≢◌, refl, inl, inr, if◌then◌else◌}
use olympiad_next.Text.{Text}
use olympiad_next.Errors.{Error, Result, Result-cases, ok, err}
use olympiad_next.Store.{Tables, World, App}

pub data Reply (A : Type 0) : Type 0 where
  done : ℕ → A → Reply A
  refused : ℕ → Text → Reply A

abbrev pub Handler : Type 0 → Type 0
Handler A = World → Reply A × World

module _ {A : Type 0} where
  -- response.JSON
  unfoldable pub answer : ℕ → A → Handler A
  answer status body w = (done status body, w)

  -- response.Error
  unfoldable pub refuse : ℕ → Text → Handler A
  refuse status message w = (refused status message, w)

module _ {A B : Type 0} where
  abbrev pub settle : Result A → (Error → Handler B) → (A → Handler B) → Handler B
  settle (ok a) bad good w = good a w
  settle (err e) bad good w = bad e w

  -- A call of a service or a repository, with what follows an error and what follows an answer.
  unfoldable pub call : App A → (Error → Handler B) → (A → Handler B) → Handler B
  call m bad good w = let (r, left) = m w in settle r bad good left

-- If the handler ends well in the world `w`, its answer is `P`, together with the world that it leaves.
pub record Delivers {A : Type 0} (h : Handler A) (w : World) (P : ℕ → A → World → Type 0)
    : Type 0 where
  pub of : (s : ℕ) (a : A) → (h w).0 ≡ done s a → P s a (h w).1

module _ {A B : Type 0} {P : ℕ → B → World → Type 0} where
  pub Delivers-call :
      (m : App A) (bad : Error → Handler B) (good : A → Handler B) (w : World)
      → ((e : Error) → (m w).0 ≡ err e → Delivers (bad e) (m w).1 P)
      → ((a : A) → (m w).0 ≡ ok a → Delivers (good a) (m w).1 P)
      → Delivers (call m bad good) w P
  unfolding call
  Delivers-call m bad good w kb kg = elim (Result-cases (m w).0) [
    | inl (e, failed) ↦ record { of = λ s b h. rw failed ((kb e failed).of s b (rw failed at (h))) }
    | inr (a, answered) ↦ record {
      of = λ s b h. rw answered ((kg a answered).of s b (rw answered at (h)));
    }
  ]

module _ {A : Type 0} {P : ℕ → A → World → Type 0} where
  -- A refusal is no good end.
  pub Delivers-refuse :
      (status : ℕ) (message : Text) (w : World) → Delivers (refuse status message) w P
  unfolding refuse
  Delivers-refuse status message w = record { of = λ s a h. cc }

  pub Delivers-if :
      (t : Bool) (on off : Handler A) (w : World)
      → (t ≡ true → Delivers on w P)
      → (t ≡ false → Delivers off w P)
      → Delivers (if t then on else off) w P
  Delivers-if true on off w k l = k refl
  Delivers-if false on off w k l = l refl

-- Whatever the answer, the handler leaves tables with `P` from the world `w`.
pub record Leaves {A : Type 0} (h : Handler A) (w : World) (P : Tables → Type 0) : Type 0 where
  pub of : P (h w).1.db

module _ {A B : Type 0} {P : Tables → Type 0} where
  pub Leaves-call :
      (m : App A) (bad : Error → Handler B) (good : A → Handler B) (w : World)
      → ((e : Error) → (m w).0 ≡ err e → Leaves (bad e) (m w).1 P)
      → ((a : A) → (m w).0 ≡ ok a → Leaves (good a) (m w).1 P)
      → Leaves (call m bad good) w P
  unfolding call
  Leaves-call m bad good w kb kg = elim (Result-cases (m w).0) [
    | inl (e, failed) ↦ record { of = rw failed ((kb e failed).of) }
    | inr (a, answered) ↦ record { of = rw answered ((kg a answered).of) }
  ]

module _ {A : Type 0} {P : Tables → Type 0} where
  pub Leaves-refuse :
      (status : ℕ) (message : Text) (w : World)
      → P w.db
      → Leaves (refuse {A = A} status message) w P
  unfolding refuse
  Leaves-refuse status message w h = record { of = h }

  pub Leaves-answer : (status : ℕ) (a : A) (w : World) → P w.db → Leaves (answer status a) w P
  unfolding answer
  Leaves-answer status a w h = record { of = h }

  pub Leaves-if :
      (t : Bool) (on off : Handler A) (w : World)
      → (t ≡ true → Leaves on w P)
      → (t ≡ false → Leaves off w P)
      → Leaves (if t then on else off) w P
  Leaves-if true on off w k l = k refl
  Leaves-if false on off w k l = l refl
