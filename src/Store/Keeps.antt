-- ===== src/Store/Keeps.antt =====
-- Rules about the tables that an action leaves: one for each way to build an action.
use olympiad_next.Prelude.{ℕ, ◌≡◌, refl, Bool, true, false, if◌then◌else◌}
use olympiad_next.Text.{Text}
use olympiad_next.Errors.{Error, Result, ok, err}
use olympiad_next.Store.{
  Tables, World, App, Stmt, pure, raise, lift, attempt, require, clock, ◌>>=◌, exec, query,
  on_result, continue, Fate, runs, fails, loses, meet,
}

-- From tables with `P`, the action leaves tables with `P`, whatever its result.
pub record Keeps (P : Tables → Type 0) {A : Type 0} (m : App A) : Type 0 where
  pub at : (w : World) → P w.db → P (m w).1.db

-- The same of one statement.
pub record StmtKeeps (P : Tables → Type 0) {A : Type 0} (q : Stmt A) : Type 0 where
  pub on : (id : Text) (now : ℕ) (db : Tables) → P db → P (q id now db).1

module _ {P : Tables → Type 0} {A : Type 0} where
  pub Keeps-lift : (r : Result A) → Keeps P (lift r)
  unfolding lift
  Keeps-lift r = record { at = λ _ before. before }

  pub Keeps-attempt : (m : App A) → Keeps P m → Keeps P (attempt m)
  unfolding attempt
  Keeps-attempt m k = record { at = λ w h. k.at w h }

  pub Keeps-pure : (a : A) → Keeps P (pure a)
  unfolding pure
  Keeps-pure a = record { at = λ _ before. before }

  pub Keeps-if :
      (t : Bool) (on off : App A)
      → (t ≡ true → Keeps P on)
      → (t ≡ false → Keeps P off)
      → Keeps P (if t then on else off)
  Keeps-if true on off one other = one refl
  Keeps-if false on off one other = other refl

  pub Keeps-raise : (e : Error) → Keeps P (raise {A = A} e)
  unfolding raise
  Keeps-raise e = record { at = λ _ before. before }

  meet-Keeps : (f : Fate) (q : Stmt A) (w : World) → StmtKeeps P q → P w.db → P (meet f q w).1.db
  meet-Keeps runs q w k h = k.on _ _ _ h
  meet-Keeps fails q w k h = h
  meet-Keeps loses q w k h = k.on _ _ _ h

  pub Keeps-exec : (q : Stmt A) → StmtKeeps P q → Keeps P (exec q)
  unfolding exec
  Keeps-exec q k = record { at = λ w h. meet-Keeps (w.fate w.step) q w k h }

  pub Keeps-query : (f : Tables → Result A) → Keeps P (query f)
  unfolding query
  Keeps-query f = Keeps-exec _ (record { on = λ _ _ _ h. h })

pub Keeps-clock : {P : Tables → Type 0} → Keeps P clock
unfolding clock
Keeps-clock = record { at = λ w h. h }

module _ {P : Tables → Type 0} {A B : Type 0} where
  continue-Keeps :
      (r : Result A) (f : A → App B) → ((a : A) → r ≡ ok a → Keeps P (f a)) → Keeps P (continue r f)
  continue-Keeps (ok a) f k = record { at = λ w h. (k a refl).at w h }
  continue-Keeps (err e) f k = record { at = λ w h. h }

  pub Keeps-bind :
      (m : App A) (f : A → App B) → Keeps P m → ((a : A) → Keeps P (f a)) → Keeps P (m >>= f)
  unfolding ◌>>=◌
  Keeps-bind m f km kf = record {
    at = λ w h. (continue-Keeps (m w).0 f (λ a _. kf a)).at (m w).1 (km.at w h);
  }

module _ {P : Tables → Type 0} where
  pub Keeps-require : (b : Bool) (e : Error) → Keeps P (require b e)
  unfolding require
  Keeps-require true e = record { at = λ w h. h }
  Keeps-require false e = record { at = λ w h. h }

module _ {P : Tables → Type 0} {A B : Type 0} where
  -- What follows a result that is at hand may use that it is no error.
  pub Keeps-lift-bind :
      (r : Result A) (f : A → App B) → ((a : A) → r ≡ ok a → Keeps P (f a)) → Keeps P (lift r >>= f)
  unfolding ◌>>=◌
  Keeps-lift-bind r f k = record { at = λ w h. (continue-Keeps r f k).at w h }

module _ {P : Tables → Type 0} {B : Type 0} where
  -- What follows an early return may use that its test holds.
  pub Keeps-require-bind :
      (b : Bool) (e : Error) (f : Unit {0} → App B)
      → (b ≡ true → Keeps P (f tt))
      → Keeps P (require b e >>= f)
  unfolding ◌>>=◌
  Keeps-require-bind true e f k = record { at = λ w h. (k refl).at w h }
  Keeps-require-bind false e f k = record { at = λ w h. h }

module _ {P : Tables → Type 0} {A B : Type 0} where
  pub Keeps-on_result :
      (r : Result A) (bad : Error → App B) (good : A → App B)
      → ((e : Error) → Keeps P (bad e))
      → ((a : A) → Keeps P (good a))
      → Keeps P (on_result r bad good)
  unfolding on_result
  Keeps-on_result (err e) bad good kb kg = kb e
  Keeps-on_result (ok a) bad good kb kg = kg a

pub ruleset keeps_rules = (
  Keeps-pure, Keeps-raise, Keeps-lift, Keeps-attempt, Keeps-if, Keeps-query, Keeps-clock,
  Keeps-require, Keeps-bind, Keeps-on_result,
)

-- From the world `w` with `P`, the action leaves tables with `P`.
pub record KeepsAt (P : Tables → Type 0) {A : Type 0} (m : App A) (w : World) : Type 0 where
  pub kept : P w.db → P (m w).1.db

module _ {P : Tables → Type 0} {A B : Type 0} where
  continue-KeepsAt :
      (r : Result A) (f : A → App B) (w : World)
      → ((a : A) → r ≡ ok a → KeepsAt P (f a) w)
      → KeepsAt P (continue r f) w
  continue-KeepsAt (ok a) f w k = k a refl
  continue-KeepsAt (err e) f w k = record { kept = λ h. h }

  -- What follows an action may use its answer.
  pub KeepsAt-bind :
      (m : App A) (f : A → App B) (w : World)
      → Keeps P m
      → ((a : A) → (m w).0 ≡ ok a → KeepsAt P (f a) (m w).1)
      → KeepsAt P (m >>= f) w
  unfolding ◌>>=◌
  KeepsAt-bind m f w km kf = record {
    kept = λ h. (continue-KeepsAt (m w).0 f (m w).1 kf).kept (km.at w h);
  }

module _ {P : Tables → Type 0} {A : Type 0} where
  pub KeepsAt-of : (m : App A) (w : World) → Keeps P m → KeepsAt P m w
  KeepsAt-of m w k = record { kept = k.at w }

module _ {P : Tables → Type 0} {A B : Type 0} where
  -- The tail of a chain that keeps `P` from every world needs no answer.
  pub KeepsAt-then :
      (m : App A) (f : A → App B) (w : World)
      → KeepsAt P m w
      → ((a : A) → Keeps P (f a))
      → KeepsAt P (m >>= f) w
  unfolding ◌>>=◌
  KeepsAt-then m f w km kf = record {
    kept = λ h.
        (continue-KeepsAt (m w).0 f (m w).1 (λ a _. KeepsAt-of (f a) (m w).1 (kf a))).kept
          (km.kept h);
  }

  pub KeepsAt-lift :
      (r : Result A) (f : A → App B) (w : World)
      → ((a : A) → r ≡ ok a → KeepsAt P (f a) w)
      → KeepsAt P (lift r >>= f) w
  unfolding ◌>>=◌
  KeepsAt-lift r f w k = record { kept = λ h. (continue-KeepsAt r f w k).kept h }

module _ {P : Tables → Type 0} {B : Type 0} where
  pub KeepsAt-require :
      (b : Bool) (e : Error) (f : Unit {0} → App B) (w : World)
      → (b ≡ true → KeepsAt P (f tt) w)
      → KeepsAt P (require b e >>= f) w
  unfolding ◌>>=◌
  KeepsAt-require true e f w k = record { kept = λ h. (k refl).kept h }
  KeepsAt-require false e f w k = record { kept = λ h. h }

module _ {P : Tables → Type 0} {A : Type 0} where
  -- A statement that keeps `P` from the tables, the time and the id that it meets.
  pub KeepsAt-exec :
      (q : Stmt A) (w : World)
      → (P w.db → P (q (w.uuid w.step) w.now w.db).1)
      → KeepsAt P (exec q) w
  unfolding exec
  KeepsAt-exec q w k = record { kept = met (w.fate w.step) }
    where
      met : (f : Fate) → P w.db → P (meet f q w).1.db
      met runs h = k h
      met fails h = h
      met loses h = k h
