-- ===== src/Store/Answers.antt =====
-- What an answer without error says of the action behind it: one rule for each way to build an action.
use olympiad_next.Prelude.{
  suc, ◌≡◌, refl, Bool, true, false, ap, Option, some, arith, ◌⊎◌, inl, inr, if◌then◌else◌,
}
use olympiad_next.Errors.{Error, internal, Result, ok, err}
use olympiad_next.Store.{
  Tables, World, App, Stmt, attempt, lift, raise, on_result, require, ◌>>=◌, exec, query, continue,
  Fate, runs, fails, loses, meet, reading,
}
use olympiad_next.Store.Rows.{or_err}

-- An answer of the action in the world `w` is `P`, together with the world that it leaves.
pub record Ensures {A : Type 0} (m : App A) (w : World) (P : A → World → Type 0) : Type 0 where
  pub of : (a : A) → (m w).0 ≡ ok a → P a (m w).1

module _ {A B : Type 0} {P : B → World → Type 0} where
  continue-Ensures :
      (r : Result A) (f : A → App B) (w : World)
      → ((a : A) → r ≡ ok a → Ensures (f a) w P)
      → Ensures (continue r f) w P
  continue-Ensures (ok a) f w k = record { of = λ b h. (k a refl).of b h }
  continue-Ensures (err e) f w k = record { of = λ b h. cc }

  pub Ensures-bind :
      (m : App A) (f : A → App B) (w : World)
      → ((a : A) → (m w).0 ≡ ok a → Ensures (f a) (m w).1 P)
      → Ensures (m >>= f) w P
  unfolding ◌>>=◌
  Ensures-bind m f w k = record { of = λ b h. (continue-Ensures (m w).0 f (m w).1 k).of b h }

  pub Ensures-lift :
      (r : Result A) (f : A → App B) (w : World)
      → ((a : A) → r ≡ ok a → Ensures (f a) w P)
      → Ensures (lift r >>= f) w P
  unfolding ◌>>=◌
  Ensures-lift r f w k = record { of = λ b h. (continue-Ensures r f w k).of b h }

module _ {B : Type 0} {P : B → World → Type 0} where
  pub Ensures-require :
      (t : Bool) (e : Error) (f : Unit {0} → App B) (w : World)
      → (t ≡ true → Ensures (f tt) w P)
      → Ensures (require t e >>= f) w P
  unfolding ◌>>=◌
  Ensures-require true e f w k = record { of = λ b h. (k refl).of b h }
  Ensures-require false e f w k = record { of = λ b h. cc }

module _ {A B : Type 0} {P : B → World → Type 0} where
  pub Ensures-on_result :
      (r : Result A) (bad : Error → App B) (good : A → App B) (w : World)
      → ((e : Error) → r ≡ err e → Ensures (bad e) w P)
      → ((a : A) → r ≡ ok a → Ensures (good a) w P)
      → Ensures (on_result r bad good) w P
  unfolding on_result
  Ensures-on_result (err e) bad good w kb kg = kb e refl
  Ensures-on_result (ok a) bad good w kb kg = kg a refl

module _ {B : Type 0} {P : B → World → Type 0} where
  pub Ensures-raise : (e : Error) (w : World) → Ensures (raise e) w P
  unfolding raise
  Ensures-raise e w = record { of = λ a h. cc }

  pub Ensures-if :
      (t : Bool) (on off : App B) (w : World)
      → (t ≡ true → Ensures on w P)
      → (t ≡ false → Ensures off w P)
      → Ensures (if t then on else off) w P
  Ensures-if true on off w k l = k refl
  Ensures-if false on off w k l = l refl

module _ {A : Type 0} where
  -- A statement that answers has run.
  pub exec-ok :
      (q : Stmt A) (w : World) (a : A)
      → (exec q w).0 ≡ ok a
      → let done = q (w.uuid w.step) w.now w.db in
        (done.0 ≡ ok a) × (exec q w ≡ (done.0, record w { db = done.1; step = suc w.step }))
  unfolding exec
  exec-ok q w a h = met (w.fate w.step) h
    where
      met :
          (f : Fate)
          → (meet f q w).0 ≡ ok a
          → let done = q (w.uuid w.step) w.now w.db in
            (done.0 ≡ ok a) × (meet f q w ≡ (done.0, record w { db = done.1; step = suc w.step }))
      met runs h = (h, refl)
      met fails h = cc
      met loses h = cc

  -- A read that answers has read the tables as they are, and left them.
  pub query-ok :
      (f : Tables → Result A) (w : World) (a : A)
      → (query f w).0 ≡ ok a
      → (f w.db ≡ ok a) × ((query f w).1.db ≡ w.db)
  unfolding query
  query-ok f w a h = let (said, ran) = exec-ok _ w a h in (said, ap (λ s. s.1.db) ran)

  -- It has left the whole world, but for the count of statements.
  pub query-world :
      (f : Tables → Result A) (w : World) (a : A)
      → (query f w).0 ≡ ok a
      → (f w.db ≡ ok a) × ((query f w).1 ≡ record w { step = suc w.step })
  unfolding query
  query-world f w a h = let (said, ran) = exec-ok _ w a h in (said, ap (λ s. s.1) ran)

  -- A read leaves the whole world, but for the count of statements, whatever its fate.
  pub query-left :
      (f : Tables → Result A) (w : World) → (query f w).1 ≡ record w { step = suc w.step }
  unfolding query exec
  query-left f w = met (w.fate w.step)
    where
      met : (x : Fate) → (meet x (reading f) w).1 ≡ record w { step = suc w.step }
      met runs = refl
      met fails = refl
      met loses = refl

  -- An attempt answers with what the action did.
  pub attempt-ok : (m : App A) (w : World) (r : Result A) → (attempt m w).0 ≡ ok r → (m w).0 ≡ r
  unfolding attempt
  attempt-ok m w r h = ground arith

  -- A row that a lookup answers with.
  pub found-row :
      (f : Tables → Option A) (e : Error) (w : World) (a : A)
      → (query (λ db. or_err (f db) e) w).0 ≡ ok a
      → (f w.db ≡ some a) × ((query (λ db. or_err (f db) e) w).1 ≡ record w { step = suc w.step })
  found-row f e w a h =
      let (said, left) = query-world (λ db. or_err (f db) e) w a h in (ground arith, left)

module _ {A B : Type 0} (f : A → App B) where
  -- A chain whose first action answers goes on from what that left.
  pub >>=-run : (m : App A) (w left : World) (a : A) → m w ≡ (ok a, left) → (m >>= f) w ≡ f a left
  unfolding ◌>>=◌
  >>=-run m w left a e = rw e refl

  -- A chain that fails has failed in its first action or after it.
  pub >>=-err :
      (m : App A) (w : World) (e : Error)
      → ((m >>= f) w).0 ≡ err e
      → ((m w).0 ≡ err e) ⊎ ((a : A) × ((m w).0 ≡ ok a) × ((f a (m w).1).0 ≡ err e))
  unfolding ◌>>=◌
  >>=-err m w e h = failed (m w).0 h
    where
      failed :
          (r : Result A)
          → (continue r f (m w).1).0 ≡ err e
          → (r ≡ err e) ⊎ ((a : A) × (r ≡ ok a) × ((f a (m w).1).0 ≡ err e))
      failed (ok a) h' = inr (a, refl, h')
      failed (err e') h' = inl (ground arith)

module _ {A : Type 0} where
  -- A statement fails by itself or by the server.
  pub exec-err :
      (q : Stmt A) (w : World) (e : Error)
      → (exec q w).0 ≡ err e
      → (e ≡ internal) ⊎ ((q (w.uuid w.step) w.now w.db).0 ≡ err e)
  unfolding exec
  exec-err q w e h = met (w.fate w.step) h
    where
      met :
          (f : Fate)
          → (meet f q w).0 ≡ err e
          → (e ≡ internal) ⊎ ((q (w.uuid w.step) w.now w.db).0 ≡ err e)
      met runs h' = inr h'
      met fails h' = inl (ground arith)
      met loses h' = inl (ground arith)
