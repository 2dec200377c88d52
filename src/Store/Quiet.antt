-- ===== src/Store/Quiet.antt =====
-- Actions that hand no message to a sender, whatever the server does.
use olympiad_next.Prelude.{◌≡◌, refl, ◌∙◌, Bool, true, false, inl, inr, if◌then◌else◌}
use olympiad_next.Errors.{Error, Result, Result-cases}
use olympiad_next.Store.{
  Tables, World, App, Stmt, pure, raise, attempt, ◌>>=◌, exec, query, Fate, runs, fails, loses,
  meet,
}

pub record Quiet {A : Type 0} (m : App A) : Type 0 where
  pub at : (w : World) → (m w).1.outbox ≡ w.outbox

module _ {A : Type 0} where
  pub Quiet-pure : (a : A) → Quiet (pure a)
  unfolding pure
  Quiet-pure a = record { at = λ w. refl }

  pub Quiet-raise : (e : Error) → Quiet (raise {A = A} e)
  unfolding raise
  Quiet-raise e = record { at = λ w. refl }

  pub Quiet-attempt : (m : App A) → Quiet m → Quiet (attempt m)
  unfolding attempt
  Quiet-attempt m k = record { at = λ w. k.at w }

  pub Quiet-exec : (q : Stmt A) → Quiet (exec q)
  unfolding exec
  Quiet-exec q = record { at = λ w. met (w.fate w.step) w }
    where
      met : (f : Fate) (w : World) → (meet f q w).1.outbox ≡ w.outbox
      met runs w = refl
      met fails w = refl
      met loses w = refl

  pub Quiet-query : (f : Tables → Result A) → Quiet (query f)
  unfolding query
  Quiet-query f = Quiet-exec _

  pub Quiet-if : (t : Bool) (on off : App A) → Quiet on → Quiet off → Quiet (if t then on else off)
  Quiet-if true on off k l = k
  Quiet-if false on off k l = l

module _ {A B : Type 0} where
  pub Quiet-bind : (m : App A) (f : A → App B) → Quiet m → ((a : A) → Quiet (f a)) → Quiet (m >>= f)
  unfolding ◌>>=◌
  Quiet-bind m f k l = record {
    at = λ w. elim (Result-cases (m w).0) [
      | inl (e, failed) ↦ rw failed (k.at w)
      | inr (a, answered) ↦ rw answered ((l a).at (m w).1 ∙ k.at w)
    ];
  }

pub ruleset quiet_rules =
    (Quiet-pure, Quiet-raise, Quiet-attempt, Quiet-exec, Quiet-query, Quiet-if, Quiet-bind)
