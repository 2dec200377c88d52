-- ===== src/Store/Changes.antt =====
-- One change of the state of a row by a statement, or none.
use olympiad_next.Prelude.{ℕ, ◌≡◌, ◌≢◌, ◌⊎◌, inl, inr, sym, ◌∙◌, Option}
use olympiad_next.Text.{Text}
use olympiad_next.Store.{Tables, Stmt}
use olympiad_next.Store.Keeps.{StmtKeeps}

module _ {S : Type 0} where
  -- The state stays, or it is `from` and becomes `to`, under a condition.
  abbrev pub Changes : Type 0 → Option S → Option S → Option S → Option S → Type 0
  Changes c from to s t = (t ≡ s) ⊎ (c × (s ≡ from) × (t ≡ to))

  Changes-trans :
      {c : Type 0} {from to : Option S} (s t u : Option S)
      → to ≢ from
      → Changes c from to s t
      → Changes c from to t u
      → Changes c from to s u
  Changes-trans s t u ne (inl e) (inl f) = inl (f ∙ e)
  Changes-trans s t u ne (inl e) (inr (c, a, b)) = inr (c, sym e ∙ a, b)
  Changes-trans s t u ne (inr (c, a, b)) (inl f) = inr (c, a, f ∙ b)
  Changes-trans s t u ne (inr (c, a, b)) (inr (d, a', b')) = absurd (ne (sym b ∙ a'))

  -- A statement that makes such a change keeps that it was all that happened.
  pub Changes-Stmt :
      {A : Type 0} {c : Type 0} {from to : Option S} (state : Tables → Option S) (start : Option S)
      (q : Stmt A)
      → to ≢ from
      → ((uuid : Text) (now : ℕ) (db : Tables)
          → Changes c from to (state db) (state (q uuid now db).1))
      → StmtKeeps (λ db. Changes c from to start (state db)) q
  Changes-Stmt state start q ne move = record {
    on = λ uuid now db h. Changes-trans start (state db) _ ne h (move uuid now db);
  }
