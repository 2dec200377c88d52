-- ===== src/Rounds/Outcome.antt =====
-- The outcomes of SetParticipants: refused without effect, or recorded in full.
use olympiad_next.Prelude.{
  suc, ◌≡◌, refl, ◌∙◌, ap, inl, inr, Bool, true, false, List, [], ◌∷◌, map, length, subst,
}
use olympiad_next.Text.{Text}
use olympiad_next.Errors.{Error, internal, Result, ok, err, Result-cases}
use olympiad_next.Store.{Tables, World, Fate, runs, fails, loses, App, pure, require, lift, ◌>>=◌}
use olympiad_next.Store.Keeps.{Keeps, Keeps-query}
use olympiad_next.Postgres
use olympiad_next.Postgres.Reads.{round-Keeps}
use olympiad_next.Postgres.Participants.{
  Decided, upsert_all, upsert_participants, transaction, commit, begin,
}
use olympiad_next.Rounds.{ParticipantDecision}
use olympiad_next.Rounds.Decisions.{set_participants, of_decision}
use olympiad_next.Rounds.Checks.{check_decisions-Loop}
use olympiad_next.Rounds.Recorded.{Recorded, upsert_all-Recorded}

-- A call that answers `good` once it has recorded `ds`: it is refused, and the tables are as before; or
-- all is recorded and it answers so; or all is recorded and its answer is lost.
pub data Outcome {A : Type 0} (good : A) (id : Text) (ds : List Decided) (db : Tables)
    (r : Result A × World) : Type 0 where
  refused : (e : Error) → r.0 ≡ err e → r.1.db ≡ db → Outcome good id ds db r
  recorded :
      r.0 ≡ ok good → Recorded id ds db.participants r.1.db.participants → Outcome good id ds db r
  lost :
      r.0 ≡ err internal
      → Recorded id ds db.participants r.1.db.participants
      → Outcome good id ds db r

module _ {A B : Type 0} (good : B) (id : Text) (ds : List Decided) (db : Tables) where
  -- What comes before the transaction leaves the tables alone.
  Outcome-before :
      (m : App A) (f : A → App B) (w : World)
      → (m w).1.db ≡ db
      → ((a : A) → (m w).0 ≡ ok a → Outcome good id ds db (f a (m w).1))
      → Outcome good id ds db ((m >>= f) w)
  unfolding ◌>>=◌
  Outcome-before m f w same k = elim (Result-cases (m w).0) [
    | inl (e, bad) ↦ rw bad (refused e refl same)
    | inr (a, good') ↦ rw good' (k a good')
  ]

  -- The answer after it.
  Outcome-after :
      (a : A) (m : App A) (w : World)
      → Outcome a id ds db (m w)
      → Outcome good id ds db ((m >>= λ _. pure good) w)
  unfolding ◌>>=◌ pure
  Outcome-after a m w (refused e h same) = refused e (rw h refl) (rw h same)
  Outcome-after a m w (recorded h all) = recorded (rw h refl) (rw h all)
  Outcome-after a m w (lost h all) = lost (rw h refl) (rw h all)

module _ {B : Type 0} (good : B) (id : Text) (ds : List Decided) (db : Tables) where
  Outcome-require :
      (b : Bool) (e : Error) (f : Unit {0} → App B) (w : World)
      → w.db ≡ db
      → Outcome good id ds db (f tt w)
      → Outcome good id ds db ((require b e >>= f) w)
  unfolding ◌>>=◌
  Outcome-require true e f w same k = k
  Outcome-require false e f w same k = refused e refl same

  Outcome-lift :
      {A : Type 0} (r : Result A) (f : A → App B) (w : World)
      → w.db ≡ db
      → ((a : A) → r ≡ ok a → Outcome good id ds db (f a w))
      → Outcome good id ds db ((lift r >>= f) w)
  unfolding ◌>>=◌
  Outcome-lift (ok a) f w same k = k a refl
  Outcome-lift (err e) f w same k = refused e refl same

commit-Outcome :
    (f : Fate) (id : Text) (ds : List Decided) (db : Tables) (w : World)
    → Recorded id ds db.participants w.db.participants
    → Outcome tt id ds db (commit f tt db w)
commit-Outcome runs id ds db w h = recorded refl h
commit-Outcome fails id ds db w h = refused internal refl refl
commit-Outcome loses id ds db w h = lost refl h

transaction-Outcome :
    (id : Text) (ds : List Decided) (w : World)
    → Outcome tt id ds w.db (transaction (upsert_all id ds) w)
unfolding transaction
transaction-Outcome id ds w =
    let m = upsert_all id ds w in
    elim (Result-cases m.0) [
      | inl (e, bad) ↦ rw bad (refused e refl refl)
      | inr (u, good) ↦ rw good (
          commit-Outcome (m.1.fate m.1.step) id ds w.db m.1
            ((upsert_all-Recorded id ds w).of tt good))
    ]

upsert_participants-Outcome :
    (id : Text) (ds : List Decided) (w : World)
    → Outcome tt id ds w.db (upsert_participants id ds w)
unfolding upsert_participants pure
upsert_participants-Outcome id [] w = recorded refl (λ _ _. refl)
upsert_participants-Outcome id (d ∷ ds) w =
    let unchanged : Keeps (λ db. db ≡ w.db) begin = Keeps-query _ in
    let same = unchanged.at w refl in
    Outcome-before tt id (d ∷ ds) w.db begin (λ _. transaction (upsert_all id (d ∷ ds))) w same
      (λ _ _.
        subst (λ db. Outcome tt id (d ∷ ds) db (transaction (upsert_all id (d ∷ ds)) (begin w).1))
          same (transaction-Outcome id (d ∷ ds) (begin w).1))

length-map : {A B : Type 0} (f : A → B) (xs : List A) → length (map f xs) ≡ length xs
length-map f [] = refl
length-map f (x ∷ xs) = ap suc (length-map f xs)

-- The transaction, on decisions that have passed the checks.
decided-Outcome :
    (id : Text) (ds : List ParticipantDecision) (out : List Decided) (db : Tables) (w : World)
    → out ≡ map of_decision ds
    → w.db ≡ db
    → Outcome
        (length ds)
        id
        (map of_decision ds)
        db
        ((upsert_participants id out >>= λ _. pure (length out)) w)
decided-Outcome id ds out db w e same =
    let n : length out ≡ length ds = ap length e ∙ length-map of_decision ds in
    subst
      (λ k.
        Outcome k id (map of_decision ds) db
          ((upsert_participants id out >>= λ _. pure (length out)) w))
      n
      (subst
        (λ o.
          Outcome (length out) id o db ((upsert_participants id out >>= λ _. pure (length out)) w))
        e
        (subst
          (λ x.
            Outcome (length out) id out x
              ((upsert_participants id out >>= λ _. pure (length out)) w))
          same
          (Outcome-after (length out) id out w.db tt (upsert_participants id out) w
            (upsert_participants-Outcome id out w))))

-- SetParticipants, whatever the server does: it is refused and the tables are as before, or it records
-- every decision of the request, of several on one student the last, and no other, and then answers
-- with their number unless the answer of the COMMIT is lost.
pub set_participants-Outcome :
    (id : Text) (ds : List ParticipantDecision) (w : World)
    → Outcome (length ds) id (map of_decision ds) w.db (set_participants id ds w)
unfolding set_participants
set_participants-Outcome id ds w =
    let out = map of_decision ds in
    let n = length ds in
    let w1 = (Postgres.Rounds.find_by_id id w).1 in
    let read : Keeps (λ db. db ≡ w.db) (Postgres.Rounds.find_by_id id) = round-Keeps id in
    let same = read.at w refl in
    Outcome-before n id out w.db _ _ w same λ r _. Outcome-require n id out w.db _ _ _ w1 same (
      Outcome-require n id out w.db _ _ _ w1 same (
        Outcome-lift n id out w.db _ _ w1 same λ passed checked.
          decided-Outcome id ds passed w.db w1
            (check_decisions-Loop r.is_final [] ds passed checked).mapped same))
