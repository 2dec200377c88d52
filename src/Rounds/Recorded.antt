-- ===== src/Rounds/Recorded.antt =====
-- SetParticipants records all its decisions or none.
use mathlib.Core.Option
use olympiad_next.Prelude.{
  ℕ, ℤ, ◌≡◌, refl, ◌∙◌, ap, inl, inr, true, false, ◌&&◌, Option, some, List, [], ◌∷◌, ◌++◌, find,
  any, ◌==◌, int_eq, arith, if◌then◌else◌, Bool-cases, Option-cases, find-passes, find-none_iff,
  find-some-any,
}
use olympiad_next.Text.{Text, text_eq, eq_text_iff}
use olympiad_next.Errors.{ok}
use olympiad_next.Domain.Round.{Participant, ParticipantStatus}
use olympiad_next.Store.{Tables, World, pure, exec}
use olympiad_next.Store.Rows.{update, find-update, find-append}
use olympiad_next.Store.Answers.{Ensures, Ensures-bind, exec-ok}
use olympiad_next.Postgres.Participants.{
  Decided, by_round_user, new_row, decided_row, upsert, upsert_all,
}

-- The decision on a student in a round.
abbrev pub Decision : Type 0
Decision = Option (ParticipantStatus × Option ℤ)

abbrev pub decision_of : Text → Text → List Participant → Decision
decision_of round user ps =
    Option.map (λ p. (p.status, p.rank)) (find (by_round_user round user) ps)

-- The decision `x` on the student in the round, after those of a request on the round `id`.
abbrev pub after : Text → List Decided → Text → Text → Decision → Decision
after id [] round user x = x
after id (d ∷ ds) round user x =
    after id ds round user (if round == id && user == d.user_id then some (d.status, d.rank) else x)

-- The tables are those before with the decisions of a request, the last one on each student.
abbrev pub Recorded : Text → List Decided → List Participant → List Participant → Type 0
Recorded id ds before left =
    (round user : Text)
    → decision_of round user left ≡ after id ds round user (decision_of round user before)

updated-decision :
    (id : Text) (d : Decided) (now : ℕ) (ps : List Participant) (round user : Text)
    → any (by_round_user id d.user_id) ps ≡ true
    → decision_of round user (update (by_round_user id d.user_id) (decided_row d now) ps)
      ≡ after id (d ∷ []) round user (decision_of round user ps)
updated-decision id d now ps round user there =
    let moved =
      find-update (by_round_user round user) (by_round_user id d.user_id) (decided_row d now) ps
        (λ _. refl) in
    elim (Option-cases (find (by_round_user round user) ps)) [
      | inl absent ↦ ground (
        arith,
        moved,
        (find-none_iff (by_round_user round user) ps).0 absent,
        there,
        eq_text_iff round id,
        eq_text_iff user d.user_id,
      )
      | inr (p, found) ↦ ground (
        arith,
        moved,
        find-passes (by_round_user round user) ps p found,
        eq_text_iff round id,
        eq_text_iff user d.user_id,
        eq_text_iff p.round_id round,
        eq_text_iff p.round_id id,
        eq_text_iff p.user_id user,
        eq_text_iff p.user_id d.user_id,
      )
    ]

inserted-decision :
    (id uid : Text) (d : Decided) (now : ℕ) (ps : List Participant) (round user : Text)
    → any (by_round_user id d.user_id) ps ≡ false
    → decision_of round user (ps ++ new_row id d uid now ∷ [])
      ≡ after id (d ∷ []) round user (decision_of round user ps)
unfolding find
inserted-decision id uid d now ps round user fresh =
    let added = find-append (by_round_user round user) ps (new_row id d uid now ∷ []) in
    elim (Option-cases (find (by_round_user round user) ps)) [
      | inl absent ↦ ground (
        arith,
        added,
        eq_text_iff round id,
        eq_text_iff user d.user_id,
        eq_text_iff id round,
        eq_text_iff d.user_id user,
      )
      | inr (p, found) ↦ ground (
        arith,
        added,
        find-some-any (by_round_user round user) ps p found,
        fresh,
        eq_text_iff round id,
        eq_text_iff user d.user_id,
      )
    ]

upsert-Recorded :
    (id : Text) (d : Decided) (uid : Text) (now : ℕ) (db : Tables)
    → (upsert id d uid now db).0 ≡ ok tt
    → Recorded id (d ∷ []) db.participants (upsert id d uid now db).1.participants
unfolding upsert
upsert-Recorded id d uid now db h round user =
    elim (Bool-cases (any (by_round_user id d.user_id) db.participants)) [
      | inl there ↦ ground (arith, updated-decision id d now db.participants round user there)
      | inr fresh ↦ ground (arith, inserted-decision id uid d now db.participants round user fresh)
    ]

pub upsert_all-Recorded :
    (id : Text) (ds : List Decided) (w : World)
    → Ensures (upsert_all id ds) w (λ _ w'. Recorded id ds w.db.participants w'.db.participants)
unfolding upsert_all pure
upsert_all-Recorded id [] w = record { of = λ _ _ round user. refl }
upsert_all-Recorded id (d ∷ ds) w = Ensures-bind _ _ w λ u ran. record {
  of = λ v h round user.
      let (said, left) = exec-ok (upsert id d) w tt ran in
      let one = upsert-Recorded id d (w.uuid w.step) w.now w.db said round user in
      let rest = (upsert_all-Recorded id ds (exec (upsert id d) w).1).of v h round user in
      rest
      ∙ ap (λ x. after id ds round user (decision_of round user x.1.db.participants)) left
      ∙ ap (after id ds round user) one;
}
