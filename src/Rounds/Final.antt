-- ===== src/Rounds/Final.antt =====
-- CreateRound's own check for a second final round, and the unique index behind it.
use olympiad_next.Prelude.{
  ◌≡◌, ◌≢◌, refl, Bool, true, false, ◌&&◌, List, [], ◌∷◌, any, filter, All, any-filter, arith,
  int_eq, inl, inr, leb_ℤ,
}
use olympiad_next.Text.{Text, text_eq, eq_text_iff}
use olympiad_next.Errors.{Error, of_round, RoundError, rounds_validation, ok, err}
use olympiad_next.Domain.Round.{Round}
use olympiad_next.Store.{Tables, World, lift, require, query, pure}
use olympiad_next.Store.Rows.{any-order_by}
use olympiad_next.Store.Keeps.{Keeps}
use olympiad_next.Store.Answers.{Ensures, Ensures-bind, query-world, >>=-err, exec-err}
use olympiad_next.Postgres
use olympiad_next.Postgres.Rounds.{NewRound, by_event, by_final, final_taken, insert_round}
use olympiad_next.Rounds.{
  Input, validate, check_final, check_no_other_final, is_other_final, new_round, create_round,
}
use olympiad_next.Rounds.Reads.{check_final-Keeps}

abbrev duplicate : Error
duplicate = of_round RoundError.duplicate_final

-- gen_random_uuid() never returns the empty text.
abbrev pub IdsAreIssued : Tables → Type 0
IdsAreIssued db = All (λ r. r.id ≢ []) db.rounds

others-final :
    (event level : Text) (rs : List Round)
    → All (λ r. r.id ≢ []) rs
    → any (λ r. by_event event r && is_other_final level [] r) rs ≡ false
    → any (by_final event level) rs ≡ false
unfolding any
others-final event level [] ids h = refl
others-final event level (r ∷ rs) ids h =
    ground (arith, others-final event level rs, ids.0, ids.1, eq_text_iff r.id [])

no_final :
    (event level : Text) (w : World)
    → IdsAreIssued w.db
    → Ensures
        (check_no_other_final event level [])
        w
        (λ _ _. any (by_final event level) w.db.rounds ≡ false)
unfolding check_no_other_final Postgres.Rounds.list_by_event require
no_final event level w ids = Ensures-bind _ _ w λ existing read. record {
  of = λ u h.
      let (said, left) = query-world _ w existing read in
      let other = is_other_final level [] in
      let sorted =
        any-order_by other (λ a b. leb_ℤ a.round_order b.round_order)
          (filter (by_event event) w.db.rounds) in
      let here = any-filter other (by_event event) w.db.rounds in
      others-final event level w.db.rounds ids (ground (arith, sorted, here));
}

valid-not_duplicate : (i : Input) → validate i ≢ err duplicate
unfolding validate
valid-not_duplicate i h = ground arith

require-not_duplicate :
    (b : Bool) (m : Text) (w : World) → (require b (rounds_validation m) w).0 ≢ err duplicate
unfolding require
require-not_duplicate true m w h = cc
require-not_duplicate false m w h = ground arith

checked-not_duplicate :
    (f : Bool) (event level : Text) (w : World) → (check_final f event level [] w).0 ≢ err duplicate
unfolding check_final check_no_other_final Postgres.Rounds.list_by_event query pure require
checked-not_duplicate false event level w h = cc
checked-not_duplicate true event level w h = elim (>>=-err _ _ w duplicate h) [
  | inl listed ↦ elim (exec-err _ w duplicate listed) [ inl down ↦ cc | inr read ↦ cc ]
  | inr (rs, said, refused) ↦ require-not_duplicate _ _ _ refused
]

inserted-not_duplicate :
    (n : NewRound) (w : World)
    → final_taken n.is_final n.event_id n.level w.db.rounds ≡ false
    → (Postgres.Rounds.create n w).0 ≢ err duplicate
unfolding Postgres.Rounds.create insert_round
inserted-not_duplicate n w free h = elim (exec-err _ w duplicate h) [
  | inl down ↦ cc
  | inr refused ↦ ground arith
]

checked-free :
    (f : Bool) (event level : Text) (w : World) (u : Unit)
    → IdsAreIssued w.db
    → (check_final f event level [] w).0 ≡ ok u
    → final_taken f event level (check_final f event level [] w).1.db.rounds ≡ false
unfolding check_final
checked-free false event level w u ids h = refl
checked-free true event level w u ids h =
    let kept : Keeps (λ db. any (by_final event level) db.rounds ≡ false)
        (check_no_other_final event level []) =
      check_final-Keeps true event level [] in
    kept.at w ((no_final event level w ids).of u h)

-- CreateRound, with no other request between its statements and whatever the server does to them, never
-- answers with ErrDuplicateFinal, where no round has the empty id.
pub create_round-duplicate_final :
    (event : Text) (i : Input) (w : World)
    → IdsAreIssued w.db
    → (create_round event i w).0 ≢ err (of_round RoundError.duplicate_final)
unfolding create_round lift
create_round-duplicate_final event i w ids h = elim (>>=-err _ _ w duplicate h) [
  | inl invalid ↦ valid-not_duplicate i invalid
  | inr (_, valid, h1) ↦ elim (>>=-err _ _ w duplicate h1) [
    | inl refused ↦ checked-not_duplicate i.is_final event i.level w refused
    | inr (u, passed, h2) ↦
        inserted-not_duplicate (new_round event i) (check_final i.is_final event i.level [] w).1
          (checked-free i.is_final event i.level w u ids passed) h2
  ]
]
