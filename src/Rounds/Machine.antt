-- ===== src/Rounds/Machine.antt =====
-- StartRound and EndRound as an abstract machine on one row.
use mathlib.Core.Option
use std.Path.{fun_ext}
use olympiad_next.Prelude.{
  ℕ, ◌≡◌, ◌≢◌, refl, Bool, true, false, Option, none, some, List, find, any, arith, if◌then◌else◌,
  Option-cases, Bool-cases, inl, inr, subst, find-passes,
}
use olympiad_next.Text.{Text, text_eq, eq_text_iff}
use olympiad_next.Errors.{of_round, RoundError, Result, ok, err}
use olympiad_next.Domain.Round.{Status, upcoming, ongoing, ended, Round, same_status}
use olympiad_next.Store.{Tables, World, healthy, App, exec, query, ◌>>=◌}
use olympiad_next.Store.Rows.{update, count-eq-zero, count-any, find-update}
use olympiad_next.Store.Unique.{Distinct, any_unique}
use olympiad_next.Postgres
use olympiad_next.Postgres.Rounds.{
  by_id, in_state, moved_row, move_round, explain, moved, set_status,
}
use olympiad_next.Postgres.Rounds.Valid.{clash, clash-key}
use olympiad_next.Rounds.{start_round, end_round}

abbrev pub RoundEntry : Type 0
RoundEntry = Option Round

abbrev pub round_entry : Text → Tables → RoundEntry
round_entry id db = find (by_id id) db.rounds

-- The states that a move starts from.
abbrev pub from_upcoming : Status → Bool
from_upcoming upcoming = true
from_upcoming ongoing = false
from_upcoming ended = false

abbrev pub from_ongoing : Status → Bool
from_ongoing upcoming = false
from_ongoing ongoing = true
from_ongoing ended = false

upcoming-same : (s : Status) → same_status s upcoming ≡ from_upcoming s
upcoming-same upcoming = refl
upcoming-same ongoing = refl
upcoming-same ended = refl

ongoing-same : (s : Status) → same_status s ongoing ≡ from_ongoing s
ongoing-same upcoming = refl
ongoing-same ongoing = refl
ongoing-same ended = refl

-- The move on the row; in another state it is refused.
abbrev pub move_step : (Status → Bool) → Status → ℕ → RoundEntry → Result Round × RoundEntry
move_step g to now none = (err (of_round RoundError.not_found), none)
move_step g to now (some r) =
    if g r.status
    then (
      ok (record r { status = to; updated_at = now }),
      some (record r { status = to; updated_at = now }),
    )
    else (err (of_round RoundError.invalid_transition), some r)

-- The answer and the row, and every other row.
abbrev pub MovesRound : Text → (Status → Bool) → Status → World → Result Round × World → Type 0
MovesRound id g to w r =
    (r.0 ≡ (move_step g to w.now (round_entry id w.db)).0)
    × (round_entry id r.1.db ≡ (move_step g to w.now (round_entry id w.db)).1)
    × ((j : Text) → j ≢ id → round_entry j r.1.db ≡ round_entry j w.db)

module _ (id : Text) (from to : Status) where
  -- The chain of StartRound and EndRound.
  abbrev change : App Round
  change = set_status id from to >>= λ _. Postgres.Rounds.find_by_id id

  passed :
      (rs : List Round)
      → Distinct clash rs
      → any (in_state id from) rs
        ≡ elim (find (by_id id) rs) [ none ↦ false | some r ↦ same_status r.status from ]
  passed rs d = any_unique clash (by_id id) (clash-key id) (λ r. same_status r.status from) rs d

  entry-update_self :
      (now : ℕ) (rs : List Round)
      → find (by_id id) (update (in_state id from) (moved_row to now) rs)
        ≡ Option.map
            (λ r. if same_status r.status from then moved_row to now r else r)
            (find (by_id id) rs)
  entry-update_self now rs = elim (Option-cases (find (by_id id) rs)) [
    | inl absent ↦
        ground (arith, find-update (by_id id) (in_state id from) (moved_row to now) rs (λ _. refl))
    | inr (r, found) ↦ ground (
      arith,
      find-update (by_id id) (in_state id from) (moved_row to now) rs (λ _. refl),
      find-passes (by_id id) rs r found,
    )
  ]

  change_db :
      (w : World)
      → (change (healthy w)).1.db
        ≡ record (w.db) { rounds = update (in_state id from) (moved_row to w.now) w.db.rounds }
  unfolding set_status ◌>>=◌ exec move_round moved explain query Postgres.Rounds.find_by_id
  change_db w = ground arith

  change_answer :
      (w : World)
      → Distinct clash w.db.rounds
      → (change (healthy w)).0
        ≡ (move_step (λ s. same_status s from) to w.now (round_entry id w.db)).0
  unfolding set_status ◌>>=◌ exec move_round moved explain query Postgres.Rounds.find_by_id
  change_answer w d =
      let seen = entry-update_self w.now w.db.rounds in
      elim (Option-cases (round_entry id w.db)) [
        | inl absent ↦
            ground (arith, seen, passed w.db.rounds d, count-eq-zero (in_state id from) w.db.rounds)
        | inr (r, found) ↦ elim (Bool-cases (same_status r.status from)) [
          | inl hit ↦
              ground (arith, seen, passed w.db.rounds d, count-any (in_state id from) w.db.rounds)
          | inr miss ↦
              ground
                (arith, seen, passed w.db.rounds d, count-eq-zero (in_state id from) w.db.rounds)
        ]
      ]

  entry-update_other :
      (now : ℕ) (rs : List Round) (j : Text)
      → j ≢ id
      → find (by_id j) (update (in_state id from) (moved_row to now) rs) ≡ find (by_id j) rs
  entry-update_other now rs j ne =
      let keeps = find-update (by_id j) (in_state id from) (moved_row to now) rs (λ _. refl) in
      elim (Option-cases (find (by_id j) rs)) [
        | inl absent ↦ ground (arith, keeps)
        | inr (r, found) ↦ ground (
          arith,
          keeps,
          find-passes (by_id j) rs r found,
          eq_text_iff r.id id,
          eq_text_iff r.id j,
        )
      ]

  change-MovesRound :
      (w : World)
      → Distinct clash w.db.rounds
      → MovesRound id (λ s. same_status s from) to w (change (healthy w))
  change-MovesRound w d =
      let left = change_db w in
      (
        change_answer w d,
        elim (Option-cases (round_entry id w.db)) [
          | inl absent ↦ ground (arith, left, entry-update_self w.now w.db.rounds)
          | inr (r, found) ↦ ground (arith, left, entry-update_self w.now w.db.rounds)
        ],
        λ j ne. rw left (entry-update_other w.now w.db.rounds j ne),
      )

-- StartRound and EndRound on a server that runs every statement: an upcoming round becomes ongoing, and an
-- ongoing one ended, and is the answer; a round in another state is refused, an unknown id is not found,
-- and no other round changes.
pub start_end-MovesRound :
    (id : Text) (w : World)
    → Distinct clash w.db.rounds
    → MovesRound id from_upcoming ongoing w (start_round id (healthy w))
      × MovesRound id from_ongoing ended w (end_round id (healthy w))
unfolding start_round end_round
start_end-MovesRound id w d = (
  subst (λ g. MovesRound id g ongoing w (start_round id (healthy w))) (fun_ext upcoming-same)
      (change-MovesRound id upcoming ongoing w d),
  subst (λ g. MovesRound id g ended w (end_round id (healthy w))) (fun_ext ongoing-same)
      (change-MovesRound id ongoing ended w d),
)
