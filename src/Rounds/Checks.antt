-- ===== src/Rounds/Checks.antt =====
-- What validate and the loop of SetParticipants establish of the input that they pass.
use olympiad_next.Prelude.{
  ℤ, ◌≡◌, refl, Bool, false, none, some, List, [], ◌∷◌, any, All, arith, ◌==◌, int_eq, nat_eq,
  any-weaken, map, ap, subst, ==_iff, inl, inr, Option-cases,
}
use olympiad_next.Text.{Text, text_eq}
use olympiad_next.Text.Trim.{trim_space}
use olympiad_next.Errors.{ok, Result-cases}
use olympiad_next.Store.Unique.{Distinct}
use olympiad_next.Postgres.Participants.{Decided, has_rank}
use olympiad_next.Postgres.Rounds.Lift.{InputIsValid, DecisionIsValid}
use olympiad_next.Rounds.{Input, validate, new_round, is_allowed_level, ParticipantDecision}
use olympiad_next.Rounds.Decisions.{check_winner, check_decision, check_decisions, of_decision}

pub validate-ok :
    (event : Text) (i : Input)
    → validate i ≡ ok tt
    → InputIsValid is_allowed_level (new_round event i)
unfolding validate
validate-ok event i h = record {
  named = λ e. ground (arith, ==_iff (trim_space i.round_name) []);
  order = ground arith;
  starts = λ e. ground (arith, ==_iff i.start_at 0);
  duration = ground arith;
  level = ground arith;
}

-- What one decision that passes adds: itself, and its rank.
record Passed (is_final : Bool) (seen : List ℤ) (d : ParticipantDecision) (seen' : List ℤ)
    : Type 0 where
  valid : DecisionIsValid is_final (of_decision d)
  ranks : elim d.rank as (λ _. Type 0) [
    | none ↦ seen' ≡ seen
    | some k ↦ (any (λ j. j == k) seen ≡ false) × (seen' ≡ k ∷ seen)
  ]

check_decision-ok :
    (f : Bool) (seen : List ℤ) (d : ParticipantDecision) (seen' : List ℤ)
    → check_decision f seen d ≡ ok seen'
    → Passed f seen d seen'
unfolding check_decision check_winner
check_decision-ok f seen d seen' h = elim (Option-cases d.rank) [
  | inl absent ↦ record {
    valid = record {
      user = λ e. ground (arith, ==_iff (trim_space d.user_id) []);
      status = ground arith;
      rank = rw absent (ground arith);
      final = λ e. ground arith;
    };
    ranks = rw absent (ground arith);
  }
  | inr (k, present) ↦ record {
    valid = record {
      user = λ e. ground (arith, ==_iff (trim_space d.user_id) []);
      status = ground arith;
      rank = rw present (ground arith, ground arith);
      final = λ e. ground arith;
    };
    ranks = rw present (ground arith, ground arith);
  }
]

-- Two decisions that give the same rank.
abbrev pub same_rank : Decided → Decided → Bool
same_rank a b = elim b.rank [ none ↦ false | some k ↦ has_rank k a.rank ]

-- A decision with a rank that has been used.
abbrev uses : List ℤ → Decided → Bool
uses seen d = elim d.rank [ none ↦ false | some k ↦ any (λ j. j == k) seen ]

-- What the loop returns for decisions that pass after the ranks `seen`.
pub record Loop (is_final : Bool) (seen : List ℤ) (ds : List ParticipantDecision)
    (out : List Decided) : Type 0 where
  pub valid : All (DecisionIsValid is_final) out
  pub fresh : any (uses seen) out ≡ false
  pub distinct : Distinct same_rank out
  pub mapped : out ≡ map of_decision ds

Loop-cons :
    (f : Bool) (seen seen' : List ℤ) (d : ParticipantDecision) (ds : List ParticipantDecision)
    (out : List Decided)
    → Passed f seen d seen'
    → Loop f seen' ds out
    → Loop f seen (d ∷ ds) (of_decision d ∷ out)
unfolding any
Loop-cons f seen seen' d ds out p l = elim (Option-cases d.rank) [
  | inl absent ↦
      let same : seen' ≡ seen = rw absent at (p.ranks) in
      record {
        valid = (p.valid, l.valid);
        fresh = rw absent (subst (λ z. any (uses z) out ≡ false) same l.fresh);
        distinct = (
          any-weaken (uses seen') (same_rank (of_decision d)) out
              (λ x _. ground (arith, Option-cases x.rank)) l.fresh,
          l.distinct,
        );
        mapped = ap (◌∷◌ (of_decision d)) l.mapped;
      }
  | inr (k, present) ↦
      let (free, more) = rw present at (p.ranks) in
      let later = rw more at (l.fresh) in
      record {
        valid = (p.valid, l.valid);
        fresh =
            rw (present, free)
              (any-weaken (uses (k ∷ seen)) (uses seen) out
                (λ x e. ground (arith, Option-cases x.rank)) later);
        distinct = (
          any-weaken (uses (k ∷ seen)) (same_rank (of_decision d)) out
              (λ x e. ground (arith, Option-cases x.rank)) later,
          l.distinct,
        );
        mapped = ap (◌∷◌ (of_decision d)) l.mapped;
      }
]

-- Decisions that pass the loop of SetParticipants: each has a student, one of the three statuses, and a
-- positive rank exactly if it is `winner`, which only a final round allows; no two share a rank; and the
-- loop returns them in order.
pub check_decisions-Loop :
    (f : Bool) (seen : List ℤ) (ds : List ParticipantDecision) (out : List Decided)
    → check_decisions f seen ds ≡ ok out
    → Loop f seen ds out
unfolding check_decisions any
check_decisions-Loop f seen [] out h =
    let e : out ≡ [] = ground arith in
    rw e (record { valid = tt; fresh = refl; distinct = tt; mapped = refl })
check_decisions-Loop f seen (d ∷ ds) out h = elim (Result-cases (check_decision f seen d)) [
  | inl (e, bad) ↦ cc
  | inr (seen', good) ↦ elim (Result-cases (check_decisions f seen' ds)) [
    | inl (e, bad) ↦ ground arith
    | inr (rest, fine) ↦
        let same : out ≡ of_decision d ∷ rest = ground arith in
        rw same (
          Loop-cons f seen seen' d ds rest (check_decision-ok f seen d seen' good)
            (check_decisions-Loop f seen' ds rest fine))
  ]
]
