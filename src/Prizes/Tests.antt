-- ===== src/Prizes/Tests.antt =====
-- The theorem on prize tiers at a few requests, and a request that names another event.
use olympiad_next.Prelude.{ℕ, pos, refl, [], ◌∷◌, none, any, find, arith}
use olympiad_next.Text.{codes, eq_text, lit}
use olympiad_next.Text.Trim.{trim_space}
use olympiad_next.Store.{World}
use olympiad_next.Domain.Prize.{Prize}
use olympiad_next.Postgres.Prizes.{new_row}
use olympiad_next.Prizes.{Input, new_prize, is_allowed_level}
use olympiad_next.Prizes.Tiers.{TableIsValid, TierIsValid}
use olympiad_next.Prizes.Requests.{change, serve_all, serve_all-TierTable}
use olympiad_next.Fixtures.{event_id, no_tables, world}

abbrev tier : ℕ → ℕ → Input
tier a b = record {
  rank_from = pos a;
  rank_to = pos b;
  prize_name = codes "P";
  prize_description = none;
  level = codes "Junior";
}

-- The tier of the first place, stored under `p`.
abbrev first : Prize
first = new_row (new_prize event_id (tier 1 1)) (codes "p") 1

abbrev w0 : World
w0 = world (record no_tables { prizes = first ∷ [] }) 5

first-TierIsValid : TierIsValid first
unfolding trim_space is_allowed_level lit eq_text
first-TierIsValid = record {
  issued = λ e. cc;
  positive = refl;
  ordered = refl;
  named = λ e. cc;
  level = refl;
}

serve_all-TierTable_example :
    TableIsValid (serve_all (change event_id (codes "p") (tier 2 3) ∷ []) w0).db
unfolding any find trim_space eq_text
serve_all-TierTable_example =
    serve_all-TierTable (change event_id (codes "p") (tier 2 3) ∷ []) w0
      ((λ n e. cc), (λ p e. ground arith), tt)
      (record { rows = (first-TierIsValid, tt); apart = (refl, tt) })
