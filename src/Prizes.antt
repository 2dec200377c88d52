-- ===== src/Prizes.antt =====
-- internal/app/prizes/service.go: the prize tiers of an event.
pub mod Tiers
pub mod Requests
pub mod Tests
use olympiad_next.Prelude.{
  ℕ, ℤ, Bool, true, false, not, ◌&&◌, ◌||◌, Option, none, some, List, [], ◌∷◌, ◌++◌, find, ◌==◌,
  leb_ℤ, is_positive, if◌then◌else◌,
}
use olympiad_next.Text.{Text, text_eq, lit}
use olympiad_next.Text.Trim.{trim_space}
use olympiad_next.Text.Decimal.{show}
use olympiad_next.Errors.{Error, prizes_validation, Result, ok, err}
use olympiad_next.Domain.Prize.{Prize}
use olympiad_next.Store.{App, pure, lift, ◌>>=◌, ◌>>◌}
use olympiad_next.Postgres
use olympiad_next.Postgres.Prizes.{NewPrize}

-- allowedLevels
unfoldable pub is_allowed_level : Text → Bool
is_allowed_level level =
    level == lit "Junior" || level == lit "Secondary" || level == lit "Higher Secondary"

pub record Input : Type 0 where
  pub rank_from : ℤ
  pub rank_to : ℤ
  pub prize_name : Text
  pub prize_description : Option Text
  pub level : Text

-- Input.validate
unfoldable pub validate : Input → Result (Unit {0})
unfolding is_allowed_level
validate i =
    if not (is_positive i.rank_from)
    then err (prizes_validation (lit "rank_from must be a positive integer"))
    else if not (is_positive i.rank_to)
    then err (prizes_validation (lit "rank_to must be a positive integer"))
    else if not (leb_ℤ i.rank_from i.rank_to)
    then err (prizes_validation (lit "rank_from must be less than or equal to rank_to"))
    else if trim_space i.prize_name == []
    then err (prizes_validation (lit "prize_name is required"))
    else if not (is_allowed_level i.level)
    then err (prizes_validation (lit "level must be one of: Junior, Secondary, Higher Secondary"))
    else ok tt

-- normalizedDescription
unfoldable pub normalized_description : Option Text → Option Text
normalized_description none = none
normalized_description (some s) = if trim_space s == [] then none else some (trim_space s)

abbrev pub overlaps : Input → Prize → Bool
overlaps i p = leb_ℤ i.rank_from p.rank_to && leb_ℤ p.rank_from i.rank_to

-- The tiers that the loop of checkNoOverlap refuses.
abbrev pub is_refused : Input → Text → Prize → Bool
is_refused i exclude p = not (p.id == exclude || not (p.level == i.level)) && overlaps i p

abbrev message_overlap : Input → Prize → Text
message_overlap i p =
    lit "rank range "
    ++ show i.rank_from
    ++ lit "-"
    ++ show i.rank_to
    ++ lit " overlaps an existing prize tier ("
    ++ show p.rank_from
    ++ lit "-"
    ++ show p.rank_to
    ++ lit ") for this level"

unfoldable pub refuse : Input → Option Prize → Result (Unit {0})
refuse i none = ok tt
refuse i (some p) = err (prizes_validation (message_overlap i p))

-- Service.checkNoOverlap
unfoldable pub check_no_overlap : Text → Input → Text → App Unit
unfolding refuse
check_no_overlap event i exclude = do
  existing ← Postgres.Prizes.list_by_event event
  lift (refuse i (find (is_refused i exclude) existing))

abbrev pub new_prize : Text → Input → NewPrize
new_prize event i = record {
  event_id = event;
  rank_from = i.rank_from;
  rank_to = i.rank_to;
  prize_name = trim_space i.prize_name;
  prize_description = normalized_description i.prize_description;
  level = i.level;
}

-- Service.Create
unfoldable pub create : Text → Input → App Prize
unfolding validate check_no_overlap normalized_description
create event i = do
  lift (validate i)
  check_no_overlap event i []
  Postgres.Prizes.create (new_prize event i)

-- The prize that Update returns: its created_at is the zero time.
abbrev pub answered : Text → NewPrize → ℕ → Prize
answered id n updated = record {
  id = id;
  event_id = n.event_id;
  level = n.level;
  rank_from = n.rank_from;
  rank_to = n.rank_to;
  prize_name = n.prize_name;
  prize_description = n.prize_description;
  created_at = 0;
  updated_at = updated;
}

-- Service.Update
unfoldable pub update : Text → Text → Input → App Prize
unfolding validate check_no_overlap normalized_description
update event raw i = do
  lift (validate i)
  let id = trim_space raw
  check_no_overlap event i id
  updated ← Postgres.Prizes.update_by_id id (new_prize event i)
  pure (answered id (new_prize event i) updated)

-- Service.Delete
unfoldable pub delete : Text → App Unit
delete raw = Postgres.Prizes.delete (trim_space raw)

-- Service.ListByEvent
unfoldable pub list_by_event : Text → App (List Prize)
list_by_event event = Postgres.Prizes.list_by_event event
