-- ===== src/Notices.antt =====
-- internal/app/notices/service.go: the notice board.
pub mod Board
pub mod Answer
pub mod Requests
pub mod Tests
use olympiad_next.Prelude.{ℕ, ℤ, Bool, List, [], ◌==◌, is_negative, if◌then◌else◌}
use olympiad_next.Text.{Text, text_eq, lit}
use olympiad_next.Text.Trim.{trim_space}
use olympiad_next.Errors.{Error, notices_validation, Result, ok, err}
use olympiad_next.Domain.Notice.{Notice}
use olympiad_next.Store.{App, pure, lift, ◌>>=◌, ◌>>◌}
use olympiad_next.Postgres
use olympiad_next.Postgres.Notices.{NewNotice}

pub record Input : Type 0 where
  pub text_en : Text
  pub text_bn : Text
  pub display_order : ℤ
  pub is_active : Bool

-- Input.validate
unfoldable pub validate : Input → Result (Unit {0})
validate i =
    if trim_space i.text_en == []
    then err (notices_validation (lit "text_en is required"))
    else if trim_space i.text_bn == []
    then err (notices_validation (lit "text_bn is required"))
    else if is_negative i.display_order
    then err (notices_validation (lit "display_order cannot be negative"))
    else ok tt

abbrev pub new_notice : Input → NewNotice
new_notice i = record {
  text_en = trim_space i.text_en;
  text_bn = trim_space i.text_bn;
  display_order = i.display_order;
  is_active = i.is_active;
}

-- Service.Create
unfoldable pub create : Input → App Notice
unfolding validate
create i = do lift (validate i); Postgres.Notices.create (new_notice i)

-- What Update answers: a notice made of the input, whose created_at is never read from the table.
abbrev pub answered : Text → Input → ℕ → Notice
answered id i updated = record {
  id = trim_space id;
  text_en = trim_space i.text_en;
  text_bn = trim_space i.text_bn;
  display_order = i.display_order;
  is_active = i.is_active;
  created_at = 0;
  updated_at = updated;
}

-- Service.Update
unfoldable pub update : Text → Input → App Notice
unfolding validate
update id i = do
  lift (validate i)
  updated ← Postgres.Notices.update_by_id (trim_space id) (new_notice i)
  pure (answered id i updated)

-- Service.Delete
unfoldable pub delete : Text → App Unit
delete id = Postgres.Notices.delete (trim_space id)

-- Service.ListAll
unfoldable pub list_all : App (List Notice)
list_all = Postgres.Notices.list_all

-- Service.ListActive
unfoldable pub list_active : App (List Notice)
list_active = Postgres.Notices.list_active
