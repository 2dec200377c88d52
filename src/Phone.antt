-- ===== src/Phone.antt =====
-- Bangladeshi mobile numbers: normalizeSenderNumber of internal/app/registrations/service.go, and the
-- pattern that it ends in.
pub mod Forms
pub mod Tests
use olympiad_next.Prelude.{
  ℕ, Bool, replicate, ◌||◌, List, [], ◌∷◌, Option, none, some, ◌==◌, nat_eq, if◌then◌else◌,
}
use olympiad_next.Text.{Text, codes, delete, trim_prefix}
use olympiad_next.Text.Trim.{trim_space}
use olympiad_next.Text.Pattern.{Class, range, matches_all}

abbrev pub digit : Class
digit = range b'0' b'9'

-- `^01[3-9][0-9]{8}$`
abbrev pub sender_number_pattern : List Class
sender_number_pattern = (λ c. c == b'0') ∷ (λ c. c == b'1') ∷ range b'3' b'9' ∷ replicate 8 digit

abbrev pub separator : Class
separator c = c == 32 || c == b'-'

-- The number without the space around it and without spaces and dashes.
unfoldable pub bare : Text → Text
unfolding delete trim_space
bare raw = delete separator (trim_space raw)

-- strings.TrimPrefix(n, "+")
unfoldable pub drop_plus : Text → Text
unfolding trim_prefix
drop_plus n = elim (trim_prefix (b'+' ∷ []) n) [ none ↦ n | some rest ↦ rest ]

-- A leading 880 becomes 0.
unfoldable pub localize : Text → Text
unfolding trim_prefix
localize n = elim (trim_prefix (b'8' ∷ b'8' ∷ b'0' ∷ []) n) [ none ↦ n | some rest ↦ b'0' ∷ rest ]

unfoldable pub normalize_sender_number : Text → Option Text
unfolding bare drop_plus localize matches_all
normalize_sender_number raw =
    let n = localize (drop_plus (bare raw)) in
    if matches_all sender_number_pattern n then some n else none
