-- ===== src/Text/Decimal.antt =====
-- The verb %d on a number below 10 ^ 20, which every int64 is.
use olympiad_next.Prelude.{
  ℕ, ℤ, pos, negsuc, zero, suc, ◌+◌, ◌/◌, ◌%◌, ltb, [], ◌∷◌, ◌++◌, if◌then◌else◌,
}
use olympiad_next.Text.{Text}

abbrev digits : ℕ → ℕ → Text
digits zero n = []
digits (suc fuel) n =
    let rest = digits fuel (n / 10) in
    if ltb n 10 then (b'0' + n) ∷ [] else rest ++ (b'0' + n % 10) ∷ []

abbrev decimal : ℕ → Text
decimal n = digits 20 n

abbrev pub show : ℤ → Text
show (pos n) = decimal n
show (negsuc n) = b'-' ∷ decimal (suc n)
