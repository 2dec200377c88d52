-- ===== src/Text/Case.antt =====
-- strings.ToUpper and strings.ToLower, rune by rune. ASCII letters, and the runes outside ASCII whose
-- image is an ASCII letter, are mapped; every other rune is kept. Go maps some of those too, but to
-- runes outside ASCII, which every pattern and constant of the program rejects before and after.
use Prim.Native.Nat.{◌+◌, ◌-◌}
use olympiad_next.Prelude.{
  ℕ, ◌≡◌, refl, ◌&&◌, [], ◌∷◌, map, arith, ap₂, ◌==◌, nat_eq, leb, if◌then◌else◌,
}
use olympiad_next.Text.{Text}

-- U+0131 is the dotless i, U+017F the long s.
unfoldable pub upper_rune : ℕ → ℕ
upper_rune c =
    if leb b'a' c && leb c b'z'
    then c - 32
    else if c == 0x131
    then b'I'
    else if c == 0x17f
    then b'S'
    else c

-- U+0130 is I with a dot, U+212A the Kelvin sign.
unfoldable pub lower_rune : ℕ → ℕ
lower_rune c =
    if leb b'A' c && leb c b'Z'
    then c + 32
    else if c == 0x130
    then b'i'
    else if c == 0x212a
    then b'k'
    else c

unfoldable pub to_upper : Text → Text
unfolding upper_rune
to_upper = map upper_rune

unfoldable pub to_lower : Text → Text
unfolding lower_rune
to_lower = map lower_rune

upper_rune_idem : (c : ℕ) → upper_rune (upper_rune c) ≡ upper_rune c
unfolding upper_rune
upper_rune_idem c = ground arith

pub to_upper_idem : (s : Text) → to_upper (to_upper s) ≡ to_upper s
unfolding to_upper
to_upper_idem [] = refl
to_upper_idem (c ∷ s) = ap₂ ◌∷◌ (upper_rune_idem c) (to_upper_idem s)
