-- ===== src/Text/Trim.antt =====
-- strings.TrimSpace over unicode.IsSpace.
use mathlib.Core.List.{reverse, reverse-cons, reverse-reverse}
use olympiad_next.Prelude.{
  ℕ, Bool, false, ◌≡◌, refl, All, All-append, ◌||◌, ◌&&◌, [], ◌∷◌, ◌==◌, nat_eq, leb, if◌then◌else◌,
}
use olympiad_next.Text.{Text}

-- The runes with property White_Space.
unfoldable pub is_space : ℕ → Bool
is_space c =
    (leb 9 c && leb c 13)
    || c == 32
    || c == 0x85
    || c == 0xa0
    || c == 0x1680
    || (leb 0x2000 c && leb c 0x200a)
    || c == 0x2028
    || c == 0x2029
    || c == 0x202f
    || c == 0x205f
    || c == 0x3000

unfoldable pub trim_left : Text → Text
unfolding is_space
trim_left [] = []
trim_left (c ∷ s) = let rest = trim_left s in if is_space c then rest else c ∷ s

unfoldable pub trim_space : Text → Text
unfolding trim_left
trim_space s = reverse (trim_left (reverse (trim_left s)))

abbrev pub NoSpace : Text → Type 0
NoSpace = All (λ c. is_space c ≡ false)

trim_left_id : (s : Text) → NoSpace s → trim_left s ≡ s
unfolding trim_left
trim_left_id [] h = refl
trim_left_id (c ∷ s) h = rw h.0

NoSpace-reverse : (s : Text) → NoSpace s → NoSpace (reverse s)
NoSpace-reverse [] h = tt
NoSpace-reverse (c ∷ s) h =
    rw (reverse-cons c s) (All-append _ (reverse s) (c ∷ []) (NoSpace-reverse s h.1) (h.0, tt))

-- A text with no space in it is left alone.
pub trim_space_id : (s : Text) → NoSpace s → trim_space s ≡ s
unfolding trim_space
trim_space_id s h =
    rw (trim_left_id s h) (rw (trim_left_id (reverse s) (NoSpace-reverse s h)) (reverse-reverse s))
