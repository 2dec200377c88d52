-- ===== src/Text.antt =====
-- Go strings as lists of runes, and what the program uses of package strings and package unicode:
-- TrimSpace, ToUpper, ToLower, a Replacer that deletes, HasPrefix and TrimPrefix.
pub mod Case
pub mod Decimal
pub mod Trim
pub mod Pattern
pub mod Path
use Prim.Native.Char.{code}
use olympiad_next.Prelude.{
  ℕ, ◌≡◌, ◌↔◌, Bool, true, false, ◌&&◌, List, [], ◌∷◌, Option, none, some, String, arith, HasEq,
  ◌==◌, nat_eq, if◌then◌else◌, ltb, ◌+◌,
}

abbrev pub Text : Type 0
Text = List ℕ

abbrev pub codes : String → Text
codes String.[] = []
codes (String.◌∷◌ c s) = code c ∷ codes s

-- A literal of the source. It stays shut where its runes do not matter.
unfoldable pub lit : String → Text
lit s = codes s

unfoldable pub eq_text : Text → Text → Bool
eq_text [] [] = true
eq_text [] (b ∷ t) = false
eq_text (a ∷ s) [] = false
eq_text (a ∷ s) (b ∷ t) = a == b && eq_text s t

pub eq_text_iff : (s t : Text) → (eq_text s t ≡ true) ↔ (s ≡ t)
unfolding eq_text
eq_text_iff [] [] = ground arith
eq_text_iff [] (b ∷ t) = ground arith
eq_text_iff (a ∷ s) [] = ground arith
eq_text_iff (a ∷ s) (b ∷ t) = ground (arith, eq_text_iff s t)

instance abbrev pub text_eq : HasEq Text
text_eq = record { test = eq_text; decides = eq_text_iff }

-- A pointer to a string against a string: nil is equal to none.
abbrev pub points_to : Option Text → Text → Bool
points_to none t = false
points_to (some s) t = s == t

-- What a NULL or an absent string is decoded to.
abbrev pub or_empty : Option Text → Text
or_empty none = []
or_empty (some s) = s

-- strings.TrimPrefix: what follows the prefix, or the text itself.
unfoldable pub trim_prefix : Text → Text → Option Text
trim_prefix [] t = some t
trim_prefix (a ∷ s) [] = none
trim_prefix (a ∷ s) (b ∷ t) = if a == b then trim_prefix s t else none

-- A Replacer that replaces single runes by nothing.
unfoldable pub delete : (ℕ → Bool) → Text → Text
delete p [] = []
delete p (c ∷ s) = let rest = delete p s in if p c then rest else c ∷ rest

-- The bytes of a rune in UTF-8.
abbrev pub rune_length : ℕ → ℕ
rune_length c = if ltb c 128 then 1 else if ltb c 2048 then 2 else if ltb c 65536 then 3 else 4

-- len(s), which counts bytes.
unfoldable pub byte_length : Text → ℕ
byte_length [] = 0
byte_length (c ∷ s) = rune_length c + byte_length s
