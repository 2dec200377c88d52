-- ===== src/Text/Path.antt =====
-- path.Base and path/filepath.Base on a slash-separated system.
use mathlib.Core.List.{reverse, reverse-cons, reverse-reverse}
use olympiad_next.Prelude.{
  ℕ, ◌≡◌, ◌≢◌, refl, ap, ◌∙◌, Bool, false, [], ◌∷◌, any, any-append, arith, ◌==◌, nat_eq,
  if◌then◌else◌,
}
use olympiad_next.Text.{Text, text_eq, eq_text}

abbrev pub is_slash : ℕ → Bool
is_slash c = c == b'/'

-- strings.Contains(s, "/")
abbrev pub has_slash : Text → Bool
has_slash s = any is_slash s

unfoldable pub drop_slashes : Text → Text
drop_slashes [] = []
drop_slashes (c ∷ s) = let rest = drop_slashes s in if is_slash c then rest else c ∷ s

-- The text after its last slash.
unfoldable pub after_slash : Text → Text
after_slash [] = []
after_slash (c ∷ s) =
    let rest = after_slash s in if any is_slash s then rest else if is_slash c then s else c ∷ s

-- Base: "." for the empty text, "/" for one of slashes alone.
unfoldable pub base : Text → Text
unfolding drop_slashes after_slash
base [] = b'.' ∷ []
base (c ∷ s) =
    let t = after_slash (reverse (drop_slashes (reverse (c ∷ s)))) in
    if t == [] then b'/' ∷ [] else t

drop_slashes_id : (s : Text) → has_slash s ≡ false → drop_slashes s ≡ s
unfolding drop_slashes any
drop_slashes_id [] h = refl
drop_slashes_id (c ∷ s) h = ground arith

after_slash_id : (s : Text) → has_slash s ≡ false → after_slash s ≡ s
unfolding after_slash any
after_slash_id [] h = refl
after_slash_id (c ∷ s) h = ground arith

has_slash-reverse : (s : Text) → has_slash s ≡ false → has_slash (reverse s) ≡ false
unfolding any
has_slash-reverse [] h = refl
has_slash-reverse (c ∷ s) h =
    rw (reverse-cons c s)
      (any-append is_slash (reverse s) (c ∷ []) ∙ ground (arith, has_slash-reverse s))

-- A text without a slash is its own last element.
pub base_id : (s : Text) → s ≢ [] → has_slash s ≡ false → base s ≡ s
unfolding base eq_text
base_id [] ne h = absurd (ne refl)
base_id (c ∷ s) ne h =
    let back = drop_slashes_id (reverse (c ∷ s)) (has_slash-reverse (c ∷ s) h) in
    let whole : after_slash (reverse (drop_slashes (reverse (c ∷ s)))) ≡ c ∷ s =
      ap (λ t. after_slash (reverse t)) back
      ∙ ap after_slash (reverse-reverse (c ∷ s))
      ∙ after_slash_id (c ∷ s) h in
    rw whole refl
