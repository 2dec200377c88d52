-- ===== src/Text/Pattern.antt =====
-- The anchored regular expressions of the program: a fixed sequence of character classes, and one
-- class repeated between two bounds.
use olympiad_next.Prelude.{
  ℕ, zero, suc, Bool, true, false, ◌&&◌, List, [], ◌∷◌, leb, length, replicate, ◌≡◌, ◌↔◌, arith,
  All,
}
use olympiad_next.Text.{Text}

abbrev pub Class : Type 0
Class = ℕ → Bool

abbrev pub range : ℕ → ℕ → Class
range lo hi c = leb lo c && leb c hi

-- `^c1c2...cn$`
unfoldable pub matches_all : List Class → Text → Bool
matches_all [] [] = true
matches_all [] (c ∷ s) = false
matches_all (p ∷ ps) [] = false
matches_all (p ∷ ps) (c ∷ s) = p c && matches_all ps s

unfoldable pub all_in : Class → Text → Bool
all_in p [] = true
all_in p (c ∷ s) = p c && all_in p s

-- `^c{lo,hi}$`
unfoldable pub matches_repeat : Class → ℕ → ℕ → Text → Bool
unfolding all_in
matches_repeat p lo hi s = all_in p s && leb lo (length s) && leb (length s) hi

pub all_in_iff : (p : Class) (s : Text) → (all_in p s ≡ true) ↔ All (λ c. p c ≡ true) s
unfolding all_in
all_in_iff p [] = ground arith
all_in_iff p (c ∷ s) = ground (arith, all_in_iff p s)

pub matches_all-replicate_iff :
    (n : ℕ) (p : Class) (s : Text)
    → (matches_all (replicate n p) s ≡ true) ↔ ((length s ≡ n) × All (λ c. p c ≡ true) s)
unfolding matches_all
matches_all-replicate_iff zero p [] = ground arith
matches_all-replicate_iff zero p (c ∷ s) = ground arith
matches_all-replicate_iff (suc n) p [] = ground arith
matches_all-replicate_iff (suc n) p (c ∷ s) = ground (arith, matches_all-replicate_iff n p s)
