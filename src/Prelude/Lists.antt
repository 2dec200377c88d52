-- ===== src/Prelude/Lists.antt =====
-- Lists measured by native numbers, Boolean searches and filters, and predicates by recursion.
use Prim.Native.Nat.{ℕ, zero, suc, ◌+◌}
use mathlib.Core.Path.{◌≡◌, refl, subst, sym}
use mathlib.Core.Bool.{Bool, true, false, not, ◌||◌, ◌&&◌}
use mathlib.Core.Option.{Option, none, some}
use mathlib.Core.Logic.{◌↔◌, ◌⊎◌, inl, inr}
use mathlib.Core.List.{List, [], ◌∷◌, ◌++◌}
use native.Mathlib.Omega.{arith}
use olympiad_next.Prelude.Tests.{if◌then◌else◌, Bool-cases}

module _ {ℓ} {A : Type ℓ} where
  abbrev pub length : List A → ℕ
  length [] = 0
  length (x ∷ xs) = suc (length xs)

  pub length-append : (xs ys : List A) → length (xs ++ ys) ≡ length xs + length ys
  length-append [] ys = omega arith
  length-append (x ∷ xs) ys = omega (arith, length-append xs ys)

  abbrev pub replicate : ℕ → A → List A
  replicate zero a = []
  replicate (suc n) a = a ∷ replicate n a

  -- The first row that passes a test.
  unfoldable pub find : (A → Bool) → List A → Option A
  find p [] = none
  find p (x ∷ xs) = if p x then some x else find p xs

  unfoldable pub any : (A → Bool) → List A → Bool
  any p [] = false
  any p (x ∷ xs) = p x || any p xs

  unfoldable pub filter : (A → Bool) → List A → List A
  filter p [] = []
  filter p (x ∷ xs) = let rest = filter p xs in if p x then x ∷ rest else rest

module _ {ℓ κ} {A : Type ℓ} where
  abbrev pub All : (A → Type κ) → List A → Type κ
  All P [] = Unit
  All P (x ∷ xs) = P x × All P xs

module _ {ℓ} {A : Type ℓ} where
  pub any-append : (p : A → Bool) (xs ys : List A) → any p (xs ++ ys) ≡ (any p xs || any p ys)
  unfolding any
  any-append p [] ys = refl
  any-append p (x ∷ xs) ys = ground (arith, any-append p xs ys)

  pub any-or : (p q : A → Bool) (xs : List A) → any (λ x. p x || q x) xs ≡ (any p xs || any q xs)
  unfolding any
  any-or p q [] = refl
  any-or p q (x ∷ xs) = ground (arith, any-or p q xs)

  pub any-never : (xs : List A) → any (λ _. false) xs ≡ false
  unfolding any
  any-never [] = refl
  any-never (x ∷ xs) = any-never xs

  pub any-weaken :
      (p q : A → Bool) (xs : List A)
      → ((x : A) → p x ≡ false → q x ≡ false)
      → any p xs ≡ false
      → any q xs ≡ false
  unfolding any
  any-weaken p q [] k h = refl
  any-weaken p q (x ∷ xs) k h = ground (arith, k x, any-weaken p q xs k)

  pub any-filter : (p q : A → Bool) (xs : List A) → any p (filter q xs) ≡ any (λ x. q x && p x) xs
  unfolding any filter
  any-filter p q [] = refl
  any-filter p q (x ∷ xs) = ground (arith, any-filter p q xs)

  pub any-rest : (q : A → Bool) (xs : List A) → any q (filter (λ x. not (q x)) xs) ≡ false
  unfolding any filter
  any-rest q [] = refl
  any-rest q (x ∷ xs) = ground (arith, any-rest q xs)

  -- A row that is found passes the test.
  pub find-passes : (p : A → Bool) (xs : List A) (x : A) → find p xs ≡ some x → p x ≡ true
  unfolding find
  find-passes p [] x h = cc
  find-passes p (y ∷ ys) x h = ground (arith, find-passes p ys x)

  pub find-none_iff : (p : A → Bool) (xs : List A) → (find p xs ≡ none) ↔ (any p xs ≡ false)
  unfolding find any
  find-none_iff p [] = ground arith
  find-none_iff p (x ∷ xs) = ground (arith, find-none_iff p xs)

  -- A row that is found is one of the rows.
  pub find-any :
      (q p : A → Bool) (xs : List A) (x : A) → find q xs ≡ some x → p x ≡ true → any p xs ≡ true
  unfolding find any
  find-any q p [] x h k = cc
  find-any q p (y ∷ ys) x h k = ground (arith, find-any q p ys x)

  pub find-some-any : (p : A → Bool) (xs : List A) (x : A) → find p xs ≡ some x → any p xs ≡ true
  unfolding find any
  find-some-any p [] x h = cc
  find-some-any p (y ∷ ys) x h = ground (arith, find-some-any p ys x)

module _ {ℓ κ} {A : Type ℓ} (P Q : A → Type κ) where
  pub All-map : (xs : List A) → ((x : A) → P x → Q x) → All P xs → All Q xs
  All-map [] k h = tt
  All-map (x ∷ xs) k h = (k x h.0, All-map xs k h.1)

module _ {ℓ κ} {A : Type ℓ} (P : A → Type κ) where
  pub All-append : (xs ys : List A) → All P xs → All P ys → All P (xs ++ ys)
  All-append [] ys hx hy = hy
  All-append (x ∷ xs) ys hx hy = (hx.0, All-append xs ys hx.1 hy)

  pub All-find : (p : A → Bool) (xs : List A) (x : A) → All P xs → find p xs ≡ some x → P x
  unfolding find
  All-find p [] x h e = cc
  All-find p (y ∷ ys) x h e = elim (Bool-cases (p y)) [
    | inl hit ↦ let same : y ≡ x = ground arith in subst P same h.0
    | inr miss ↦ All-find p ys x h.1 (ground arith)
  ]

module _ {A : Type 0} where
  abbrev pub Mem : A → List A → Type 0
  Mem a [] = ⊥
  Mem a (x ∷ xs) = (a ≡ x) ⊎ Mem a xs

  -- A row of a filter is a row that passes.
  pub Mem-filter :
      (p : A → Bool) (a : A) (xs : List A) → Mem a (filter p xs) → Mem a xs × (p a ≡ true)
  unfolding filter
  Mem-filter p a [] m = elim m [ ]
  Mem-filter p a (x ∷ xs) m = elim (Bool-cases (p x)) [
    | inl hit ↦ elim (rw hit at (m)) [
      | inl e ↦ (inl e, subst (λ z. p z ≡ true) (sym e) hit)
      | inr later ↦ let (there, good) = Mem-filter p a xs later in (inr there, good)
    ]
    | inr miss ↦ let (there, good) = Mem-filter p a xs (rw miss at (m)) in (inr there, good)
  ]

  -- What all rows of a filter have, all rows that pass have.
  pub All-filter :
      (P : A → Type 0) (p : A → Bool) (xs : List A)
      → All P (filter p xs)
      → All (λ x. p x ≡ true → P x) xs
  unfolding filter
  All-filter P p [] h = tt
  All-filter P p (x ∷ xs) h = elim (Bool-cases (p x)) [
    | inl hit ↦ let both = rw hit at (h) in ((λ _. both.0), All-filter P p xs both.1)
    | inr miss ↦ ((λ e. cc), All-filter P p xs (rw miss at (h)))
  ]
