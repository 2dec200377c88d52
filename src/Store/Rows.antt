-- ===== src/Store/Rows.antt =====
-- SQL on a table as a list of rows: WHERE, UPDATE, DELETE, ORDER BY and LIMIT.
use mathlib.Core.Option
use olympiad_next.Prelude.{
  ℕ, zero, suc, ◌≡◌, refl, ◌∙◌, ap, Bool, false, ◌||◌, List, [], ◌∷◌, Option, none, some, arith,
  if◌then◌else◌, any, find, ◌++◌, true, Bool-cases, inl, inr,
}
use olympiad_next.Errors.{Error, Result, ok, err}

module _ {ℓ} {A : Type ℓ} where
  -- UPDATE: the rows that pass the test are changed.
  unfoldable pub update : (A → Bool) → (A → A) → List A → List A
  update p f [] = []
  update p f (x ∷ xs) = (if p x then f x else x) ∷ update p f xs

  -- The number of affected rows.
  unfoldable pub count : (A → Bool) → List A → ℕ
  count p [] = 0
  count p (x ∷ xs) = let rest = count p xs in if p x then suc rest else rest

  -- DELETE: the rows that fail the test stay.
  unfoldable pub delete_rows : (A → Bool) → List A → List A
  delete_rows p [] = []
  delete_rows p (x ∷ xs) = let rest = delete_rows p xs in if p x then rest else x ∷ rest

  unfoldable pub insert_row : (A → A → Bool) → A → List A → List A
  insert_row le x [] = x ∷ []
  insert_row le x (y ∷ ys) = if le x y then x ∷ y ∷ ys else y ∷ insert_row le x ys

  -- ORDER BY, by insertion.
  unfoldable pub order_by : (A → A → Bool) → List A → List A
  unfolding insert_row
  order_by le [] = []
  order_by le (x ∷ xs) = insert_row le x (order_by le xs)

  -- LIMIT
  unfoldable pub limit : ℕ → List A → List A
  limit zero xs = []
  limit (suc n) [] = []
  limit (suc n) (x ∷ xs) = x ∷ limit n xs

  -- A row, or the error for its absence.
  abbrev pub or_err : Option A → Error → Result A
  or_err none e = err e
  or_err (some a) e = ok a

  any-insert_row :
      (p : A → Bool) (le : A → A → Bool) (x : A) (xs : List A)
      → any p (insert_row le x xs) ≡ (p x || any p xs)
  unfolding any insert_row
  any-insert_row p le x [] = refl
  any-insert_row p le x (y ∷ ys) = ground (arith, any-insert_row p le x ys)

  -- Sorting does not change whether some row passes a test.
  pub any-order_by :
      (p : A → Bool) (le : A → A → Bool) (xs : List A) → any p (order_by le xs) ≡ any p xs
  unfolding any order_by
  any-order_by p le [] = refl
  any-order_by p le (x ∷ xs) =
      any-insert_row p le x (order_by le xs) ∙ ap (◌||◌ (p x)) (any-order_by p le xs)

  pub count-eq-zero : (p : A → Bool) (xs : List A) → any p xs ≡ false → count p xs ≡ 0
  unfolding any count
  count-eq-zero p [] h = refl
  count-eq-zero p (x ∷ xs) h = ground (arith, count-eq-zero p xs)

module _ {ℓ} {A : Type ℓ} where
  -- An UPDATE that leaves a key alone: the row found by that key is the old one, changed if it passes.
  pub find-update :
      (q p : A → Bool) (f : A → A) (xs : List A)
      → ((x : A) → q (f x) ≡ q x)
      → find q (update p f xs) ≡ Option.map (λ x. if p x then f x else x) (find q xs)
  unfolding find update
  find-update q p f [] k = refl
  find-update q p f (x ∷ xs) k = ground (arith, k x, find-update q p f xs k)

  pub find-append :
      (q : A → Bool) (xs ys : List A)
      → find q (xs ++ ys) ≡ elim (find q xs) [ none ↦ find q ys | some x ↦ some x ]
  unfolding find
  find-append q [] ys = refl
  find-append q (x ∷ xs) ys = ground (arith, find-append q xs ys)

  pub count-any : (p : A → Bool) (xs : List A) → any p xs ≡ true → (k : ℕ) × (count p xs ≡ suc k)
  unfolding any count
  count-any p [] h = cc
  count-any p (x ∷ xs) h = elim (Bool-cases (p x)) [
    | inl hit ↦ (count p xs, rw hit)
    | inr miss ↦ let (k, e) = count-any p xs (ground arith) in (k, rw miss e)
  ]

  -- An UPDATE that leaves a key alone leaves the rows with the key there.
  pub any-update :
      (q p : A → Bool) (f : A → A) (xs : List A)
      → ((x : A) → q (f x) ≡ q x)
      → any q (update p f xs) ≡ any q xs
  unfolding any update
  any-update q p f [] k = refl
  any-update q p f (x ∷ xs) k = ground (arith, k x, any-update q p f xs k)

  -- An UPDATE that no row passes changes nothing.
  pub update-none : (p : A → Bool) (f : A → A) (xs : List A) → any p xs ≡ false → update p f xs ≡ xs
  unfolding any update
  update-none p f [] h = refl
  update-none p f (x ∷ xs) h = ground (arith, update-none p f xs)

  -- A DELETE by a test that no row with a key passes.
  pub find-delete :
      (q p : A → Bool) (xs : List A)
      → ((x : A) → q x ≡ true → p x ≡ false)
      → find q (delete_rows p xs) ≡ find q xs
  unfolding find delete_rows
  find-delete q p [] k = refl
  find-delete q p (x ∷ xs) k = ground (arith, k x, find-delete q p xs k)

  -- An UPDATE after which no changed row passes its test again.
  pub any-update_self :
      (p : A → Bool) (f : A → A) (xs : List A)
      → ((x : A) → p (f x) ≡ false)
      → any p (update p f xs) ≡ false
  unfolding any update
  any-update_self p f [] k = refl
  any-update_self p f (x ∷ xs) k = ground (arith, k x, any-update_self p f xs k)

  -- An UPDATE that makes no row pass a test that none passes.
  pub any-update_none :
      (p q : A → Bool) (f : A → A) (xs : List A)
      → ((x : A) → p x ≡ false → p (f x) ≡ false)
      → any p xs ≡ false
      → any p (update q f xs) ≡ false
  unfolding any update
  any-update_none p q f [] k h = refl
  any-update_none p q f (x ∷ xs) k h = ground (arith, k x, any-update_none p q f xs k)
