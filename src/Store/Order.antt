-- ===== src/Store/Order.antt =====
-- ORDER BY: its first row, and its whole answer.
use olympiad_next.Prelude.{
  ◌≡◌, refl, inl, inr, Bool, true, false, List, [], ◌∷◌, All, All-map, Mem, Bool-cases, subst,
  arith, filter, ◌&&◌,
}
use olympiad_next.Store.Rows.{insert_row, order_by, count}

module _ {A : Type 0} (le : A → A → Bool) where
  -- Every row comes before or with those that follow it.
  abbrev pub IsSorted : List A → Type 0
  IsSorted [] = Unit
  IsSorted (x ∷ xs) = All (λ y. le x y ≡ true) xs × IsSorted xs

module _ {A : Type 0} (le : A → A → Bool) (total : (x y : A) → le x y ≡ false → le y x ≡ true)
    (same : (x : A) → le x x ≡ true)
    (trans : (x y z : A) → le x y ≡ true → le y z ≡ true → le x z ≡ true) where
  -- The row is one of the table, and comes before or with all of them.
  abbrev pub IsFirst : A → List A → Type 0
  IsFirst y xs = Mem y xs × All (λ x. le y x ≡ true) xs

  -- What the first of the rows so far is, with one more row.
  First : List A → List A → Type 0
  First [] xs = xs ≡ []
  First (y ∷ ys) xs = IsFirst y xs

  insert-First : (x : A) (s xs : List A) → First s xs → First (insert_row le x s) (x ∷ xs)
  unfolding insert_row First
  insert-First x [] xs e = rw e (inl refl, (same x, tt))
  insert-First x (y ∷ ys) xs (m, h) = elim (Bool-cases (le x y)) [
    | inl hit ↦ rw hit (
      inl refl,
      (same x, All-map (λ z. le y z ≡ true) (λ z. le x z ≡ true) xs (λ z. trans x y z hit) h),
    )
    | inr miss ↦ rw miss (inr m, (total x y miss, h))
  ]

  order_by-First : (xs : List A) → First (order_by le xs) xs
  unfolding order_by First
  order_by-First [] = refl
  order_by-First (x ∷ xs) = insert-First x (order_by le xs) xs (order_by-First xs)

  pub order_by-IsFirst : (y : A) (ys xs : List A) → order_by le xs ≡ y ∷ ys → IsFirst y xs
  unfolding First
  order_by-IsFirst y ys xs e = subst (λ s. First s xs) e (order_by-First xs)

  pub order_by-none : (xs : List A) → order_by le xs ≡ [] → xs ≡ []
  unfolding First
  order_by-none xs e = subst (λ s. First s xs) e (order_by-First xs)

  insert_row-All :
      (P : A → Type 0) (x : A) (xs : List A) → P x → All P xs → All P (insert_row le x xs)
  unfolding insert_row
  insert_row-All P x [] k h = (k, tt)
  insert_row-All P x (y ∷ ys) k h = elim (Bool-cases (le x y)) [
    | inl hit ↦ rw hit (k, h)
    | inr miss ↦ rw miss (h.0, insert_row-All P x ys k h.1)
  ]

  insert_row-IsSorted : (x : A) (xs : List A) → IsSorted le xs → IsSorted le (insert_row le x xs)
  unfolding insert_row
  insert_row-IsSorted x [] h = (tt, tt)
  insert_row-IsSorted x (y ∷ ys) h = elim (Bool-cases (le x y)) [
    | inl hit ↦
        rw hit (
          (hit, All-map (λ z. le y z ≡ true) (λ z. le x z ≡ true) ys (λ z. trans x y z hit) h.0),
          h,
        )
    | inr miss ↦ rw miss (
      insert_row-All (λ z. le y z ≡ true) x ys (total x y miss) h.0,
      insert_row-IsSorted x ys h.1,
    )
  ]

  pub order_by-IsSorted : (xs : List A) → IsSorted le (order_by le xs)
  unfolding order_by
  order_by-IsSorted [] = tt
  order_by-IsSorted (x ∷ xs) = insert_row-IsSorted x (order_by le xs) (order_by-IsSorted xs)

module _ {A : Type 0} (p : A → Bool) where
  count-insert_row :
      (le : A → A → Bool) (x : A) (xs : List A) → count p (insert_row le x xs) ≡ count p (x ∷ xs)
  unfolding count insert_row
  count-insert_row le x [] = refl
  count-insert_row le x (y ∷ ys) = ground (arith, count-insert_row le x ys)

  -- Sorting neither loses a row nor repeats one.
  pub count-order_by : (le : A → A → Bool) (xs : List A) → count p (order_by le xs) ≡ count p xs
  unfolding count order_by
  count-order_by le [] = refl
  count-order_by le (x ∷ xs) =
      ground (arith, count-insert_row le x (order_by le xs), count-order_by le xs)

  pub count-filter :
      (q : A → Bool) (xs : List A) → count p (filter q xs) ≡ count (λ x. q x && p x) xs
  unfolding count filter
  count-filter q [] = refl
  count-filter q (x ∷ xs) = ground (arith, count-filter q xs)
