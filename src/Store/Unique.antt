-- ===== src/Store/Unique.antt =====
-- UNIQUE constraints: no two rows of a table clash. What INSERT, UPDATE and DELETE do to that, and to
-- a property of each row.
use olympiad_next.Prelude.{
  ◌≡◌, refl, Bool, true, false, List, [], ◌∷◌, ◌++◌, arith, any, filter, not, any-append, All,
  Bool-cases, inl, inr, ◌&&◌, find, none, some,
}
use olympiad_next.Store.Rows.{update, update-none, delete_rows}

module _ {ℓ} {A : Type ℓ} (clash : A → A → Bool) where
  abbrev pub Distinct : List A → Type 0
  Distinct [] = Unit
  Distinct (x ∷ xs) = (any (clash x) xs ≡ false) × Distinct xs

  pub Distinct-insert :
      (xs : List A) (n : A)
      → Distinct xs
      → any (λ x. clash x n) xs ≡ false
      → Distinct (xs ++ n ∷ [])
  unfolding any
  Distinct-insert [] n d h = (refl, tt)
  Distinct-insert (x ∷ xs) n d h = (
    ground (arith, any-append (clash x) xs (n ∷ []), d.0),
    Distinct-insert xs n d.1 (ground arith),
  )

  module _ (f : A → A) (keeps_left : (x y : A) → clash (f x) y ≡ clash x y)
      (keeps_right : (x y : A) → clash x (f y) ≡ clash x y) where
    any-update_keys :
        (p : A → Bool) (x : A) (xs : List A) → any (clash x) (update p f xs) ≡ any (clash x) xs
    unfolding any update
    any-update_keys p x [] = refl
    any-update_keys p x (y ∷ ys) = ground (arith, keeps_right x y, any-update_keys p x ys)

    any-clash_keys : (x : A) (xs : List A) → any (clash (f x)) xs ≡ any (clash x) xs
    unfolding any
    any-clash_keys x [] = refl
    any-clash_keys x (y ∷ ys) = ground (arith, keeps_left x y, any-clash_keys x ys)

    -- An UPDATE that leaves the keys alone.
    pub Distinct-update : (p : A → Bool) (xs : List A) → Distinct xs → Distinct (update p f xs)
    unfolding update
    Distinct-update p [] d = tt
    Distinct-update p (x ∷ xs) d = (
      ground (arith, any-update_keys p x xs, any-update_keys p (f x) xs, any-clash_keys x xs, d.0),
      Distinct-update p xs d.1,
    )

  any-delete_rows :
      (p q : A → Bool) (xs : List A) → any q xs ≡ false → any q (delete_rows p xs) ≡ false
  unfolding any delete_rows
  any-delete_rows p q [] h = refl
  any-delete_rows p q (x ∷ xs) h = ground (arith, any-delete_rows p q xs)

  pub Distinct-delete : (p : A → Bool) (xs : List A) → Distinct xs → Distinct (delete_rows p xs)
  unfolding delete_rows
  Distinct-delete p [] d = tt
  Distinct-delete p (x ∷ xs) d = elim (Bool-cases (p x)) [
    | inl hit ↦ rw hit (Distinct-delete p xs d.1)
    | inr miss ↦ rw miss (any-delete_rows p (clash x) xs d.0, Distinct-delete p xs d.1)
  ]

module _ {ℓ κ} {A : Type ℓ} (P : A → Type κ) where
  -- An UPDATE keeps a property that the change keeps on the rows that pass the test.
  pub All-update :
      (p : A → Bool) (f : A → A) (xs : List A)
      → ((x : A) → p x ≡ true → P x → P (f x))
      → All P xs
      → All P (update p f xs)
  unfolding update
  All-update p f [] k h = tt
  All-update p f (x ∷ xs) k h = elim (Bool-cases (p x)) [
    | inl hit ↦ rw hit (k x hit h.0, All-update p f xs k h.1)
    | inr miss ↦ rw miss (h.0, All-update p f xs k h.1)
  ]

  pub All-delete : (p : A → Bool) (xs : List A) → All P xs → All P (delete_rows p xs)
  unfolding delete_rows
  All-delete p [] h = tt
  All-delete p (x ∷ xs) h = elim (Bool-cases (p x)) [
    | inl hit ↦ rw hit (All-delete p xs h.1)
    | inr miss ↦ rw miss (h.0, All-delete p xs h.1)
  ]

module _ {ℓ κ} {A : Type ℓ} (P Q : A → Type κ) where
  -- What the rows that a DELETE leaves have, if they had `P`.
  pub All-kept :
      (p : A → Bool) (xs : List A)
      → ((x : A) → p x ≡ false → P x → Q x)
      → All P xs
      → All Q (delete_rows p xs)
  unfolding delete_rows
  All-kept p [] k h = tt
  All-kept p (x ∷ xs) k h = elim (Bool-cases (p x)) [
    | inl hit ↦ rw hit (All-kept p xs k h.1)
    | inr miss ↦ rw miss (k x miss h.0, All-kept p xs k h.1)
  ]

module _ {ℓ} {A : Type ℓ} (clash : A → A → Bool) (q : A → Bool)
    (key : (x y : A) → q x ≡ true → q y ≡ true → clash x y ≡ true) where
  any-key :
      (t : A → Bool) (x : A) (xs : List A)
      → q x ≡ true
      → any (clash x) xs ≡ false
      → any (λ y. q y && t y) xs ≡ false
  unfolding any
  any-key t x [] h d = refl
  any-key t x (y ∷ ys) h d = ground (arith, key x y h, any-key t x ys h)

  any-absent : (t : A → Bool) (xs : List A) → any q xs ≡ false → any (λ y. q y && t y) xs ≡ false
  unfolding any
  any-absent t [] h = refl
  any-absent t (x ∷ xs) h = ground (arith, any-absent t xs)

  -- A key belongs to one row: a test on the rows with the key is the test on the row that is found.
  pub any_unique :
      (t : A → Bool) (xs : List A)
      → Distinct clash xs
      → any (λ y. q y && t y) xs ≡ elim (find q xs) [ none ↦ false | some x ↦ t x ]
  unfolding any find
  any_unique t [] d = refl
  any_unique t (x ∷ xs) d = elim (Bool-cases (q x)) [
    | inl hit ↦ ground (arith, any-key t x xs hit d.0)
    | inr miss ↦ ground (arith, any_unique t xs d.1)
  ]

module _ {ℓ} {A : Type ℓ} (clash : A → A → Bool) (q : A → Bool) (f : A → A)
    (swap : (x y : A) → clash x y ≡ clash y x)
    (key : (x y : A) → q x ≡ true → q y ≡ true → clash x y ≡ true) where
  abbrev rest : List A → List A
  rest xs = filter (λ x. not (q x)) xs

  no_second : (x : A) (xs : List A) → q x ≡ true → any (clash x) xs ≡ false → any q xs ≡ false
  unfolding any
  no_second x [] h d = refl
  no_second x (y ∷ ys) h d = ground (arith, key x y, no_second x ys)

  rest-all : (xs : List A) → any q xs ≡ false → rest xs ≡ xs
  unfolding any filter
  rest-all [] h = refl
  rest-all (x ∷ xs) h = ground (arith, rest-all xs)

  replaced_row-clash :
      (x r : A) (xs : List A)
      → q x ≡ false
      → find q xs ≡ some r
      → clash (f r) x ≡ false
      → any (clash x) xs ≡ false
      → Distinct clash xs
      → any (clash x) (update q f xs) ≡ false
  unfolding any find update
  replaced_row-clash x r [] n e c d u = refl
  replaced_row-clash x r (y ∷ ys) n e c d u = elim (Bool-cases (q y)) [
    | inl hit ↦ ground (arith, swap (f y) x, update-none q f ys, no_second y ys, u.0)
    | inr miss ↦ ground (arith, replaced_row-clash x r ys, u.1)
  ]

  -- An UPDATE of the row with a key that gives it new keys, which clash with no other row.
  pub Distinct-replace :
      (r : A) (xs : List A)
      → find q xs ≡ some r
      → any (clash (f r)) (rest xs) ≡ false
      → Distinct clash xs
      → Distinct clash (update q f xs)
  unfolding any find update filter
  Distinct-replace r [] e c d = tt
  Distinct-replace r (x ∷ xs) e c d = elim (Bool-cases (q x)) [
    | inl hit ↦ ground (arith, no_second x xs hit d.0, rest-all xs, update-none q f xs, d.1)
    | inr miss ↦
        ground (arith, replaced_row-clash x r xs, Distinct-replace r xs, swap (f r) x, d.0, d.1)
  ]

  found-clash :
      (x r : A) (xs : List A) → find q xs ≡ some r → any (clash x) xs ≡ false → clash x r ≡ false
  unfolding any find
  found-clash x r [] e d = cc
  found-clash x r (y ∷ ys) e d = ground (arith, found-clash x r ys)

  any-sublist : (p : A → Bool) (xs : List A) → any p xs ≡ false → any p (rest xs) ≡ false
  unfolding any filter
  any-sublist p [] h = refl
  any-sublist p (x ∷ xs) h = ground (arith, any-sublist p xs)

  -- The row with a key clashes with none of the rows with other keys.
  pub Distinct-others :
      (r : A) (xs : List A)
      → find q xs ≡ some r
      → Distinct clash xs
      → any (clash r) (rest xs) ≡ false
  unfolding any find filter
  Distinct-others r [] e d = refl
  Distinct-others r (x ∷ xs) e d = elim (Bool-cases (q x)) [
    | inl hit ↦ ground (arith, any-sublist (clash x) xs, d.0)
    | inr miss ↦ ground (arith, Distinct-others r xs, found-clash x r xs, swap r x, d.0, d.1)
  ]
