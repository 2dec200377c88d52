-- ===== src/Notices/Board.antt =====
-- What the public board shows.
use olympiad_next.Prelude.{
  ◌≡◌, ℤ, pos, negsuc, ◌≤◌, ◌<◌, ◌⊎◌, inl, inr, [], ◌∷◌, All, All-map, ◌==◌, ==_iff, leb, leb_ℤ,
  Bool-cases, ◌∙◌, ap, sym, subst, Bool, true, false, List, filter, ◌&&◌, arith, int_eq,
}
use olympiad_next.Errors.{ok}
use olympiad_next.Domain.Notice.{Notice}
use olympiad_next.Store.{Tables, World}
use olympiad_next.Store.Rows.{order_by, count}
use olympiad_next.Store.Order.{IsSorted, order_by-IsSorted, count-order_by, count-filter}
use olympiad_next.Store.Answers.{query-world}
use olympiad_next.Postgres
use olympiad_next.Postgres.Notices.{earlier}
use olympiad_next.Notices.{list_active}

earlier-total : (x y : Notice) → earlier x y ≡ false → earlier y x ≡ true
earlier-total x y h = ground arith

earlier-same : (x : Notice) → earlier x x ≡ true
earlier-same x = ground arith

earlier_trans : (x y z : Notice) → earlier x y ≡ true → earlier y z ≡ true → earlier x z ≡ true
earlier_trans x y z h k = ground arith

-- The order of the integers; `negsuc n` is -1 - n.
abbrev pub IsLess : ℤ → ℤ → Type 0
IsLess (pos a) (pos b) = a < b
IsLess (pos a) (negsuc b) = ⊥
IsLess (negsuc a) (pos b) = Unit
IsLess (negsuc a) (negsuc b) = b < a

leb_ℤ-IsLess : (a b : ℤ) → leb_ℤ b a ≡ false → IsLess a b
leb_ℤ-IsLess (pos a) (pos b) h = ground (arith, h)
leb_ℤ-IsLess (pos a) (negsuc b) h = cc
leb_ℤ-IsLess (negsuc a) (pos b) h = tt
leb_ℤ-IsLess (negsuc a) (negsuc b) h = ground (arith, h)

-- A smaller display order, or the same one and no later creation.
abbrev pub IsBefore : Notice → Notice → Type 0
IsBefore a b =
    IsLess a.display_order b.display_order
    ⊎ ((a.display_order ≡ b.display_order) × (a.created_at ≤ b.created_at))

-- Every notice is before those that follow it.
abbrev pub InOrder : List Notice → Type 0
InOrder [] = Unit
InOrder (n ∷ ns) = All (IsBefore n) ns × InOrder ns

earlier-IsBefore : (a b : Notice) → earlier a b ≡ true → IsBefore a b
earlier-IsBefore a b h = elim (Bool-cases (leb_ℤ b.display_order a.display_order)) [
  | inr less ↦ inl (leb_ℤ-IsLess a.display_order b.display_order less)
  | inl more ↦
      let same : a.display_order == b.display_order ≡ true = ground arith in
      let sooner : leb a.created_at b.created_at ≡ true = ground arith in
      inr ((==_iff a.display_order b.display_order).0 same, ground (arith, sooner))
]

sorted-InOrder : (ns : List Notice) → IsSorted earlier ns → InOrder ns
sorted-InOrder [] h = tt
sorted-InOrder (n ∷ ns) h = (
  All-map (λ b. earlier n b ≡ true) (IsBefore n) ns (earlier-IsBefore n) h.0,
  sorted-InOrder ns h.1,
)

-- The list is sorted, and has each active notice as often as the table.
pub record IsBoard (db : Tables) (ns : List Notice) : Type 0 where
  pub sorted : InOrder ns
  pub exact : (p : Notice → Bool) → count p ns ≡ count (λ n. n.is_active && p n) db.notices

-- ListActive, whatever the server does: an answer is sorted by the display order and then by the time of
-- creation, and has exactly the active notices, each as often as the table.
pub list_active-IsBoard :
    (w : World) (ns : List Notice) → (list_active w).0 ≡ ok ns → IsBoard w.db ns
unfolding list_active Postgres.Notices.list_active
list_active-IsBoard w ns h =
    let active : Notice → Bool = λ n. n.is_active in
    let shown = filter active w.db.notices in
    let (said, left) =
      query-world (λ db. ok (order_by earlier (filter active db.notices))) w ns h in
    let same : order_by earlier shown ≡ ns = ground arith in
    record {
      sorted = sorted-InOrder ns (
          subst (IsSorted earlier) same
            (order_by-IsSorted earlier earlier-total earlier-same earlier_trans shown));
      exact = λ p.
          ap (count p) (sym same)
          ∙ count-order_by p earlier shown
          ∙ count-filter p active w.db.notices;
    }
