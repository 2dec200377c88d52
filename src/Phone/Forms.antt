-- ===== src/Phone/Forms.antt =====
-- Which texts are accepted as a mobile number, and that the stored form is canonical.
use olympiad_next.Prelude.{
  ℕ, ◌≡◌, ◌↔◌, ◌⊎◌, ◌≤◌, inl, inr, refl, Bool, true, false, [], ◌∷◌, none, some, arith, ◌==◌,
  nat_eq, All, length, ap, if◌then◌else◌, Bool-cases, ◌&&◌,
}
use olympiad_next.Text.{Text, delete}
use olympiad_next.Text.Trim.{is_space, NoSpace, trim_space_id}
use olympiad_next.Text.Pattern.{matches_all, matches_all-replicate_iff}
use olympiad_next.Phone.{
  digit, sender_number_pattern, separator, bare, drop_plus, localize, normalize_sender_number,
}

-- A mobile number in local form: 01, an operator digit from 3 to 9, and eight digits.
abbrev pub IsSender : Text → Type 0
IsSender (a ∷ b ∷ c ∷ rest) =
    (a ≡ b'0')
    × (b ≡ b'1')
    × (b'3' ≤ c)
    × (c ≤ b'9')
    × (length rest ≡ 8)
    × All (λ d. digit d ≡ true) rest
IsSender _ = ⊥

IsSender-iff : (n : Text) → (matches_all sender_number_pattern n ≡ true) ↔ IsSender n
unfolding matches_all
IsSender-iff [] = ground arith
IsSender-iff (a ∷ []) = ground arith
IsSender-iff (a ∷ b ∷ []) = ground arith
IsSender-iff (a ∷ b ∷ c ∷ rest) = ground (arith, matches_all-replicate_iff 8 digit rest)

drop_plus-cases : (b : Text) → (b ≡ drop_plus b) ⊎ (b ≡ b'+' ∷ drop_plus b)
unfolding drop_plus
drop_plus-cases [] = ground arith
drop_plus-cases (c ∷ s) = ground arith

localize-cases :
    (b : Text)
    → (b ≡ localize b) ⊎ ((r : Text) × (b ≡ b'8' ∷ b'8' ∷ b'0' ∷ r) × (localize b ≡ b'0' ∷ r))
unfolding localize
localize-cases [] = inl refl
localize-cases (a ∷ []) = inl (ground arith)
localize-cases (a ∷ b ∷ []) = inl (ground arith)
localize-cases (a ∷ b ∷ c ∷ r) = elim (Bool-cases (a == b'8' && b == b'8' && c == b'0')) [
  | inl hit ↦ inr (r, ground arith, ground arith)
  | inr miss ↦ inl (ground arith)
]

IsSender-head : (n : Text) → IsSender n → (t : Text) × (n ≡ b'0' ∷ b'1' ∷ t)
IsSender-head [] h = elim h [ ]
IsSender-head (a ∷ []) h = elim h [ ]
IsSender-head (a ∷ b ∷ []) h = elim h [ ]
IsSender-head (a ∷ b ∷ c ∷ t) h = (c ∷ t, ground arith)

-- A number in local form is its own local form, with or without the country code before it.
localize-local : (n : Text) → IsSender n → localize n ≡ n
unfolding localize
localize-local n h = let (t, e) = IsSender-head n h in rw e

localize-country : (n : Text) → IsSender n → localize (b'8' ∷ b'8' ∷ n) ≡ n
unfolding localize
localize-country n h = let (t, e) = IsSender-head n h in rw e

drop_plus-local : (n : Text) → IsSender n → drop_plus n ≡ n
unfolding drop_plus
drop_plus-local n h = let (t, e) = IsSender-head n h in rw e

drop_plus-plus : (n : Text) → drop_plus (b'+' ∷ n) ≡ n
unfolding drop_plus
drop_plus-plus n = refl

drop_plus-country : (n : Text) → drop_plus (b'8' ∷ n) ≡ b'8' ∷ n
unfolding drop_plus
drop_plus-country n = refl

-- The four spellings of a number, once the space and the dashes are out.
abbrev pub Spells : Text → Text → Type 0
Spells b n = (b ≡ n) ⊎ (b ≡ b'+' ∷ n) ⊎ (b ≡ b'8' ∷ b'8' ∷ n) ⊎ (b ≡ b'+' ∷ b'8' ∷ b'8' ∷ n)

accepted : (b n : Text) → localize (drop_plus b) ≡ n → Spells b n
accepted b n e = ground (arith, drop_plus-cases b, localize-cases (drop_plus b))

spelled : (b n : Text) → IsSender n → Spells b n → localize (drop_plus b) ≡ n
spelled b n h (inl e) = rw (e, drop_plus-local n h) (localize-local n h)
spelled b n h (inr (inl e)) = rw (e, drop_plus-plus) (localize-local n h)
spelled b n h (inr (inr (inl e))) = rw (e, drop_plus-country) (localize-country n h)
spelled b n h (inr (inr (inr e))) = rw (e, drop_plus-plus) (localize-country n h)

kept :
    (fits : Bool) (m n : Text) → (if fits then some m else none) ≡ some n → (fits ≡ true) × (m ≡ n)
kept true m n e = ground arith
kept false m n e = cc

-- A text is accepted as the number n exactly if n is a local number and the text, without space and
-- dashes, spells it: as it stands, after a plus sign, after 88, or after +88.
pub normalize_sender_number_iff :
    (raw n : Text) → (normalize_sender_number raw ≡ some n) ↔ (IsSender n × Spells (bare raw) n)
unfolding normalize_sender_number
normalize_sender_number_iff raw n = (
  λ e.
      let (fits, same) = kept _ _ n e in
      ((IsSender-iff n).0 (rw (← same) fits), accepted (bare raw) n same),
  λ h. rw (spelled (bare raw) n h.0 h.1, (IsSender-iff n).1 h.0),
)

digit_plain : (c : ℕ) → digit c ≡ true → (is_space c ≡ false) × (separator c ≡ false)
unfolding is_space
digit_plain c h = ground arith

Digits : Text → Type 0
Digits = All (λ c. digit c ≡ true)

IsSender-Digits : (n : Text) → IsSender n → Digits n
unfolding Digits
IsSender-Digits [] h = tt
IsSender-Digits (a ∷ []) h = elim h [ ]
IsSender-Digits (a ∷ b ∷ []) h = elim h [ ]
IsSender-Digits (a ∷ b ∷ c ∷ rest) h = (ground arith, (ground arith, (ground arith, h.5)))

Digits-NoSpace : (n : Text) → Digits n → NoSpace n
unfolding Digits
Digits-NoSpace [] h = tt
Digits-NoSpace (c ∷ s) h = ((digit_plain c h.0).0, Digits-NoSpace s h.1)

delete-Digits : (n : Text) → Digits n → delete separator n ≡ n
unfolding delete Digits
delete-Digits [] h = refl
delete-Digits (c ∷ s) h = rw ((digit_plain c h.0).1) (ap (◌∷◌ c) (delete-Digits s h.1))

bare-Digits : (n : Text) → Digits n → bare n ≡ n
unfolding bare
bare-Digits n h = rw (trim_space_id n (Digits-NoSpace n h)) (delete-Digits n h)

-- The form in which a number is stored is accepted again, and unchanged.
pub normalize_sender_number_idem :
    (raw n : Text) → normalize_sender_number raw ≡ some n → normalize_sender_number n ≡ some n
normalize_sender_number_idem raw n e =
    let h = ((normalize_sender_number_iff raw n).0 e).0 in
    (normalize_sender_number_iff n n).1 (h, inl (bare-Digits n (IsSender-Digits n h)))
