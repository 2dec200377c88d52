-- ===== src/Prizes/Tiers.antt =====
-- The prize tiers of an event and level never overlap, as long as each update names the event of its tier.
use olympiad_next.Prelude.{
  ℕ, ◌≡◌, ◌≢◌, refl, ◌∙◌, ap, Bool, true, false, not, ◌&&◌, ◌||◌, some, List, [], ◌∷◌, ◌++◌, find,
  any, filter, All, All-append, any-weaken, any-filter, find-none_iff, ◌==◌, ==_comm, ==_iff, leb_ℤ,
  is_positive, arith, Option-cases, inl, inr, find-passes,
}
use olympiad_next.Text.{Text, text_eq, eq_text_iff}
use olympiad_next.Text.Trim.{trim_space}
use olympiad_next.Errors.{ok}
use olympiad_next.Domain.Prize.{Prize}
use olympiad_next.Store.{Tables, World, lift}
use olympiad_next.Store.Rows.{update, any-order_by}
use olympiad_next.Store.Keeps.{Keeps, keeps_rules}
use olympiad_next.Store.Unique.{Distinct, Distinct-insert, Distinct-replace, All-update}
use olympiad_next.Store.Answers.{Ensures, Ensures-bind, query-world}
use olympiad_next.Postgres
use olympiad_next.Postgres.Prizes.{
  NewPrize, by_id, new_row, updated_row, insert_prize, update_prize, delete_prize, affected,
}
use olympiad_next.Prizes.{
  Input, validate, is_allowed_level, is_refused, refuse, check_no_overlap, new_prize,
}

-- Two tiers that are not both in the table: with one id, or of one event and level with a common rank.
abbrev pub clash : Prize → Prize → Bool
clash p q =
    p.id == q.id
    || (p.event_id == q.event_id
        && p.level == q.level
        && (leb_ℤ p.rank_from q.rank_to && leb_ℤ q.rank_from p.rank_to))

pub record TierIsValid (p : Prize) : Type 0 where
  pub issued : p.id ≢ []
  pub positive : is_positive p.rank_from ≡ true
  pub ordered : leb_ℤ p.rank_from p.rank_to ≡ true
  pub named : p.prize_name ≢ []
  pub level : is_allowed_level p.level ≡ true

pub record TableIsValid (db : Tables) : Type 0 where
  pub rows : All TierIsValid db.prizes
  pub apart : Distinct clash db.prizes

clash-swap : (x y : Prize) → clash x y ≡ clash y x
clash-swap x y =
    ground (arith, ==_comm x.id y.id, ==_comm x.event_id y.event_id, ==_comm x.level y.level)

clash-key : (id : Text) (x y : Prize) → by_id id x ≡ true → by_id id y ≡ true → clash x y ≡ true
clash-key id x y hx hy =
    ground (arith, eq_text_iff x.id id, eq_text_iff y.id id, eq_text_iff x.id y.id)

-- No tier of the event and level, but for the one that is left out, has a rank of the input.
abbrev pub Free : Text → Input → Text → Tables → Type 0
Free event i exclude db = any (λ p. p.event_id == event && is_refused i exclude p) db.prizes ≡ false

pub checked :
    (event : Text) (i : Input) (exclude : Text) (w : World)
    → Ensures
        (check_no_overlap event i exclude)
        w
        (λ _ w'. Free event i exclude w.db × (w'.uuid ≡ w.uuid))
unfolding check_no_overlap refuse Postgres.Prizes.list_by_event lift
checked event i exclude w = Ensures-bind _ _ w λ existing read. record {
  of = λ u h.
      let (said, left) = query-world _ w existing read in
      let refused = is_refused i exclude in
      let sorted =
        any-order_by refused (λ a b. leb_ℤ a.rank_from b.rank_from)
          (filter (λ p. p.event_id == event) w.db.prizes) in
      let here = any-filter refused (λ p. p.event_id == event) w.db.prizes in
      (ground (arith, sorted, here, find-none_iff refused existing), ap (λ x. x.uuid) left);
}

pub check-Keeps :
    {P : Tables → Type 0} (event : Text) (i : Input) (exclude : Text)
    → Keeps P (check_no_overlap event i exclude)
unfolding check_no_overlap Postgres.Prizes.list_by_event
check-Keeps event i exclude = search keeps_rules

validate-ok :
    (i : Input)
    → validate i ≡ ok tt
    → (event id : Text) (now : ℕ) → id ≢ []
    → TierIsValid (new_row (new_prize event i) id now)
unfolding validate
validate-ok i h event id now issued = record {
  issued = issued;
  positive = ground arith;
  ordered = ground arith;
  named = λ e. ground (arith, ==_iff (trim_space i.prize_name) []);
  level = ground arith;
}

-- A new row, under its id, is apart from the others.
fresh-clash :
    (event : Text) (i : Input) (id : Text) (now : ℕ) (ps : List Prize)
    → any (λ p. p.event_id == event && is_refused i [] p) ps ≡ false
    → any (by_id id) ps ≡ false
    → All TierIsValid ps
    → any (clash (new_row (new_prize event i) id now)) ps ≡ false
unfolding any
fresh-clash event i id now [] f u v = refl
fresh-clash event i id now (p ∷ ps) f u v = ground (
  arith,
  fresh-clash event i id now ps,
  v.0.issued,
  v.1,
  eq_text_iff p.id [],
  ==_comm id p.id,
  ==_comm event p.event_id,
  ==_comm i.level p.level,
)

pub insert-kept :
    (event : Text) (i : Input) (id : Text) (now : ℕ) (db : Tables)
    → validate i ≡ ok tt
    → id ≢ []
    → Free event i [] db
    → TableIsValid db
    → TableIsValid (insert_prize (new_prize event i) id now db).1
unfolding insert_prize
insert-kept event i id now db v issued f h =
    let n = new_row (new_prize event i) id now in
    let added : any (clash n) db.prizes ≡ false
        → TableIsValid (record db { prizes = db.prizes ++ n ∷ [] }) =
      λ free. record {
        rows =
            All-append TierIsValid db.prizes (n ∷ []) h.rows
              (validate-ok i v event id now issued, tt);
        apart =
            Distinct-insert clash db.prizes n h.apart
              (any-weaken (clash n) (λ x. clash x n) db.prizes (λ x e. clash-swap x n ∙ e) free);
      } in
    ground (arith, added, fresh-clash event i id now db.prizes f, h.rows, h)

-- The changed row is apart from the rows with other ids.
changed-clash :
    (event : Text) (i : Input) (id : Text) (now : ℕ) (r : Prize) (ps : List Prize)
    → any (λ p. p.event_id == event && is_refused i id p) ps ≡ false
    → r.id ≡ id
    → r.event_id ≡ event
    → any (clash (updated_row (new_prize event i) now r)) (filter (λ p. not (by_id id p)) ps)
      ≡ false
unfolding any filter
changed-clash event i id now r [] f e e' = refl
changed-clash event i id now r (p ∷ ps) f e e' = ground (
  arith,
  changed-clash event i id now r ps,
  ==_comm r.id p.id,
  ==_comm r.event_id p.event_id,
  ==_comm i.level p.level,
)

pub update-kept :
    (event : Text) (i : Input) (id uid : Text) (now : ℕ) (db : Tables)
    → validate i ≡ ok tt
    → ((p : Prize) → find (by_id id) db.prizes ≡ some p → p.event_id ≡ event)
    → Free event i id db
    → TableIsValid db
    → TableIsValid (update_prize id (new_prize event i) uid now db).1
unfolding update_prize
update-kept event i id uid now db v own f h = elim (Option-cases (find (by_id id) db.prizes)) [
  | inl absent ↦ ground (arith, (find-none_iff (by_id id) db.prizes).0 absent, h)
  | inr (r, found) ↦
      let n = new_prize event i in
      let same = (eq_text_iff r.id id).0 (find-passes (by_id id) db.prizes r found) in
      let changed : TableIsValid
          (record db { prizes = update (by_id id) (updated_row n now) db.prizes }) =
        record {
          rows =
              All-update TierIsValid (by_id id) (updated_row n now) db.prizes
                (λ x _ o.
                  let fine = validate-ok i v event x.id now o.issued in
                  record {
                    issued = o.issued;
                    positive = fine.positive;
                    ordered = fine.ordered;
                    named = fine.named;
                    level = fine.level;
                  })
                h.rows;
          apart =
              Distinct-replace clash (by_id id) (updated_row n now) clash-swap (clash-key id) r
                db.prizes found (changed-clash event i id now r db.prizes f same (own r found))
                h.apart;
        } in
      ground (arith, changed, h)
]
