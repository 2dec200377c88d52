-- ===== src/Prizes/Requests.antt =====
-- Any sequence of requests to the prizes service that name the event of the tiers that they update.
use olympiad_next.Prelude.{ℕ, ◌≡◌, ◌≢◌, List, [], ◌∷◌, some, find, ap, ◌∙◌, zero, suc, sym}
use olympiad_next.Text.{Text}
use olympiad_next.Text.Trim.{trim_space}
use olympiad_next.Domain.Prize.{Prize}
use olympiad_next.Store.{Tables, World}
use olympiad_next.Store.Keeps.{
  Keeps, KeepsAt, KeepsAt-bind, KeepsAt-lift, KeepsAt-then, KeepsAt-exec, Keeps-exec, Keeps-bind,
  Keeps-pure, Keeps-query, keeps_rules,
}
use olympiad_next.Store.Unique.{Distinct-delete, All-delete}
use olympiad_next.Postgres
use olympiad_next.Postgres.Prizes.{by_id, insert_prize, update_prize, delete_prize, affected}
use olympiad_next.Prizes as Prizes
use olympiad_next.Prizes.{Input, check_no_overlap, new_prize}
use olympiad_next.Prizes.Tiers.{
  Free, TableIsValid, TierIsValid, clash, checked, check-Keeps, insert-kept, update-kept,
}

pub data Request : Type 0 where
  add : Text → Input → Request
  change : Text → Text → Input → Request
  remove : Text → Request
  list : Text → Request

unfoldable pub serve : Request → World → World
serve (add event i) w = (Prizes.create event i w).1
serve (change event id i) w = (Prizes.update event id i w).1
serve (remove id) w = (Prizes.delete id w).1
serve (list event) w = (Prizes.list_by_event event w).1

unfoldable pub serve_all : List Request → World → World
unfolding serve
serve_all [] w = w
serve_all (r ∷ rs) w = serve_all rs (serve r w)

-- gen_random_uuid() never returns the empty text.
abbrev pub IdsAreIssued : World → Type 0
IdsAreIssued w = (n : ℕ) → w.uuid n ≢ []

-- An update names the event of its tier.
abbrev pub IsAddressed : Request → Tables → Type 0
IsAddressed (change event id i) db =
    (p : Prize) → find (by_id (trim_space id)) db.prizes ≡ some p → p.event_id ≡ event
IsAddressed _ db = Unit

abbrev pub AreAddressed : List Request → World → Type 0
AreAddressed [] w = Unit
AreAddressed (r ∷ rs) w = IdsAreIssued w × IsAddressed r w.db × AreAddressed rs (serve r w)

create-KeepsAt :
    (event : Text) (i : Input) (w : World)
    → IdsAreIssued w
    → KeepsAt TableIsValid (Prizes.create event i) w
unfolding Prizes.create Postgres.Prizes.create
create-KeepsAt event i w issued = KeepsAt-lift _ _ w λ _ valid.
    KeepsAt-bind _ _ w (check-Keeps event i []) λ u passed.
      let w1 = (check_no_overlap event i [] w).1 in
      let (free, ids) = (checked event i [] w).of u passed in
      KeepsAt-exec (insert_prize (new_prize event i)) w1 (
        insert-kept event i (w1.uuid w1.step) w1.now w1.db valid
          (λ e. issued w1.step (ap (λ f. f w1.step) (sym ids) ∙ e))
          (let kept : Keeps (Free event i []) (check_no_overlap event i []) =
              check-Keeps event i [] in
            kept.at w free))

update-KeepsAt :
    (event id : Text) (i : Input) (w : World)
    → IsAddressed (change event id i) w.db
    → KeepsAt TableIsValid (Prizes.update event id i) w
unfolding Prizes.update Postgres.Prizes.update_by_id
update-KeepsAt event id i w own =
    let key = trim_space id in
    KeepsAt-lift _ _ w λ _ valid. KeepsAt-bind _ _ w (check-Keeps event i key) λ u passed.
      let w1 = (check_no_overlap event i key w).1 in
      let (free, ids) = (checked event i key w).of u passed in
      let kept : Keeps (Free event i key) (check_no_overlap event i key) =
        check-Keeps event i key in
      let owned : Keeps (IsAddressed (change event id i)) (check_no_overlap event i key) =
        check-Keeps event i key in
      KeepsAt-then _ _ w1
        (KeepsAt-exec (update_prize key (new_prize event i)) w1 (
          update-kept event i key (w1.uuid w1.step) w1.now w1.db valid (owned.at w own)
            (kept.at w free)))
        (λ _. Keeps-pure _)

affected-Keeps : {P : Tables → Type 0} (n : ℕ) → Keeps P (affected n)
unfolding affected
affected-Keeps zero = search keeps_rules
affected-Keeps (suc n) = search keeps_rules

delete-Keeps : (id : Text) → Keeps TableIsValid (Prizes.delete id)
unfolding Prizes.delete Postgres.Prizes.delete delete_prize
delete-Keeps id =
    Keeps-bind _ _
      (Keeps-exec _ (record {
        on = λ _ _ db h. record {
          rows = All-delete TierIsValid (by_id (trim_space id)) db.prizes h.rows;
          apart = Distinct-delete clash (by_id (trim_space id)) db.prizes h.apart;
        };
      }))
      affected-Keeps

list-Keeps : {P : Tables → Type 0} (event : Text) → Keeps P (Prizes.list_by_event event)
unfolding Prizes.list_by_event Postgres.Prizes.list_by_event
list-Keeps event = Keeps-query _

serve-kept :
    (r : Request) (w : World)
    → IdsAreIssued w
    → IsAddressed r w.db
    → TableIsValid w.db
    → TableIsValid (serve r w).db
unfolding serve
serve-kept (add event i) w ids own h = (create-KeepsAt event i w ids).kept h
serve-kept (change event id i) w ids own h = (update-KeepsAt event id i w own).kept h
serve-kept (remove id) w ids own h = (delete-Keeps id).at w h
serve-kept (list event) w ids own h =
    let k : Keeps TableIsValid (Prizes.list_by_event event) = list-Keeps event in k.at w h

-- After requests of which every update names the event of the tier that it changes, whatever the server
-- did to their statements, no two tiers of one event and level have a rank in common; each has a name,
-- one of the three levels, and ranks from a positive one to one that is not smaller.
pub serve_all-TierTable :
    (rs : List Request) (w : World)
    → AreAddressed rs w
    → TableIsValid w.db
    → TableIsValid (serve_all rs w).db
unfolding serve_all
serve_all-TierTable [] w own h = h
serve_all-TierTable (r ∷ rs) w (ids, own, rest) h =
    serve_all-TierTable rs (serve r w) rest (serve-kept r w ids own h)
