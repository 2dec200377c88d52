-- ===== src/Registrations/Once.antt =====
-- No second submission takes a transaction id, or a student's place at an event, again.
use olympiad_next.Prelude.{
  ℕ, ◌≡◌, ◌≢◌, refl, Bool, true, List, [], ◌∷◌, any, any-append, arith, ==_refl,
}
use olympiad_next.Text.{Text, text_eq}
use olympiad_next.Text.Trim.{trim_space}
use olympiad_next.Errors.{ok}
use olympiad_next.Domain.Registration.{Status, Registration}
use olympiad_next.Store.{Tables, World}
use olympiad_next.Store.Rows.{any-update}
use olympiad_next.Postgres.Registrations.Lift.{StatementsKeep}
use olympiad_next.Postgres.Registrations.{
  update_registrations, reviewed_row, unrejected_row, carded_row, pending_row, rejected_row,
  approved_row, new_row, by_transaction, by_user_event, insert_registration,
}
use olympiad_next.Registrations.{RegisterInput, register}
use olympiad_next.Registrations.Requests.{Request, serve_all, serve_all-Keeps, Format}
use olympiad_next.Registrations.Submit.{with_row, register-Accepted}

-- A key of a row that the guarded UPDATEs leave alone.
record KeyIsKept (q : Registration → Bool) : Type 0 where
  reviewed :
      (d : Status) (by : Text) (now : ℕ) (r : Registration) → q (reviewed_row d by now r) ≡ q r
  unrejected : (now : ℕ) (r : Registration) → q (unrejected_row now r) ≡ q r
  carded : (url : Text) (now : ℕ) (r : Registration) → q (carded_row url now r) ≡ q r

-- No statement removes a row with a key.
statements-key :
    (q : Registration → Bool)
    → KeyIsKept q
    → StatementsKeep Format (λ db. any q db.registrations ≡ true)
unfolding insert_registration update_registrations
statements-key q k = record {
  inserts = λ n f. record {
    on = λ id now db h. ground (arith, any-append q db.registrations (new_row n id now ∷ []));
  };
  reviews = λ id by d n. record {
    on = λ at now db h. ground (
      arith,
      any-update q (pending_row id) (reviewed_row d by now) db.registrations (k.reviewed d by now),
    );
  };
  unrejects = λ id. record {
    on = λ at now db h. ground (
      arith,
      any-update q (rejected_row id) (unrejected_row now) db.registrations (k.unrejected now),
    );
  };
  cards = λ id url. record {
    on = λ at now db h. ground (
      arith,
      any-update q (approved_row id) (carded_row url now) db.registrations (k.carded url now),
    );
  };
}

-- A key of an accepted row is there after any requests.
key-stays :
    (q : Registration → Bool) (r : Registration) (db : Tables) (w : World) (rs : List Request)
    → KeyIsKept q
    → q r ≡ true
    → w.db ≡ with_row r db
    → any q (serve_all rs w).db.registrations ≡ true
unfolding any
key-stays q r db w rs k hit added =
    serve_all-Keeps (statements-key q k) rs w
      (rw added (ground (arith, any-append q db.registrations (r ∷ []))))

-- After an accepted submission, whatever requests follow and whatever the server does to them, no
-- submission of the same student for the same event is accepted, and none with the same transaction id.
pub register_once :
    (user : Text) (i : RegisterInput) (w : World) (r : Registration)
    → (register user i w).0 ≡ ok r
    → (rs : List Request) (other : Text) (j : RegisterInput) (s : Registration)
    → (register other j (serve_all rs (register user i w).1)).0 ≡ ok s
    → (s.transaction_id ≢ r.transaction_id)
      × ((other ≡ user) → trim_space j.event_id ≢ trim_space i.event_id)
register_once user i w r h rs other j s h' =
    let first = register-Accepted user i w r h in
    let second = register-Accepted other j (serve_all rs (register user i w).1) s h' in
    let trx = r.transaction_id in
    let taken =
      key-stays (by_transaction trx) r w.db (register user i w).1 rs
        (record { reviewed = λ _ _ _ _. refl; unrejected = λ _ _. refl; carded = λ _ _ _. refl })
        (==_refl trx) first.added in
    let pair =
      key-stays (by_user_event r.user_id r.event_id) r w.db (register user i w).1 rs
        (record { reviewed = λ _ _ _ _. refl; unrejected = λ _ _. refl; carded = λ _ _ _. refl })
        (ground (arith, ==_refl r.user_id, ==_refl r.event_id)) first.added in
    (
      λ same. cc (taken, second.fits.new_transaction, same),
      λ who what. cc (
        pair, second.fits.new_pair, who, what, first.asked.student, first.asked.event,
        second.asked.student, second.asked.event,
      ),
    )
