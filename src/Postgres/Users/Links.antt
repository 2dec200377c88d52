-- ===== src/Postgres/Users/Links.antt =====
-- Linking a Google id keeps the tables valid.
use olympiad_next.Prelude.{
  ℕ, ◌≡◌, refl, ◌∙◌, Bool, true, false, not, ◌||◌, ◌&&◌, Option, none, some, List, any, find,
  filter, arith, Option-cases, inl, inr, any-or, ==_comm, ==_iff, any-weaken, find-none_iff, nat_eq,
  any-filter,
}
use olympiad_next.Text.{Text, text_eq}
use olympiad_next.Domain.User.{User}
use olympiad_next.Store.Keeps.{StmtKeeps}
use olympiad_next.Store.Rows.{update, update-none}
use olympiad_next.Store.Unique.{Distinct, Distinct-replace, Distinct-others, All-update}
use olympiad_next.Postgres.Users.{by_id, by_google_id, same_google_id}
use olympiad_next.Postgres.Users.Changes.{link_google, linked_row}
use olympiad_next.Postgres.Users.State.{AccountIsValid, clash_user, AccountsAreValid}

module _ (lower : Text → Text) where
  same_google_swap : (a b : Option Text) → same_google_id a b ≡ same_google_id b a
  same_google_swap none none = refl
  same_google_swap none (some h) = refl
  same_google_swap (some g) none = refl
  same_google_swap (some g) (some h) = ==_comm h g

  clash_user_swap : (u v : User) → (clash_user lower) u v ≡ (clash_user lower) v u
  clash_user_swap u v = ground (
    arith,
    ==_comm u.id v.id,
    ==_comm (lower u.email) (lower v.email),
    same_google_swap u.google_id v.google_id,
  )

  same_id-clash :
      (id : Text) (u v : User)
      → by_id id u ≡ true
      → by_id id v ≡ true
      → (clash_user lower) u v ≡ true
  same_id-clash id u v hu hv = ground (arith, ==_iff u.id id, ==_iff v.id id, ==_iff u.id v.id)

  linked-clash :
      (g : Text) (v : Bool) (now : ℕ) (r x : User)
      → ((clash_user lower) r x || by_google_id g x) ≡ false
      → (clash_user lower) (linked_row g v now r) x ≡ false
  linked-clash g v now r x h = ground (arith, same_google_swap x.google_id (some g))

  linked-Distinct :
      (id g : Text) (v : Bool) (now : ℕ) (r : User) (us : List User)
      → find (by_id id) us ≡ some r
      → any (λ u. not (by_id id u) && by_google_id g u) us ≡ false
      → Distinct (clash_user lower) us
      → Distinct (clash_user lower) (update (by_id id) (linked_row g v now) us)
  linked-Distinct id g v now r us found free d =
      let others = filter (λ u. not (by_id id u)) us in
      let apart =
        Distinct-others (clash_user lower) (by_id id) (linked_row g v now) clash_user_swap
          (same_id-clash id) r us found d in
      let unlinked = any-filter (by_google_id g) (λ u. not (by_id id u)) us ∙ free in
      let clear : any (λ x. (clash_user lower) r x || by_google_id g x) others ≡ false =
        any-or ((clash_user lower) r) (by_google_id g) others ∙ ground (arith, apart, unlinked) in
      Distinct-replace (clash_user lower) (by_id id) (linked_row g v now) clash_user_swap
        (same_id-clash id) r us found
        (any-weaken (λ x. (clash_user lower) r x || by_google_id g x)
          ((clash_user lower) (linked_row g v now r)) others (linked-clash g v now r) clear)
        d

  pub link-Keeps :
      (id g : Text) (v : Bool) → StmtKeeps (AccountsAreValid lower) (link_google id g v)
  unfolding link_google
  link-Keeps id g v = record {
    on = λ uid now db h.
        let f = linked_row g v now in
        let clean : any (λ u. not (by_id id u) && by_google_id g u) db.users ≡ false
            → AccountsAreValid lower (record db { users = update (by_id id) f db.users }) =
          λ free. record {
            accounts =
                All-update AccountIsValid (by_id id) f db.users
                  (λ u _ a. record {
                    credential = ground arith;
                    email_code = a.email_code;
                    phone_code = a.phone_code;
                  })
                  h.accounts;
            unique = elim (Option-cases (find (by_id id) db.users)) [
              | inl absent ↦
                  rw
                    (update-none (by_id id) f db.users
                      ((find-none_iff (by_id id) db.users).0 absent))
                    h.unique
              | inr (r, found) ↦ linked-Distinct id g v now r db.users found free h.unique
            ];
            tokens = h.tokens;
            unique_tokens = h.unique_tokens;
          } in
        let absent : any (by_id id) db.users ≡ false
            → AccountsAreValid lower (record db { users = update (by_id id) f db.users }) =
          λ none. rw (update-none (by_id id) f db.users none) h in
        ground (arith, clean, absent, h);
  }
