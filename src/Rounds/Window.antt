-- ===== src/Rounds/Window.antt =====
-- The end of a round's window in 64-bit nanoseconds: what it is, and from which duration it overflows.
use olympiad_next.Prelude.{
  ℕ, pos, ◌≡◌, ◌≤◌, ◌<◌, ◌+◌, ◌*◌, ◌^◌, true, false, ltb, arith, lt→ltb, ltb→lt, refl, ◌≢◌, find,
  some, ap,
}
use olympiad_next.Text.{Text}
use olympiad_next.Errors.{ok}
use olympiad_next.Domain.Round.{Round}
use olympiad_next.Store.{World}
use olympiad_next.Postgres.Rounds.{by_id}
use olympiad_next.Rounds.Entry.{before_add, duration, enter_round}
use olympiad_next.Rounds.Gate.{enter_round-MayEnter}

duration-exact :
    (minutes : ℕ) → minutes ≤ 307445734 → duration (pos minutes) ≡ minutes * 60000000000
duration-exact minutes h = omega arith

before_add-positive : (now t d : ℕ) → d < 2 ^ 63 → before_add now t d ≡ ltb now (t + d)
before_add-positive now t d h = rw (lt→ltb d (2 ^ 63) h) refl

before_add-negative : (now t d : ℕ) → 2 ^ 63 ≤ d → t ≤ now → before_add now t d ≡ false
before_add-negative now t d h begun = ground arith

-- A duration of at most 153722867 minutes ends that many minutes after the start.
pub before_add-minutes :
    (now start minutes : ℕ)
    → minutes ≤ 153722867
    → before_add now start (duration (pos minutes)) ≡ ltb now (start + minutes * 60000000000)
before_add-minutes now start minutes h =
    rw (duration-exact minutes (omega arith))
      (before_add-positive now start (minutes * 60000000000) (omega arith))

-- The next durations overflow to negative ones: from its start on, such a round is over.
pub before_add-overflow :
    (now start minutes : ℕ)
    → 153722867 < minutes
    → minutes ≤ 307445734
    → start ≤ now
    → before_add now start (duration (pos minutes)) ≡ false
before_add-overflow now start minutes h h' begun =
    rw (duration-exact minutes h')
      (before_add-negative now start (minutes * 60000000000) (omega arith) begun)

-- No student is ever admitted to a round of 153722868 to 307445734 minutes, whatever the server does.
pub enter_round-overflow :
    (id user reason : Text) (w : World) (r : Round) (minutes : ℕ)
    → find (by_id id) w.db.rounds ≡ some r
    → r.duration_minutes ≡ pos minutes
    → 153722867 < minutes
    → minutes ≤ 307445734
    → (enter_round id user w).0 ≢ ok (true, reason)
enter_round-overflow id user reason w r minutes there long h h' entered =
    let m = enter_round-MayEnter id user reason w entered in
    let same : m.round ≡ r = ground (arith, m.there) in
    let begun : m.round.start_at ≤ w.now = ground (arith, m.started) in
    let over = before_add-overflow w.now m.round.start_at minutes h h' begun in
    cc (over, m.not_over, ap (λ x. x.duration_minutes) same, long)

-- An admission to a round of at most 153722867 minutes is at or after its start, and before as many
-- minutes have passed.
pub enter_round-window :
    (id user reason : Text) (w : World) (r : Round) (minutes : ℕ)
    → find (by_id id) w.db.rounds ≡ some r
    → r.duration_minutes ≡ pos minutes
    → minutes ≤ 153722867
    → (enter_round id user w).0 ≡ ok (true, reason)
    → (r.start_at ≤ w.now) × (w.now < r.start_at + minutes * 60000000000)
enter_round-window id user reason w r minutes there long h entered =
    let m = enter_round-MayEnter id user reason w entered in
    let same : m.round ≡ r = ground (arith, m.there) in
    let exact = before_add-minutes w.now m.round.start_at minutes h in
    let within : ltb w.now (m.round.start_at + minutes * 60000000000) ≡ true =
      cc (exact, m.not_over, ap (λ x. x.duration_minutes) same, long) in
    rw (← same)
      (ground (arith, m.started), ltb→lt w.now (m.round.start_at + minutes * 60000000000) within)
