-- ===== src/Lib.antt =====
-- A model of the backend of OlympiadNext, in which students register for an olympiad, administrators
-- review their payments, hold its rounds and record who qualifies and wins.
--
-- The parts, and the files of the repository that they are about:
--   Text, Phone: what the program uses of packages strings, unicode and regexp, and the normal form of a
--     mobile number (internal/app/registrations/service.go). A text is a list of runes.
--   Domain, Errors: the entities and the sentinel errors of internal/domain. A string type with named
--     constants is a data type with a constructor for each constant and `other` for the rest. A wrapped
--     error is the sentinel that errors.Is finds in it; an error without one is `internal`.
--   Store: the state behind a request. A world has the tables, the clock, and the database server, which
--     decides for every statement whether it runs, fails without effect, or takes effect and loses its
--     answer. A request is an action on the world; `require` is an early return. Store/Keeps has a rule
--     for each way to build an action, on what it keeps of the tables; Store/Answers on what a positive
--     answer says, Store/Quiet on the messages that it sends, Store/Changes on the state of a row; Store/Unique is on unique indexes.
--   Postgres: internal/repository/postgres. A method is its SQL statement on the tables, with the CHECKs,
--     unique indexes, foreign keys and cascades of internal/platform/db/migrations, in the order in which
--     the server checks them. Postgres/Registrations and Postgres/Rounds have the invariants of the
--     tables as records that each statement keeps, and what a statement does to the state of a row;
--     Postgres/Users/State has the invariant of accounts and refresh tokens.
--   Registrations: internal/app/registrations/service.go. Registrations/Machine and
--     Registrations/Issue have its abstract specification, a machine on one row of the table, and
--     Registrations/Life the states of a registration under any requests, as a transition system.
--   Rounds: internal/app/rounds/service.go; Rounds/Entry has the entry gate, Rounds/Decisions the
--     candidates and the decisions, Rounds/Machine the machine that starting and ending run on a row,
--     Rounds/Life the states of a round under any requests, as a transition system.
--   Prizes: internal/app/prizes/service.go. Events: internal/app/events/service.go.
--   Notices: internal/app/notices/service.go, the board that the public sees.
--   Auth: internal/auth. Auth/Outside has the code that is not in the repository and that the services
--     call (golang-jwt, bcrypt, SHA-256, net/mail, Google's idtoken, crypto/rand, the senders of mail and
--     SMS, SQL's LOWER) as one record of functions, a parameter of every definition that uses it; its
--     fields may be any functions, and what a theorem asks of them is a hypothesis. Auth/Jwt has
--     jwt/jwt.go, Auth/Email has email/*.go, and Auth/Accounts, Auth/Session and Auth/Otp have service.go
--     with google/verifier.go; Auth/Issued says whose session a pair of tokens is. Auth/Requests has the requests of users, in any order, as sequences in
--     which a goroutine that was started may run at any time.
--   Http: internal/http. A handler is an action whose answer is a status with a body or a message. Http/Gates
--     has the middleware, Http/Files the files that are served to their owners, with the paths of
--     internal/platform/storage/local.go, Http/Profile the profile and the review of accounts, Http/Cookies
--     and Http/Sessions the handlers under /api/auth, Http/Registrations those on registrations, whose
--     reading and storing of an uploaded file is a parameter, and Http/Admin and Http/Uploads what
--     internal/server/router.go puts before the routes under /api/admin and does for /uploads.
--   Notify: internal/app/notify/service.go, whose normalizePhone and generateOTPCode are copies of
--     normalizeSenderNumber in Phone and of generateOTPCode in Auth/Otp.
--   Fixtures and the Tests modules: concrete rows, runs of the services, and the theorems at them.
--
-- Integers of Go are ℤ, instants are natural numbers of nanoseconds with Go's zero time at 0; the one
-- computation that can overflow, the end of a round's window, is written out modulo 2 ^ 64. The only fuel
-- is in %d of a number: 20 digits, enough for any int64.
--
-- Not modelled: the values that a column refuses (a text that is too long, an integer beyond 32 bits, a
-- malformed UUID) and the foreign key of reviewed_by, which are failures of the statement that the
-- server may choose at any time; the other spellings of a UUID, which Postgres takes for the same id,
-- where the model compares ids as texts; logging; the interleaving of the statements of two requests, where each
-- request runs as a whole except in Auth/Rotation; the parts listed below.
--   internal/app/importantdates, the other handlers and the rate limiter of internal/http, the decoding
--   and encoding of JSON, the rest of internal/server, internal/config, internal/platform, main.go.
pub mod Prelude
pub mod Fixtures
pub mod Text
pub mod Phone
pub mod Domain
pub mod Errors
pub mod Store
pub mod Postgres
pub mod Registrations
pub mod Rounds
pub mod Prizes
pub mod Events
pub mod Auth
pub mod Http
pub mod Notify
pub mod Notices
