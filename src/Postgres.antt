-- ===== src/Postgres.antt =====
-- internal/repository/postgres: each method is its SQL statement on the tables, with the constraints
-- of internal/platform/db/migrations that the method's errors come from.
pub mod Users
pub mod Events
pub mod Registrations
pub mod Details
pub mod Rounds
pub mod Participants
pub mod Prizes
pub mod Notices
pub mod Tokens
pub mod Reads
