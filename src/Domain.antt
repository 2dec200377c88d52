-- ===== src/Domain.antt =====
-- The entities of internal/domain. A string type with named constants is a data type with a
-- constructor for each constant and `other` for the rest of the strings.
pub mod User
pub mod Event
pub mod Registration
pub mod Round
pub mod Prize
pub mod Notice
pub mod Token
pub mod Device
pub mod Message
