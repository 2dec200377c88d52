-- ===== src/Auth.antt =====
-- internal/auth: accounts, passwords, Google sign-in, sessions and their rotation, e-mail codes.
pub mod Outside
pub mod Jwt
pub mod Email
pub mod Session
pub mod Accounts
pub mod Otp
pub mod Requests
pub mod Kept
pub mod Rotation
pub mod Refresh
pub mod Reused
pub mod Issued
pub mod Login
pub mod Codes
pub mod Verified
pub mod Valid
pub mod Sample
pub mod Tests
