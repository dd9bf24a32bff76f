-- ===== src/Identity.antt =====
-- app/modules/identity: accounts and their tokens.
pub mod Security
pub mod Repository
pub mod Service
pub mod Queries
pub mod Rotation
pub mod Logout
pub mod Roundtrip
