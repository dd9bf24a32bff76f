-- ===== src/Admin.antt =====
-- app/modules/admin: the back office.
pub mod Repository
pub mod Users
pub mod Synced
pub mod Served
pub mod Lockout
pub mod Slots
pub mod Stats
pub mod Buckets
pub mod Overview
pub mod Totals
pub mod Backlog
