-- ===== src/Tests.antt =====
-- Concrete rows and the theorems at them.
pub mod Rows
mod Bookings
mod Billing
mod Others
mod Schedules
mod Accounts
mod Reports
mod Batches
mod Limits
