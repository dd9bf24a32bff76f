-- ===== src/Billing.antt =====
-- app/modules/billing: the lesson packages and their payments.
pub mod Repository
pub mod Writes
pub mod Payments
pub mod Packages
