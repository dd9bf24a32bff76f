-- ===== src/Billing/Packages.antt =====
-- The lesson packages of `BillingService` (app/modules/billing/service.py).
pub mod Expire
pub mod Create
pub mod Use
pub mod Sweep
