-- ===== src/Billing/Payments.antt =====
-- The payments of `BillingService` (app/modules/billing/service.py).
pub mod Status
pub mod PaidAt
pub mod Provider
pub mod Create
pub mod Webhook
pub mod Delivery
