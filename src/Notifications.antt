-- ===== src/Notifications.antt =====
-- app/modules/notifications: the worker that turns outbox events into notifications.
pub mod Messages
pub mod Mailbox
pub mod Worker
pub mod Backoff
pub mod Reminders
pub mod Reminded
pub mod Once
pub mod Outcome
pub mod Batch
pub mod Claims
pub mod Blocked
