-- ===== src/RateLimit.antt =====
-- app/core/rate_limit.py: the in-memory sliding window; app/modules/identity/rate_limit.py: its keys.
pub mod Window
pub mod Limit
pub mod Client
pub mod Keys
