-- ===== src/Notifications/Backoff.antt =====
-- `_is_backoff_elapsed` and the requeue of failed events.
use Prim.Native.Nat.pow
use guitar_online.Base.{ℕ, ◌+◌, ◌-◌, ◌*◌, ◌^◌, Bool, true, false, ◌&&◌, leb, ltb, if◌then◌else◌}
use guitar_online.Store.Enums.{OutboxStatusEnum}
use guitar_online.Store.Events.{OutboxEvent}

-- `timedelta(seconds=1)`
abbrev pub second : ℕ
second = 1_000_000

abbrev pub max : ℕ → ℕ → ℕ
max a b = if leb a b then b else a

abbrev pub min : ℕ → ℕ → ℕ
min a b = if leb a b then a else b

-- The worker's parameters, in seconds.
pub record Retry : Type 0 where
  pub max_retries : ℕ
  pub base_backoff_seconds : ℕ
  pub max_backoff_seconds : ℕ

abbrev pub backoff_seconds : Retry → ℕ → ℕ
backoff_seconds cfg retries =
    min cfg.max_backoff_seconds (cfg.base_backoff_seconds * 2 ^ (max retries 1 - 1))

unfoldable pub is_backoff_elapsed : Retry → OutboxEvent → ℕ → Bool
is_backoff_elapsed cfg e now = leb (e.updated_at + backoff_seconds cfg e.retries * second) now

abbrev pub is_failed : OutboxStatusEnum → Bool
is_failed OutboxStatusEnum.failed = true
is_failed _ = false

-- The WHERE of `claim_retryable_failed_outbox`.
abbrev pub is_retryable : Retry → OutboxEvent → Bool
is_retryable cfg e = is_failed e.status && ltb e.retries cfg.max_retries
