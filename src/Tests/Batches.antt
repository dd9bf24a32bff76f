-- ===== src/Tests/Batches.antt =====
-- A batch of outbox events.
use guitar_online.Base.{take, ℕ, ◌*◌, ◌≡◌, refl, none, some, [], ◌∷◌, first_match}
use guitar_online.Base.Table.{find, save}
use guitar_online.Base.Sort.{insert, sort}
use guitar_online.Store.Enums.{OutboxStatusEnum}
use guitar_online.Store.Events.{OutboxEvent, booking_confirmed}
use guitar_online.Notifications.Mailbox.{DeliveryClient, Mailbox, delivered, set_status}
use guitar_online.Notifications.Messages.{build_messages}
use guitar_online.Notifications.Worker.{process_event, deliver, deliver_all}
use guitar_online.Notifications.Backoff.{Retry, second, is_backoff_elapsed}
use guitar_online.Notifications.Batch.{
  Cycle, no_counts, requeue_claimed, requeue_each, requeue_retryable_failed_events,
  process_pending_each, process_pending_events,
}
use guitar_online.Notifications.Blocked.{
  retryable_in_order, ready_prefix, with_pending, requeue_each-same,
}
use guitar_online.Notifications.Claims.{process_pending_each-same}

abbrev working : DeliveryClient
working n m = delivered

abbrev waiting : OutboxEvent
waiting = record {
  id = 61;
  event = booking_confirmed 31 1 11;
  status = OutboxStatusEnum.pending;
  occurred_at = 8;
  updated_at = 8;
  processed_at = none;
  retries = 0;
  error_message = none;
}

abbrev earlier : OutboxEvent
earlier = record waiting { id = 60; occurred_at = 5; updated_at = 5 }

abbrev empty : Mailbox
empty = record { notifications = []; sends = [] }

abbrev start : Cycle
start = no_counts (waiting ∷ earlier ∷ []) empty

abbrev now : ℕ → ℕ → ℕ
now n k = 100

process_pending_each-same_example :
    process_pending_each working (λ n. some n) now 1 start
    ≡ process_pending_events working (λ n. some n) now 1 start
unfolding find
process_pending_each-same_example =
    process_pending_each-same working (λ n. some n) now 1 start (refl, (refl, tt))

-- The batch begins with the event that occurred first.
earlier_first :
    (process_pending_each working (λ n. some n) now 1 start).events
    ≡ waiting
      ∷ record earlier {
        status = OutboxStatusEnum.processed;
        processed_at = some 100;
        updated_at = 100;
      }
      ∷ []
unfolding process_pending_each process_event deliver deliver_all set_status first_match save sort
    insert build_messages
earlier_first = refl

abbrev retry : Retry
retry = record { max_retries = 5; base_backoff_seconds = 30; max_backoff_seconds = 300 }

-- It failed four times, and waits four minutes.
abbrev stubborn : OutboxEvent
stubborn = record waiting { status = OutboxStatusEnum.failed; retries = 4; updated_at = 0 }

-- It failed once, and waits half a minute.
abbrev fresh : OutboxEvent
fresh = record earlier { status = OutboxStatusEnum.failed; retries = 1; updated_at = second }

-- A minute later the batch requeues the one that has waited long enough.
batch_requeues :
    (requeue_retryable_failed_events retry 50
      (60 * second)
      0
      (no_counts (stubborn ∷ fresh ∷ []) empty)).requeued
    ≡ 1
unfolding requeue_claimed is_backoff_elapsed save sort insert
batch_requeues = refl

-- With a commit after each event it claims the other one, fifty times.
each_blocked :
    (requeue_each retry (60 * second) 0 50 (no_counts (stubborn ∷ fresh ∷ []) empty)).requeued ≡ 0
unfolding requeue_each is_backoff_elapsed save sort insert
each_blocked = refl

abbrev failures : Cycle
failures = no_counts (stubborn ∷ fresh ∷ []) empty

requeue_each-same_example :
    requeue_each retry (60 * second) 0 50 failures
    ≡ with_pending retry
        (60 * second)
        0
        (ready_prefix retry
          (60 * second)
          0
          (take 50 (retryable_in_order retry (60 * second) 0 failures.events)))
        failures
unfolding find
requeue_each-same_example = requeue_each-same retry (60 * second) 0 50 failures (refl, (refl, tt))
