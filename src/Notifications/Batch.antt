-- ===== src/Notifications/Batch.antt =====
-- `run_once`: the claims of outbox rows, the requeue of failed events and the processing of pending
-- ones, in one transaction for the batch, or with a commit after each event.
use guitar_online.Base.{
  ℕ, zero, suc, ◌+◌, Bool, true, false, Option, List, [], ◌∷◌, select, take, leb, if◌then◌else◌,
}
use guitar_online.Base.Table.{save}
use guitar_online.Base.Sort.{sort}
use guitar_online.Store.Enums.{OutboxStatusEnum}
use guitar_online.Store.Events.{OutboxEvent, outbox_key}
use guitar_online.Notifications.Mailbox.{DeliveryClient, Mailbox}
use guitar_online.Notifications.Worker.{Round, process_event, mark_outbox_pending}
use guitar_online.Notifications.Backoff.{Retry, is_retryable, is_backoff_elapsed}

abbrev pub is_pending : OutboxStatusEnum → Bool
is_pending OutboxStatusEnum.pending = true
is_pending _ = false

-- ORDER BY occurred_at
abbrev pub occurs_first : OutboxEvent → OutboxEvent → Bool
occurs_first e f = leb e.occurred_at f.occurred_at

-- ORDER BY updated_at
abbrev pub updated_first : OutboxEvent → OutboxEvent → Bool
updated_first e f = leb e.updated_at f.updated_at

abbrev pub claim_pending_outbox : ℕ → List OutboxEvent → List OutboxEvent
claim_pending_outbox limit events =
    take limit (sort occurs_first (select (λ e. is_pending e.status) events))

abbrev pub claim_retryable_failed_outbox : Retry → ℕ → List OutboxEvent → List OutboxEvent
claim_retryable_failed_outbox cfg limit events =
    take limit (sort updated_first (select (λ e. is_retryable cfg e) events))

-- The dictionary of counts, and the rows that the session sees.
pub record Cycle : Type 0 where
  pub requeued : ℕ
  pub processed : ℕ
  pub failed : ℕ
  pub dispatched : ℕ
  pub events : List OutboxEvent
  pub box : Mailbox

-- Requeue, the loop's body: `now` is read once for all events, and the write has its own time.
abbrev pub requeue_event : Retry → ℕ → ℕ → OutboxEvent → Cycle → Cycle
requeue_event cfg now t e c =
    if is_backoff_elapsed cfg e now
    then (record c {
      requeued = c.requeued + 1;
      events = save outbox_key (mark_outbox_pending t e) c.events;
    })
    else c

unfoldable pub requeue_claimed : Retry → ℕ → ℕ → List OutboxEvent → Cycle → Cycle
requeue_claimed cfg now t [] c = c
requeue_claimed cfg now t (e ∷ rest) c =
    requeue_claimed cfg now t rest (requeue_event cfg now t e c)

-- `_requeue_retryable_failed_events` without a commit callback, and with one.
abbrev pub requeue_retryable_failed_events : Retry → ℕ → ℕ → ℕ → Cycle → Cycle
requeue_retryable_failed_events cfg batch_size now t c =
    requeue_claimed cfg now t (claim_retryable_failed_outbox cfg batch_size c.events) c

unfoldable pub requeue_each : Retry → ℕ → ℕ → ℕ → Cycle → Cycle
requeue_each cfg now t zero c = c
requeue_each cfg now t (suc n) c = elim (claim_retryable_failed_outbox cfg 1 c.events) [
  | [] ↦ c
  | e ∷ _ ↦ requeue_each cfg now t n (requeue_event cfg now t e c)
]

-- What `_process_event` adds to the counts.
abbrev pub settle : OutboxEvent × Round → Cycle → Cycle
settle (e, r) c = record c {
  processed = c.processed + (if r.done then 1 else 0);
  failed = c.failed + (if r.done then 0 else 1);
  dispatched = c.dispatched + r.count;
  events = save outbox_key e c.events;
  box = r.box;
}

abbrev pub no_counts : List OutboxEvent → Mailbox → Cycle
no_counts events box = record {
  requeued = 0;
  processed = 0;
  failed = 0;
  dispatched = 0;
  events = events;
  box = box;
}

module _ (client : DeliveryClient) (student_of : ℕ → Option ℕ) (now : ℕ → ℕ → ℕ) where
  -- The loop's body; `now n` gives the clock's readings during the n-th event of the cycle.
  abbrev pub process_one : OutboxEvent → Cycle → Cycle
  process_one e c =
      settle (process_event client student_of (now (c.processed + c.failed)) e c.box) c

  unfoldable pub process_claimed : List OutboxEvent → Cycle → Cycle
  process_claimed [] c = c
  process_claimed (e ∷ rest) c = process_claimed rest (process_one e c)

  -- `_process_pending_events` without a commit callback, and with one.
  abbrev pub process_pending_events : ℕ → Cycle → Cycle
  process_pending_events limit c = process_claimed (claim_pending_outbox limit c.events) c

  unfoldable pub process_pending_each : ℕ → Cycle → Cycle
  process_pending_each zero c = c
  process_pending_each (suc n) c = elim (claim_pending_outbox 1 c.events) [
    | [] ↦ c
    | e ∷ _ ↦ process_pending_each n (process_one e c)
  ]

  -- With and without a commit callback.
  unfoldable pub run_once : Bool → Retry → ℕ → ℕ → ℕ → List OutboxEvent → Mailbox → Cycle
  run_once commits cfg batch_size time t events box =
      if commits
      then process_pending_each batch_size
          (requeue_each cfg time t batch_size (no_counts events box))
      else process_pending_events batch_size
          (requeue_retryable_failed_events cfg batch_size time t (no_counts events box))
