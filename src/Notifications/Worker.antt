-- ===== src/Notifications/Worker.antt =====
-- `_process_event` and its loop over the messages of an event.
use guitar_online.Base.{
  ℕ, ◌+◌, suc, Bool, true, false, Option, none, some, List, [], ◌∷◌, length, if◌then◌else◌,
}
use guitar_online.Store.Enums.{NotificationStatusEnum, OutboxStatusEnum}
use guitar_online.Store.Events.{OutboxEvent}
use guitar_online.Notifications.Messages.{NotificationMessage, build_messages}
use guitar_online.Notifications.Mailbox.{
  Key, idempotency_key, is_sent, Attempt, delivered, DeliveryClient, Mailbox,
  get_by_idempotency_key, create_notification, set_status,
}

-- What became of one message: it had been sent before, it is sent now, or its delivery failed.
pub data Outcome : Type 0 where
  skipped dispatched failed : Outcome

-- The row under a key, created unless it is there.
abbrev pub ensure_notification : Key → NotificationMessage → Mailbox → Mailbox
ensure_notification key m box = elim (get_by_idempotency_key key box.notifications) [
  | none ↦ record box { notifications = create_notification key m ∷ box.notifications }
  | some n ↦ box
]

abbrev pub already_sent : Key → Mailbox → Bool
already_sent key box = elim (get_by_idempotency_key key box.notifications) [
  | none ↦ false
  | some n ↦ is_sent n.status
]

-- The state after a call of the client.
abbrev pub after_attempt : Key → NotificationMessage → ℕ → Attempt → Mailbox → Outcome × Mailbox
after_attempt key m now delivered box = (
  dispatched,
  record {
    notifications = set_status key NotificationStatusEnum.sent (some now) box.notifications;
    sends = m ∷ box.sends;
  },
)
after_attempt key m now _ box = (
  failed,
  record {
    notifications = set_status key NotificationStatusEnum.failed none box.notifications;
    sends = m ∷ box.sends;
  },
)

-- The body of the loop.
unfoldable pub deliver :
    DeliveryClient → ℕ → Key → NotificationMessage → Mailbox → Outcome × Mailbox
deliver client now key m box =
    let ready = ensure_notification key m box in
    if already_sent key ready
    then (skipped, ready)
    else after_attempt key m now (client (length box.sends) m) ready

-- What the loop leaves: whether it came to its end, how many messages it sent, and the mailbox.
pub record Round : Type 0 where
  pub done : Bool
  pub count : ℕ
  pub box : Mailbox

-- After one outcome: an exception ends the loop.
abbrev pub go_on : ℕ → Outcome × Mailbox → (ℕ → Mailbox → Round) → Round
go_on count (skipped, box) rest = rest count box
go_on count (dispatched, box) rest = rest (suc count) box
go_on count (failed, box) rest = record { done = false; count = count; box = box }

-- The loop from a message's index on, with the count so far. `now` gives the clock's readings.
unfoldable pub deliver_all :
    DeliveryClient → (ℕ → ℕ) → ℕ → ℕ → ℕ → List NotificationMessage → Mailbox → Round
deliver_all client now event_id index count [] box = record {
  done = true;
  count = count;
  box = box;
}
deliver_all client now event_id index count (m ∷ rest) box =
    go_on count (deliver client (now count) (idempotency_key event_id index m) m box)
      λ c b. deliver_all client now event_id (suc index) c rest b

-- AuditRepository.mark_outbox_processed, mark_outbox_failed and mark_outbox_pending; the time of the
-- write is the column's `onupdate`.
abbrev pub mark_outbox_processed : ℕ → OutboxEvent → OutboxEvent
mark_outbox_processed t e = record e {
  status = OutboxStatusEnum.processed;
  processed_at = some t;
  error_message = none;
  updated_at = t;
}

abbrev pub mark_outbox_failed : ℕ → OutboxEvent → OutboxEvent
mark_outbox_failed t e = record e {
  status = OutboxStatusEnum.failed;
  retries = e.retries + 1;
  error_message = some "{exc}";
  processed_at = none;
  updated_at = t;
}

abbrev pub mark_outbox_pending : ℕ → OutboxEvent → OutboxEvent
mark_outbox_pending t e = record e {
  status = OutboxStatusEnum.pending;
  error_message = none;
  processed_at = none;
  updated_at = t;
}

abbrev pub finish : ℕ → OutboxEvent → Round → OutboxEvent × Round
finish t e r = (if r.done then mark_outbox_processed t e else mark_outbox_failed t e, r)

unfoldable pub process_event :
    DeliveryClient → (ℕ → Option ℕ) → (ℕ → ℕ) → OutboxEvent → Mailbox → OutboxEvent × Round
process_event client student_of now e box = elim (build_messages student_of e.event) [
  | none ↦ (mark_outbox_failed (now 0) e, record { done = false; count = 0; box = box })
  | some messages ↦ let r = deliver_all client now e.id 0 0 messages box in finish (now r.count) e r
]
