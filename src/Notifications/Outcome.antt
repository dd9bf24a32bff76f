-- ===== src/Notifications/Outcome.antt =====
-- What `_process_event` makes of an event.
use guitar_online.Base.{ℕ, ◌+◌, ◌≡◌, ◌⊎◌, inl, inr, true, Option, some, List, Bool-cases, arith}
use guitar_online.Store.Enums.{OutboxStatusEnum}
use guitar_online.Store.Events.{OutboxEvent}
use guitar_online.Notifications.Messages.{NotificationMessage, build_messages}
use guitar_online.Notifications.Mailbox.{DeliveryClient, Mailbox}
use guitar_online.Notifications.Worker.{Round, deliver_all, finish, process_event}
use guitar_online.Notifications.Once.{AllSent, deliver_all-AllSent}

module _ (client : DeliveryClient) (student_of : ℕ → Option ℕ) (now : ℕ → ℕ) (e : OutboxEvent)
    (box : Mailbox) where
  -- The event is PROCESSED and all its messages SENT, or it is FAILED with one more retry.
  abbrev pub Ended : List NotificationMessage → OutboxEvent × Round → Type 0
  Ended ms o =
      ((o.0.status ≡ OutboxStatusEnum.processed)
        × (o.0.retries ≡ e.retries)
        × AllSent e.id 0 ms o.1.box)
      ⊎ ((o.0.status ≡ OutboxStatusEnum.failed) × (o.0.retries ≡ e.retries + 1))

  finish-Ended :
      (t : ℕ) (ms : List NotificationMessage) (r : Round)
      → (r.done ≡ true → AllSent e.id 0 ms r.box)
      → Ended ms (finish t e r)
  finish-Ended t ms r sent = elim (Bool-cases r.done) [
    | inl done ↦ inl (ground (arith, done), ground (arith, done), sent done)
    | inr broken ↦ inr (ground (arith, broken), ground (arith, broken))
  ]

  -- An event whose messages can be built ends PROCESSED, with each message SENT and no retry spent,
  -- or FAILED, with one retry more.
  pub process_event-Ended :
      (ms : List NotificationMessage)
      → build_messages student_of e.event ≡ some ms
      → Ended ms (process_event client student_of now e box)
  unfolding process_event
  process_event-Ended ms built =
      let r = deliver_all client now e.id 0 0 ms box in
      rw (built, process_event)
        (finish-Ended (now r.count) ms r (deliver_all-AllSent client now e.id 0 0 ms box))
