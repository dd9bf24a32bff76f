-- ===== src/Notifications/Claims.antt =====
-- The loop over pending events with a commit after each of them.
use guitar_online.Base.{
  ℕ, zero, suc, ◌+◌, ◌≡◌, refl, ap, ◌∙◌, inl, inr, false, Option, Option-cases, List-cases, List,
  select, take, Bool-cases, arith,
}
use guitar_online.Base.Table.{IsKeyed, IsKeyed-save}
use guitar_online.Base.Sort.{sort}
use guitar_online.Base.Removal.{sort-select-save}
use guitar_online.Store.Events.{OutboxEvent, outbox_key}
use guitar_online.Notifications.Messages.{build_messages}
use guitar_online.Notifications.Mailbox.{DeliveryClient, Mailbox}
use guitar_online.Notifications.Worker.{Round, deliver_all, process_event, finish}
use guitar_online.Notifications.Batch.{
  is_pending, occurs_first, Cycle, process_one, process_claimed, process_pending_events,
  process_pending_each,
}

-- The rows that a claim takes the first ones of.
abbrev pending_in_order : List OutboxEvent → List OutboxEvent
pending_in_order events = sort occurs_first (select (λ e. is_pending e.status) events)

-- An event that was processed is pending no more.
abbrev IsDone : OutboxEvent → OutboxEvent × Round → Type 0
IsDone e o = (outbox_key o.0 ≡ outbox_key e) × (is_pending o.0.status ≡ false)

finish-IsDone : (t : ℕ) (e : OutboxEvent) (r : Round) → IsDone e (finish t e r)
finish-IsDone t e r = elim (Bool-cases r.done) [
  | inl done ↦ (ground (arith, done), ground (arith, done))
  | inr broken ↦ (ground (arith, broken), ground (arith, broken))
]

process_event-IsDone :
    (client : DeliveryClient) (student_of : ℕ → Option ℕ) (now : ℕ → ℕ) (e : OutboxEvent)
    (box : Mailbox)
    → IsDone e (process_event client student_of now e box)
unfolding process_event
process_event-IsDone client student_of now e box =
    elim (Option-cases (build_messages student_of e.event)) [
      | inl broken ↦ rw (broken, process_event, outbox_key) (refl, refl)
      | inr (messages, built) ↦
          rw (built, process_event, outbox_key)
            (finish-IsDone _ e (deliver_all client now e.id 0 0 messages box))
    ]

module _ (client : DeliveryClient) (student_of : ℕ → Option ℕ) (now : ℕ → ℕ → ℕ) where
  -- With a commit after each event, and a claim of one event at a time, the worker does what it does
  -- with one claim of the whole batch, if the primary keys of the events are distinct: the same events
  -- in the same order, the same counts, rows and messages.
  pub process_pending_each-same :
      (n : ℕ) (c : Cycle)
      → IsKeyed outbox_key c.events
      → process_pending_each client student_of now n c
        ≡ process_pending_events client student_of now n c
  unfolding process_pending_each process_claimed
  process_pending_each-same zero c keyed = refl
  process_pending_each-same (suc n) c keyed = elim (List-cases (pending_in_order c.events)) [
    | inl idle ↦ rw (idle, process_pending_each) refl
    | inr (e, rest, busy) ↦
        rw (busy, process_pending_each)
          (let o = process_event client student_of (now (c.processed + c.failed)) e c.box in
            let done =
              process_event-IsDone client student_of (now (c.processed + c.failed)) e c.box in
            process_pending_each-same n (process_one client student_of now e c)
              (IsKeyed-save outbox_key o.0 c.events keyed)
            ∙ ap
                (λ es.
                  process_claimed client student_of now (take n es)
                    (process_one client student_of now e c))
                (sort-select-save outbox_key occurs_first (λ e. is_pending e.status) o.0 e rest
                  c.events keyed done.1 done.0 busy))
  ]
