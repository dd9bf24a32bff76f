-- ===== src/Notifications/Blocked.antt =====
-- The requeue of failed events with a commit after each of them.
use guitar_online.Base.{
  ℕ, zero, suc, ◌+◌, ◌≡◌, refl, ap, ◌∙◌, inl, inr, false, List-cases, List, [], ◌∷◌, map, length,
  select, take, if◌then◌else◌, Bool-cases, arith,
}
use guitar_online.Base.Table.{save, IsKeyed, IsKeyed-save}
use guitar_online.Base.Saves.{saves}
use guitar_online.Base.Sort.{sort}
use guitar_online.Base.Removal.{sort-select-save}
use guitar_online.Store.Events.{OutboxEvent, outbox_key}
use guitar_online.Notifications.Worker.{mark_outbox_pending}
use guitar_online.Notifications.Backoff.{Retry, is_backoff_elapsed, is_retryable}
use guitar_online.Notifications.Batch.{Cycle, updated_first, requeue_each}

module _ (cfg : Retry) (now t : ℕ) where
  -- The failed events with retries left, the least recently updated first.
  abbrev pub retryable_in_order : List OutboxEvent → List OutboxEvent
  retryable_in_order events = sort updated_first (select (λ e. is_retryable cfg e) events)

  -- Those at the front whose wait is over, up to the first that still waits.
  unfoldable pub ready_prefix : List OutboxEvent → List OutboxEvent
  ready_prefix [] = []
  ready_prefix (e ∷ rest) =
      let later = ready_prefix rest in if is_backoff_elapsed cfg e now then e ∷ later else []

  -- The cycle after these events are made pending.
  abbrev pub with_pending : List OutboxEvent → Cycle → Cycle
  with_pending es c = record c {
    requeued = c.requeued + length es;
    events = saves outbox_key (map (mark_outbox_pending t) es) c.events;
  }

  nothing_pending : (c : Cycle) → c ≡ with_pending [] c
  unfolding saves
  nothing_pending c = ap (λ m. record c { requeued = m }) (omega arith)

  abbrev pending_one : OutboxEvent → Cycle → Cycle
  pending_one e c = record c {
    requeued = c.requeued + 1;
    events = save outbox_key (mark_outbox_pending t e) c.events;
  }

  -- An event that waits is claimed again and again.
  requeue_each_blocked :
      (n : ℕ) (c : Cycle) (e : OutboxEvent) (rest : List OutboxEvent)
      → retryable_in_order c.events ≡ e ∷ rest
      → is_backoff_elapsed cfg e now ≡ false
      → requeue_each cfg now t n c ≡ c
  unfolding requeue_each
  requeue_each_blocked zero c e rest h waits = refl
  requeue_each_blocked (suc n) c e rest h waits =
      rw (h, waits, requeue_each) (requeue_each_blocked n c e rest h waits)

  -- If the primary keys of the events are distinct, the requeue with a commit after each event, in as
  -- many rounds as the batch is large, makes those events pending, and counts them, that stand at the
  -- front of the failed events with retries left, the least recently updated first, up to the first
  -- whose wait is not over. It leaves all that stand behind that one.
  pub requeue_each-same :
      (n : ℕ) (c : Cycle)
      → IsKeyed outbox_key c.events
      → requeue_each cfg now t n c
        ≡ with_pending (ready_prefix (take n (retryable_in_order c.events))) c
  unfolding requeue_each ready_prefix saves
  requeue_each-same zero c keyed = nothing_pending c
  requeue_each-same (suc n) c keyed = elim (List-cases (retryable_in_order c.events)) [
    | inl idle ↦ rw (idle, requeue_each) (nothing_pending c)
    | inr (e, rest, busy) ↦ elim (Bool-cases (is_backoff_elapsed cfg e now)) [
      | inl over ↦
          rw (busy, over, requeue_each)
            (let c' = pending_one e c in
              requeue_each-same n c'
                (IsKeyed-save outbox_key (mark_outbox_pending t e) c.events keyed)
              ∙ ap (λ es. with_pending (ready_prefix (take n es)) c')
                  (sort-select-save outbox_key updated_first (λ e. is_retryable cfg e)
                    (mark_outbox_pending t e) e rest c.events keyed refl refl busy)
              ∙ ap (λ m. record (with_pending (ready_prefix (take n rest)) c') { requeued = m })
                  (omega arith))
      | inr waits ↦
          rw (busy, waits, requeue_each)
            (requeue_each_blocked n c e rest busy waits ∙ nothing_pending c)
    ]
  ]
