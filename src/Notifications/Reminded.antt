-- ===== src/Notifications/Reminded.antt =====
-- A cycle of reminders, and the next one.
use guitar_online.Base.{
  ℕ, suc, ◌+◌, ◌*◌, ◌≡◌, ◌≢◌, refl, sym, subst, ap, ◌∙◌, inl, inr, true, none, some, List, [], ◌∷◌,
  arith, length, first_match, All, Bool-cases, Option-cases,
}
use guitar_online.Store.Enums.{NotificationStatusEnum}
use guitar_online.Store.Rows.{Lesson, hour}
use guitar_online.Notifications.Reminders.{
  ReminderKey, Reminder, same_key, build_idempotency_key, get_by_idempotency_key,
  create_notification, set_status, Cycle, skip, remind, handle_found, handle_lesson, handle_lessons,
  run_once, list_scheduled_lessons_starting_between,
}

-- The lesson has its reminder.
abbrev pub IsReminded : List Reminder → Lesson → Type 0
IsReminded rs l = get_by_idempotency_key (build_idempotency_key l) rs ≢ none

-- No reminder is lost or changed.
abbrev pub IsKept : List Reminder → List Reminder → Type 0
IsKept rs rs' =
    (k : ReminderKey) (r : Reminder)
    → get_by_idempotency_key k rs ≡ some r
    → get_by_idempotency_key k rs' ≡ some r

sent : ℕ → Lesson → Reminder
sent now l = record (create_notification l) {
  status = NotificationStatusEnum.sent;
  sent_at = some now;
}

same_key_self : (k : ReminderKey) → same_key k k ≡ true
same_key_self k = ground arith

remind_lem :
    (now : ℕ) (l : Lesson) (c : Cycle)
    → (remind now l c).notifications ≡ sent now l ∷ c.notifications
unfolding set_status sent
remind_lem now l c = rw (same_key_self (build_idempotency_key l)) refl

-- What a round leaves behind.
abbrev IsRound : Lesson → Cycle → Cycle → Type 0
IsRound l c c' =
    IsReminded c'.notifications l
    × IsKept c.notifications c'.notifications
    × (c'.stats.created + c'.stats.skipped ≡ suc (c.stats.created + c.stats.skipped))
    × (length c'.notifications + c.stats.created ≡ length c.notifications + c'.stats.created)
    × (c'.stats.scanned ≡ c.stats.scanned)

same_key→eq : (k l : ReminderKey) → same_key k l ≡ true → k ≡ l
same_key→eq k l h =
    let lesson : k.lesson_id ≡ l.lesson_id = ground (arith, h) in
    let date : k.reminder_date ≡ l.reminder_date = ground (arith, h) in rw (lesson, date) refl

skip-IsRound :
    (l : Lesson) (c : Cycle) (r : Reminder)
    → get_by_idempotency_key (build_idempotency_key l) c.notifications ≡ some r
    → IsRound l c (skip c)
skip-IsRound l c r found =
    ((λ missing. ground (arith, found, missing)), (λ k q h. h), omega arith, refl, refl)

remind-IsKept :
    (now : ℕ) (l : Lesson) (rs : List Reminder)
    → get_by_idempotency_key (build_idempotency_key l) rs ≡ none
    → IsKept rs (sent now l ∷ rs)
unfolding first_match sent
remind-IsKept now l rs missing k r found =
    elim (Bool-cases (same_key k (build_idempotency_key l))) [
      | inl hit ↦
          let here =
            ap (λ k. get_by_idempotency_key k rs) (same_key→eq k (build_idempotency_key l) hit) in
          absurd (ground (arith, missing, found, here))
      | inr miss ↦ rw miss found
    ]

remind-IsRound :
    (now : ℕ) (l : Lesson) (c : Cycle)
    → get_by_idempotency_key (build_idempotency_key l) c.notifications ≡ none
    → IsRound l c (remind now l c)
unfolding first_match sent
remind-IsRound now l c missing = rw (remind_lem now l c) (
  (rw (same_key_self (build_idempotency_key l)) (λ h. cc)),
  remind-IsKept now l c.notifications missing,
  omega arith,
  omega arith,
  refl,
)

handle_lesson-IsRound : (now : ℕ) (l : Lesson) (c : Cycle) → IsRound l c (handle_lesson now l c)
handle_lesson-IsRound now l c =
    elim (Option-cases (get_by_idempotency_key (build_idempotency_key l) c.notifications)) [
      | inl missing ↦
          subst (λ o. IsRound l c (handle_found o now l c)) (sym missing)
            (remind-IsRound now l c missing)
      | inr (r, found) ↦
          subst (λ o. IsRound l c (handle_found o now l c)) (sym found) (skip-IsRound l c r found)
    ]

-- What the loop leaves behind.
abbrev IsLoop : List Lesson → Cycle → Cycle → Type 0
IsLoop ls c c' =
    All (IsReminded c'.notifications) ls
    × IsKept c.notifications c'.notifications
    × (c'.stats.created + c'.stats.skipped ≡ length ls + (c.stats.created + c.stats.skipped))
    × (length c'.notifications + c.stats.created ≡ length c.notifications + c'.stats.created)
    × (c'.stats.scanned ≡ c.stats.scanned)

kept-IsReminded :
    (rs rs' : List Reminder) (l : Lesson) → IsKept rs rs' → IsReminded rs l → IsReminded rs' l
kept-IsReminded rs rs' l kept h missing =
    elim (Option-cases (get_by_idempotency_key (build_idempotency_key l) rs)) [
      | inl absent ↦ h absent
      | inr (r, found) ↦ absurd (ground (arith, missing, kept (build_idempotency_key l) r found))
    ]

handle_lessons-IsLoop :
    (now_provider : ℕ → ℕ) (n : ℕ) (ls : List Lesson) (c : Cycle)
    → IsLoop ls c (handle_lessons now_provider n ls c)
unfolding handle_lessons
handle_lessons-IsLoop now_provider n [] c = (tt, (λ k r h. h), omega arith, refl, refl)
handle_lessons-IsLoop now_provider n (l ∷ ls) c =
    let (reminded, kept, counted, longer, same) = handle_lesson-IsRound (now_provider n) l c in
    let (reminded', kept', counted', longer', same') =
      handle_lessons-IsLoop now_provider (suc n) ls (handle_lesson (now_provider n) l c) in
    (
      (kept-IsReminded _ _ l kept' reminded, reminded'),
      (λ k r h. kept' k r (kept k r h)),
      omega (arith, counted, counted'),
      omega (arith, longer, longer'),
      same' ∙ same,
    )

-- What a cycle leaves behind.
abbrev pub IsCycle : List Lesson → List Reminder → Cycle → Type 0
IsCycle batch notifications c =
    All (IsReminded c.notifications) batch
    × IsKept notifications c.notifications
    × (c.stats.scanned ≡ length batch)
    × (c.stats.created + c.stats.skipped ≡ length batch)
    × (length c.notifications ≡ length notifications + c.stats.created)

-- After a cycle each lesson of its batch has a reminder for its day, no earlier reminder is lost or
-- changed, each lesson counts as created or skipped, and there are as many new reminders as are
-- counted as created.
pub run_once-IsCycle :
    (now_provider : ℕ → ℕ) (batch_size window_hours : ℕ) (lessons : List Lesson)
    (notifications : List Reminder)
    → IsCycle
        (list_scheduled_lessons_starting_between
          (now_provider 0)
          (now_provider 0 + window_hours * hour)
          batch_size
          lessons)
        notifications
        (run_once now_provider batch_size window_hours lessons notifications)
unfolding run_once
run_once-IsCycle now_provider batch_size window_hours lessons notifications =
    let batch =
      list_scheduled_lessons_starting_between (now_provider 0)
        (now_provider 0 + window_hours * hour) batch_size lessons in
    let (reminded, kept, counted, longer, same) =
      handle_lessons-IsLoop now_provider 1 batch (record {
        stats = record { scanned = length batch; created = 0; skipped = 0 };
        notifications = notifications;
      }) in
    (reminded, kept, same, omega (arith, counted), omega (arith, longer))

idle :
    (now_provider : ℕ → ℕ) (n : ℕ) (ls : List Lesson) (c : Cycle)
    → All (IsReminded c.notifications) ls
    → (handle_lessons now_provider n ls c).notifications ≡ c.notifications
unfolding handle_lessons
idle now_provider n [] c h = refl
idle now_provider n (l ∷ ls) c h =
    elim (Option-cases (get_by_idempotency_key (build_idempotency_key l) c.notifications)) [
      | inl missing ↦ absurd (h.0 missing)
      | inr (r, found) ↦
          let skipped = idle now_provider (suc n) ls (skip c) h.1 in
          subst
            (λ o.
              (handle_lessons now_provider (suc n) ls
                (handle_found o (now_provider n) l c)).notifications
              ≡ c.notifications)
            (sym found) skipped
    ]

-- A second cycle over the same lessons that begins at the same time, whatever its later readings of the clock, sends
-- nothing: the reminders stay as the first cycle left them.
pub run_once_twice :
    (now_provider later : ℕ → ℕ) (batch_size window_hours : ℕ) (lessons : List Lesson)
    (notifications : List Reminder)
    → later 0 ≡ now_provider 0
    → (let first = run_once now_provider batch_size window_hours lessons notifications in
        (run_once later batch_size window_hours lessons first.notifications).notifications
        ≡ first.notifications)
unfolding run_once
run_once_twice now_provider later batch_size window_hours lessons notifications same = rw same (
    idle later 1 _ _
      (run_once-IsCycle now_provider batch_size window_hours lessons notifications).0)
