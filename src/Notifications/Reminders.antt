-- ===== src/Notifications/Reminders.antt =====
-- app/modules/notifications/reminder_worker.py: `LessonReminder24hWorker`, over the notifications
-- that carry its keys. The texts of a reminder are the lesson and its start.
use guitar_online.Base.{
  ℕ, suc, ◌+◌, ◌*◌, ◌/◌, Bool, ◌&&◌, Option, none, some, List, [], ◌∷◌, leb, ◌==◌, if◌then◌else◌,
  select, take, length, first_match,
}
use guitar_online.Base.Sort.{sort}
use guitar_online.Store.Enums.{NotificationStatusEnum}
use guitar_online.Store.LessonStatus.{is_scheduled}
use guitar_online.Store.Rows.{Lesson, hour, day}

-- `build_idempotency_key`: the parts of the text.
pub record ReminderKey : Type 0 where
  pub lesson_id : ℕ
  pub reminder_date : ℕ

pub record Reminder : Type 0 where
  pub key : ReminderKey
  pub user_id : ℕ
  pub lesson_start_at : ℕ
  pub status : NotificationStatusEnum
  pub sent_at : Option ℕ

abbrev pub same_key : ReminderKey → ReminderKey → Bool
same_key k l = k.lesson_id == l.lesson_id && k.reminder_date == l.reminder_date

abbrev pub has_key : ReminderKey → Reminder → Bool
has_key k r = same_key k r.key

abbrev pub build_idempotency_key : Lesson → ReminderKey
build_idempotency_key l = record { lesson_id = l.id; reminder_date = l.scheduled_start_at / day }

abbrev pub get_by_idempotency_key : ReminderKey → List Reminder → Option Reminder
get_by_idempotency_key k rs = first_match (has_key k) rs

abbrev pub starts_earlier : Lesson → Lesson → Bool
starts_earlier l m = leb l.scheduled_start_at m.scheduled_start_at

abbrev pub starts_between : ℕ → ℕ → Lesson → Bool
starts_between from_utc to_utc l =
    is_scheduled l.status && (leb from_utc l.scheduled_start_at && leb l.scheduled_start_at to_utc)

unfoldable pub list_scheduled_lessons_starting_between : ℕ → ℕ → ℕ → List Lesson → List Lesson
list_scheduled_lessons_starting_between from_utc to_utc limit lessons =
    take limit (sort starts_earlier (select (starts_between from_utc to_utc) lessons))

-- A new row, PENDING.
abbrev pub create_notification : Lesson → Reminder
create_notification l = record {
  key = build_idempotency_key l;
  user_id = l.student_id;
  lesson_start_at = l.scheduled_start_at;
  status = NotificationStatusEnum.pending;
  sent_at = none;
}

-- `set_status` of the row that was just created.
unfoldable pub set_status :
    ReminderKey → NotificationStatusEnum → Option ℕ → List Reminder → List Reminder
set_status k status sent_at [] = []
set_status k status sent_at (r ∷ rs) =
    let rest = set_status k status sent_at rs in
    if has_key k r then record r { status = status; sent_at = sent_at } ∷ rs else r ∷ rest

pub record Stats : Type 0 where
  pub scanned : ℕ
  pub created : ℕ
  pub skipped : ℕ

pub record Cycle : Type 0 where
  pub stats : Stats
  pub notifications : List Reminder

abbrev pub skip : Cycle → Cycle
skip c = record c { stats = record c.stats { skipped = suc c.stats.skipped } }

abbrev pub remind : ℕ → Lesson → Cycle → Cycle
remind now l c = record {
  stats = record c.stats { created = suc c.stats.created };
  notifications =
      set_status (build_idempotency_key l) NotificationStatusEnum.sent (some now)
        (create_notification l ∷ c.notifications);
}

-- `if existing is not None: …`
abbrev pub handle_found : Option Reminder → ℕ → Lesson → Cycle → Cycle
handle_found (some existing) now l c = skip c
handle_found none now l c = remind now l c

-- The body of the loop, with the time at which a reminder is marked.
abbrev pub handle_lesson : ℕ → Lesson → Cycle → Cycle
handle_lesson now l c =
    handle_found (get_by_idempotency_key (build_idempotency_key l) c.notifications) now l c

-- Round n takes the n-th reading of `now_provider` behind the cycle's own.
unfoldable pub handle_lessons : (ℕ → ℕ) → ℕ → List Lesson → Cycle → Cycle
handle_lessons now_provider n [] c = c
handle_lessons now_provider n (l ∷ ls) c =
    handle_lessons now_provider (suc n) ls (handle_lesson (now_provider n) l c)

unfoldable pub run_once : (ℕ → ℕ) → ℕ → ℕ → List Lesson → List Reminder → Cycle
run_once now_provider batch_size window_hours lessons notifications =
    let cycle_now = now_provider 0 in
    let batch =
      list_scheduled_lessons_starting_between cycle_now (cycle_now + window_hours * hour) batch_size
        lessons in
    handle_lessons now_provider 1 batch (record {
      stats = record { scanned = length batch; created = 0; skipped = 0 };
      notifications = notifications;
    })
