-- ===== src/Admin/Overview.antt =====
-- `AdminRepository.get_kpi_overview` and `get_operations_overview`, read at one time
-- (app/modules/admin/repository.py).
use guitar_online.Base.{
  ℕ, ◌+◌, Bool, true, false, ◌&&◌, Option, none, some, List, [], ◌∷◌, String, ltb, leb, ◌==◌, tally,
  if◌then◌else◌,
}
use guitar_online.Base.Table.{find}
use guitar_online.Store.Enums.{
  RoleEnum, BookingStatusEnum, LessonStatusEnum, PaymentStatusEnum, PackageStatusEnum,
  OutboxStatusEnum,
}
use guitar_online.Store.Rows.{User, Booking, Lesson, LessonPackage, Payment, user_key, package_key}
use guitar_online.Store.Events.{OutboxEvent}
use guitar_online.Store.Session.{Db}
use guitar_online.Store.Text.{Str, is_nonempty}
use guitar_online.Booking.Repository.{hold_is_stale}
use guitar_online.Billing.Packages.Expire.{is_due}

-- `_non_synthetic_email_filters`. `like` says whether SQL finds a lowered email behind a prefix.
abbrev pub non_synthetic : Str → (String → String → Bool) → List String → String → Bool
non_synthetic text like [] email = true
non_synthetic text like (prefix ∷ prefixes) email =
    let rest = non_synthetic text like prefixes email in
    let normalized = text.lower (text.strip prefix) in
    if is_nonempty normalized then (if like email normalized then false else rest) else rest

abbrev pub code_of_role : RoleEnum → ℕ
code_of_role RoleEnum.student = 0
code_of_role RoleEnum.teacher = 1
code_of_role RoleEnum.admin = 2

abbrev pub code_of_booking : BookingStatusEnum → ℕ
code_of_booking BookingStatusEnum.hold = 0
code_of_booking BookingStatusEnum.confirmed = 1
code_of_booking BookingStatusEnum.canceled = 2
code_of_booking BookingStatusEnum.expired = 3

abbrev pub code_of_lesson : LessonStatusEnum → ℕ
code_of_lesson LessonStatusEnum.scheduled = 0
code_of_lesson LessonStatusEnum.completed = 1
code_of_lesson LessonStatusEnum.canceled = 2
code_of_lesson LessonStatusEnum.no_show = 3

abbrev pub code_of_payment : PaymentStatusEnum → ℕ
code_of_payment PaymentStatusEnum.pending = 0
code_of_payment PaymentStatusEnum.succeeded = 1
code_of_payment PaymentStatusEnum.failed = 2
code_of_payment PaymentStatusEnum.refunded = 3

abbrev pub code_of_package : PackageStatusEnum → ℕ
code_of_package PackageStatusEnum.active = 0
code_of_package PackageStatusEnum.expired = 1
code_of_package PackageStatusEnum.depleted = 2
code_of_package PackageStatusEnum.canceled = 3

-- The tests of the joins, under the filter on emails.
module _ (keeps : String → Bool) (d : Db) where
  abbrev pub kept_row : Option User → Bool
  kept_row none = false
  kept_row (some u) = keeps u.email

  abbrev pub kept_user : ℕ → Bool
  kept_user id = kept_row (find user_key id d.users)

  abbrev pub kept_owner : Option LessonPackage → Bool
  kept_owner none = false
  kept_owner (some p) = kept_user p.student_id

  abbrev pub joined_booking : Booking → Bool
  joined_booking b = kept_user b.student_id && kept_user b.teacher_id

  abbrev pub joined_lesson : Lesson → Bool
  joined_lesson l = kept_user l.student_id && kept_user l.teacher_id

  abbrev pub joined_package : LessonPackage → Bool
  joined_package p = kept_user p.student_id

  abbrev pub joined_payment : Payment → Bool
  joined_payment p = kept_owner (find package_key p.package_id d.packages)

  -- The groups of the counts.
  abbrev pub count_users_by_role : ℕ → ℕ
  count_users_by_role n = tally (λ u. (code_of_role u.role == n) && keeps u.email) d.users

  abbrev pub count_bookings_by_status : ℕ → ℕ
  count_bookings_by_status n =
      tally (λ b. (code_of_booking b.status == n) && joined_booking b) d.bookings

  abbrev pub count_lessons_by_status : ℕ → ℕ
  count_lessons_by_status n =
      tally (λ l. (code_of_lesson l.status == n) && joined_lesson l) d.lessons

  abbrev pub count_payments_by_status : ℕ → ℕ
  count_payments_by_status n =
      tally (λ p. (code_of_payment p.status == n) && joined_payment p) d.payments

  abbrev pub count_packages_by_status : ℕ → ℕ
  count_packages_by_status n =
      tally (λ p. (code_of_package p.status == n) && joined_package p) d.packages

  unfoldable pub sum_amounts : ℕ → List Payment → ℕ
  sum_amounts n [] = 0
  sum_amounts n (p ∷ ps) =
      let rest = sum_amounts n ps in
      if (code_of_payment p.status == n) && joined_payment p then p.amount + rest else rest

-- The net amount, which may be negative, is left out.
pub record KpiOverview : Type 0 where
  pub users_total : ℕ
  pub users_students : ℕ
  pub users_teachers : ℕ
  pub users_admins : ℕ
  pub bookings_total : ℕ
  pub bookings_hold : ℕ
  pub bookings_confirmed : ℕ
  pub bookings_canceled : ℕ
  pub bookings_expired : ℕ
  pub lessons_total : ℕ
  pub lessons_scheduled : ℕ
  pub lessons_completed : ℕ
  pub lessons_canceled : ℕ
  pub payments_total : ℕ
  pub payments_pending : ℕ
  pub payments_succeeded : ℕ
  pub payments_failed : ℕ
  pub payments_refunded : ℕ
  pub payments_succeeded_amount : ℕ
  pub payments_refunded_amount : ℕ
  pub packages_total : ℕ
  pub packages_active : ℕ
  pub packages_expired : ℕ
  pub packages_depleted : ℕ
  pub packages_canceled : ℕ

unfoldable pub get_kpi_overview : (String → Bool) → Db → KpiOverview
get_kpi_overview keeps d =
    let users = count_users_by_role keeps d in
    let bookings = count_bookings_by_status keeps d in
    let lessons = count_lessons_by_status keeps d in
    let payments = count_payments_by_status keeps d in
    let packages = count_packages_by_status keeps d in
    record {
      users_total = users 0 + users 1 + users 2;
      users_students = users 0;
      users_teachers = users 1;
      users_admins = users 2;
      bookings_total = bookings 0 + bookings 1 + bookings 2 + bookings 3;
      bookings_hold = bookings 0;
      bookings_confirmed = bookings 1;
      bookings_canceled = bookings 2;
      bookings_expired = bookings 3;
      lessons_total = lessons 0 + (lessons 1 + lessons 3) + lessons 2;
      lessons_scheduled = lessons 0;
      lessons_completed = lessons 1 + lessons 3;
      lessons_canceled = lessons 2;
      payments_total = payments 0 + payments 1 + payments 2 + payments 3;
      payments_pending = payments 0;
      payments_succeeded = payments 1;
      payments_failed = payments 2;
      payments_refunded = payments 3;
      payments_succeeded_amount = sum_amounts keeps d 1 d.payments;
      payments_refunded_amount = sum_amounts keeps d 3 d.payments;
      packages_total = packages 0 + packages 1 + packages 2 + packages 3;
      packages_active = packages 0;
      packages_expired = packages 1;
      packages_depleted = packages 2;
      packages_canceled = packages 3;
    }

abbrev pub code_of_outbox : OutboxStatusEnum → ℕ
code_of_outbox OutboxStatusEnum.pending = 0
code_of_outbox OutboxStatusEnum.processed = 1
code_of_outbox OutboxStatusEnum.failed = 2

abbrev pub is_failed_event : OutboxEvent → Bool
is_failed_event e = code_of_outbox e.status == 2

-- The notifications are not in `Db`, so their count is left out.
pub record OperationsOverview : Type 0 where
  pub outbox_pending : ℕ
  pub outbox_failed_retryable : ℕ
  pub outbox_failed_dead_letter : ℕ
  pub stale_booking_holds : ℕ
  pub overdue_active_packages : ℕ

unfoldable pub get_operations_overview : ℕ → ℕ → Db → OperationsOverview
get_operations_overview max_retries now d = record {
  outbox_pending = tally (λ e. code_of_outbox e.status == 0) d.outbox;
  outbox_failed_retryable = tally (λ e. is_failed_event e && ltb e.retries max_retries) d.outbox;
  outbox_failed_dead_letter = tally (λ e. is_failed_event e && leb max_retries e.retries) d.outbox;
  stale_booking_holds = tally (hold_is_stale now) d.bookings;
  overdue_active_packages = tally (is_due now) d.packages;
}
