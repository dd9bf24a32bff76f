-- ===== src/Lessons/Service.antt =====
-- The lessons (app/modules/lessons/service.py): `create_lesson`, `mark_no_show`, `complete_lesson`.
use guitar_online.Base.{
  ℕ, Bool, true, false, not, ◌&&◌, ◌||◌, Option, none, some, String, leb, ◌==◌, if◌then◌else◌,
}
use guitar_online.Base.Table.{find}
use guitar_online.Store.Enums.{LessonStatusEnum, is_admin, is_teacher}
use guitar_online.Store.LessonStatus.{is_completed, is_scheduled, is_no_show}
use guitar_online.Store.Rows.{User, LessonPackage, Lesson, booking_key}
use guitar_online.Store.Session.{
  Env, Exec, business, not_found, unauthorized, conflict, pure, gets, or_raise, raise_if, if_found,
  ◌>>=◌, ◌>>◌,
}
use guitar_online.Billing.Repository.{get_package_by_id_for_update, consume_reserved_package_lesson}
use guitar_online.Lessons.Repository.{get_lesson_by_id, get_lesson_by_booking_id, update_lesson}
use guitar_online.Lessons.Repository

-- LessonCreate
pub record LessonCreate : Type 0 where
  pub booking_id : ℕ
  pub student_id : ℕ
  pub teacher_id : ℕ
  pub scheduled_start_at : ℕ
  pub scheduled_end_at : ℕ
  pub topic : Option String
  pub notes : Option String

abbrev pub is_some : {A : Type 0} → Option A → Bool
is_some none = false
is_some (some a) = true

unfoldable pub create_lesson : Env → LessonCreate → User → Exec Lesson
create_lesson env payload actor = do
  raise_if (not (is_admin actor.role || is_teacher actor.role))
      (unauthorized "Only admin or teacher can create lessons")
  existing ← get_lesson_by_booking_id payload.booking_id
  raise_if (is_some existing) (conflict "Lesson already exists for booking")
  raise_if (leb payload.scheduled_end_at payload.scheduled_start_at)
      (business "Lesson end must be greater than start")
  Repository.create_lesson (env.uuid4 0) payload.booking_id payload.student_id payload.teacher_id
      payload.scheduled_start_at payload.scheduled_end_at payload.topic payload.notes

unfoldable pub mark_no_show : ℕ → User → Exec Lesson
mark_no_show lesson_id actor = do
  raise_if (not (is_admin actor.role)) (unauthorized "Only admin can mark lesson as no-show")
  lesson ← or_raise (← get_lesson_by_id lesson_id) (not_found "Lesson not found")
  if is_no_show lesson.status then pure lesson else do
    raise_if (not (is_scheduled lesson.status))
        (conflict "Only scheduled lesson can be marked as no-show")
    update_lesson (record lesson { status = LessonStatusEnum.no_show })

-- The package that a lesson's booking is charged to, with a lesson to consume.
unfoldable pub charged_package : ℕ → Exec LessonPackage
charged_package booking_id = do
  booking ←
      or_raise (← gets (λ d. find booking_key booking_id d.bookings))
        (not_found "Booking not found")
  package_id ← or_raise booking.package_id (conflict "Lesson booking has no package")
  pkg ← or_raise (← get_package_by_id_for_update package_id) (not_found "Package not found")
  raise_if (leb pkg.lessons_reserved 0) (conflict "No reserved lessons to consume")
  raise_if (leb pkg.lessons_left 0) (conflict "No lessons left")
  pure pkg

-- A lesson as it is completed.
abbrev pub completed_at : ℕ → Lesson → Lesson
completed_at now lesson = record lesson {
  status = LessonStatusEnum.completed;
  consumed_at = some now;
}

unfoldable pub complete_lesson : Env → ℕ → User → Exec Lesson
complete_lesson env lesson_id actor = do
  lesson ← or_raise (← get_lesson_by_id lesson_id) (not_found "Lesson not found")
  raise_if (not (is_admin actor.role || is_teacher actor.role))
      (unauthorized "Only admin or teacher can complete lessons")
  raise_if (is_teacher actor.role && not (lesson.teacher_id == actor.id))
      (unauthorized "Teacher can complete only own lessons")
  if is_completed lesson.status
      then if_found lesson.consumed_at
          (update_lesson (record lesson { consumed_at = some (env.clock 0) })) (λ _. pure lesson)
      else do
        raise_if (not (is_scheduled lesson.status))
            (conflict "Only scheduled lesson can be completed")
        pkg ← charged_package lesson.booking_id
        consume_reserved_package_lesson pkg
        update_lesson (completed_at (env.clock 0) lesson)
