-- ===== src/Booking/Service/Common.antt =====
-- The helpers of `BookingService`, and the places at which a method reads the clock or draws a key.
use guitar_online.Base.{ℕ, Bool, not, ◌&&◌, ◌||◌, Option, none, String, leb, ◌==◌, if◌then◌else◌}
use guitar_online.Base.Table.{find}
use guitar_online.Store.Enums.{LessonStatusEnum, is_admin, is_student, is_teacher}
use guitar_online.Store.LessonStatus.{is_canceled}
use guitar_online.Store.Rows.{User, AvailabilitySlot, Booking, LessonPackage, slot_key}
use guitar_online.Store.Events.{lesson_created, lesson_canceled}
use guitar_online.Store.Session.{
  Env, Exec, unauthorized, integrity, pure, gets, or_raise, if_found, raise_if, create_outbox_event,
  ◌>>=◌, ◌>>◌,
}
use guitar_online.Lessons.Repository.{get_lesson_by_booking_id, create_lesson, update_lesson}

-- The places that draw a key in one call of a method.
module _ (env : Env) where
  abbrev pub left_piece_id : ℕ
  left_piece_id = env.uuid4 0

  abbrev pub right_piece_id : ℕ
  right_piece_id = env.uuid4 1

  abbrev pub new_booking_id : ℕ
  new_booking_id = env.uuid4 2

  abbrev pub booking_event_id : ℕ
  booking_event_id = env.uuid4 3

  abbrev pub new_lesson_id : ℕ
  new_lesson_id = env.uuid4 4

  abbrev pub lesson_event_id : ℕ
  lesson_event_id = env.uuid4 5

-- `_available_lessons(package) <= 0`
abbrev pub none_available : LessonPackage → Bool
none_available p = leb p.lessons_left p.lessons_reserved

unfoldable pub may_manage : Booking → User → Bool
may_manage booking actor =
    is_admin actor.role
    || (is_student actor.role && booking.student_id == actor.id)
    || (is_teacher actor.role && booking.teacher_id == actor.id)

-- `_validate_actor_access`
abbrev pub validate_actor_access : Booking → User → Exec (Unit {0})
validate_actor_access booking actor =
    raise_if (not (may_manage booking actor)) (unauthorized "You cannot manage this booking")

-- `booking.slot`: the foreign key is not null, so a missing row is the database's error.
abbrev pub slot_of : Booking → Exec AvailabilitySlot
slot_of booking = do or_raise (← gets (λ d. find slot_key booking.slot_id d.slots)) integrity

-- `_ensure_lesson_for_confirmed_booking`, its creation when there is no lesson
create_lesson_of : Env → Booking → Exec (Unit {0})
create_lesson_of env booking = do
  slot ← slot_of booking
  lesson ←
      create_lesson (new_lesson_id env) booking.id booking.student_id booking.teacher_id
        slot.start_at slot.end_at none none
  create_outbox_event (lesson_event_id env) (env.clock 2)
      (lesson_created lesson.id booking.id booking.student_id booking.teacher_id)

unfoldable pub ensure_lesson_for_confirmed_booking : Env → Booking → Exec (Unit {0})
unfolding create_lesson_of
ensure_lesson_for_confirmed_booking env booking = do
  lesson ← get_lesson_by_booking_id booking.id
  if_found lesson (create_lesson_of env booking) (λ _. pure tt)

-- `_cancel_lesson_for_booking`
unfoldable pub cancel_lesson_for_booking : Env → Booking → Option String → Exec (Unit {0})
cancel_lesson_for_booking env booking reason = do
  found ← get_lesson_by_booking_id booking.id
  if_found found (pure tt) λ lesson. if is_canceled lesson.status then pure tt else do
    update_lesson (record lesson { status = LessonStatusEnum.canceled })
    create_outbox_event (lesson_event_id env) (env.clock 2)
        (lesson_canceled lesson.id booking.id booking.student_id booking.teacher_id reason)
