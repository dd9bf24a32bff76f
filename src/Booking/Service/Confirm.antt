-- ===== src/Booking/Service/Confirm.antt =====
-- `confirm_booking`
use guitar_online.Base.{Bool, true, not, ◌||◌, none, some, ℕ, leb, if◌then◌else◌}
use guitar_online.Store.Enums.{SlotStatusEnum, BookingStatusEnum}
use guitar_online.Store.BookingStatus.{is_hold, is_confirmed}
use guitar_online.Store.PackageStatus.{is_active}
use guitar_online.Store.Rows.{User, AvailabilitySlot, Booking, LessonPackage}
use guitar_online.Store.Events.{booking_confirmed}
use guitar_online.Store.Session.{
  Env, Exec, business, not_found, conflict, pure, raise, or_raise, raise_if, create_outbox_event,
  ◌>>=◌, ◌>>◌,
}
use guitar_online.Scheduling.Repository.{set_slot_status}
use guitar_online.Billing.Repository.{get_package_by_id_for_update, reserve_package_lesson}
use guitar_online.Booking.Repository.{get_booking_by_id_for_update, save_booking}
use guitar_online.Booking.Service.Common.{
  none_available, validate_actor_access, slot_of, ensure_lesson_for_confirmed_booking,
  booking_event_id,
}

-- `hold_expires_at is None or hold_expires_at <= now`
abbrev pub hold_has_expired : ℕ → Booking → Bool
hold_has_expired now booking = elim booking.hold_expires_at [ none ↦ true | some t ↦ leb t now ]

-- The branch of a hold that has run out: the booking and its slot are written, then it raises.
unfoldable pub expire_and_raise : Booking → AvailabilitySlot → Exec Booking
expire_and_raise booking slot = do
  set_slot_status slot SlotStatusEnum.open_slot
  save_booking (record booking { status = BookingStatusEnum.expired })
  raise (business "Booking hold has expired")

-- The package of a booking, fit for one more reservation.
unfoldable pub reservable_package : ℕ → Booking → Exec LessonPackage
reservable_package now booking = do
  package_id ← or_raise booking.package_id (business "Booking package is required")
  pkg ← or_raise (← get_package_by_id_for_update package_id) (not_found "Package not found")
  raise_if (not (is_active pkg.status) || leb pkg.expires_at now)
      (business "Package is inactive or expired")
  raise_if (none_available pkg) (business "No lessons left")
  pure pkg

-- A booking as it is confirmed.
abbrev pub confirmed_at_now : ℕ → Booking → Booking
confirmed_at_now now booking = record booking {
  status = BookingStatusEnum.confirmed;
  confirmed_at = some now;
  hold_expires_at = none;
}

-- The writes: reserve a lesson, confirm the booking, mark its slot BOOKED, ensure its lesson.
unfoldable pub place_confirmation : Env → Booking → AvailabilitySlot → LessonPackage → Exec Booking
place_confirmation env booking slot pkg = do
  let confirmed = confirmed_at_now (env.clock 0) booking
  reserve_package_lesson pkg
  set_slot_status slot SlotStatusEnum.booked
  save_booking confirmed
  create_outbox_event (booking_event_id env) (env.clock 1)
      (booking_confirmed confirmed.id confirmed.student_id confirmed.slot_id)
  ensure_lesson_for_confirmed_booking env confirmed
  pure confirmed

-- What is left for a booking on HOLD.
unfoldable pub confirm_hold : Env → Booking → Exec Booking
confirm_hold env booking = do
  slot ← slot_of booking
  if hold_has_expired (env.clock 0) booking then expire_and_raise booking slot else do
    raise_if (leb slot.start_at (env.clock 0))
        (business "Cannot confirm booking for slot in the past")
    pkg ← reservable_package (env.clock 0) booking
    place_confirmation env booking slot pkg

unfoldable pub confirm_booking : Env → ℕ → User → Exec Booking
confirm_booking env booking_id actor = do
  booking ← or_raise (← get_booking_by_id_for_update booking_id) (not_found "Booking not found")
  validate_actor_access booking actor
  if is_confirmed booking.status
      then (do ensure_lesson_for_confirmed_booking env booking; pure booking)
      else do
        raise_if (not (is_hold booking.status)) (conflict "Only HOLD booking can be confirmed")
        confirm_hold env booking
