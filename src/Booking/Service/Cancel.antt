-- ===== src/Booking/Service/Cancel.antt =====
-- `cancel_booking`
use guitar_online.Base.{Bool, true, false, Option, some, ℕ, String, ltb, if◌then◌else◌}
use guitar_online.Store.Enums.{SlotStatusEnum, BookingStatusEnum, is_admin}
use guitar_online.Store.BookingStatus.{is_canceled, is_confirmed, is_expired}
use guitar_online.Store.Rows.{User, AvailabilitySlot, Booking}
use guitar_online.Store.Events.{booking_canceled, admin_booking_cancel}
use guitar_online.Store.Settings.{Settings}
use guitar_online.Store.Session.{
  Env, Exec, not_found, conflict, pure, or_raise, raise_if, if_found, create_outbox_event,
  create_audit_log, ◌>>=◌, ◌>>◌,
}
use guitar_online.Scheduling.Repository.{set_slot_status}
use guitar_online.Billing.Repository.{
  get_package_by_id_for_update, release_package_reservation, consume_reserved_package_lesson,
}
use guitar_online.Booking.Policy.{can_refund_by_policy}
use guitar_online.Booking.Repository.{get_booking_by_id_for_update, save_booking}
use guitar_online.Booking.Service.Common.{
  validate_actor_access, slot_of, cancel_lesson_for_booking, booking_event_id,
}

-- Settle the package of a confirmed booking; the result is `refund_returned`.
unfoldable pub settle_package : Settings → ℕ → Booking → AvailabilitySlot → Exec Bool
settle_package cfg now booking slot =
    if is_confirmed booking.status
    then if_found booking.package_id (pure false) (λ package_id. do
      pkg ← or_raise (← get_package_by_id_for_update package_id) (not_found "Package not found")
      if can_refund_by_policy now slot.start_at cfg.booking_refund_window_hours
          then (do release_package_reservation pkg; pure true)
          else do consume_reserved_package_lesson pkg; pure false)
    else pure false

-- A booking as it is canceled.
abbrev pub canceled_at_now : ℕ → Option String → Bool → Booking → Booking
canceled_at_now now reason refund_returned booking = record booking {
  status = BookingStatusEnum.canceled;
  canceled_at = some now;
  cancellation_reason = reason;
  refund_returned = refund_returned;
}

-- The writes to the booking, the outbox, the log and the lesson.
unfoldable pub record_cancellation : Env → Booking → Option String → Bool → User → Exec Booking
record_cancellation env booking reason refund_returned actor = do
  let canceled = canceled_at_now (env.clock 0) reason refund_returned booking
  save_booking canceled
  create_outbox_event (booking_event_id env) (env.clock 1)
      (booking_canceled canceled.id canceled.student_id canceled.slot_id refund_returned)
  if is_admin actor.role
      then create_audit_log (some actor.id)
          (admin_booking_cancel canceled.id canceled.slot_id reason refund_returned)
      else pure tt
  cancel_lesson_for_booking env canceled reason
  pure canceled

-- The writes after the package is settled; the slot is freed if it has not begun.
unfoldable pub place_cancellation :
    Env → Booking → AvailabilitySlot → Option String → Bool → User → Exec Booking
place_cancellation env booking slot reason refund_returned actor = do
  if ltb (env.clock 0) slot.start_at
      then (do set_slot_status slot SlotStatusEnum.open_slot; pure tt)
      else pure tt
  record_cancellation env booking reason refund_returned actor

unfoldable pub cancel_booking : Settings → Env → ℕ → Option String → User → Exec Booking
cancel_booking cfg env booking_id reason actor = do
  booking ← or_raise (← get_booking_by_id_for_update booking_id) (not_found "Booking not found")
  validate_actor_access booking actor
  if is_canceled booking.status then pure booking else do
    raise_if (is_expired booking.status) (conflict "Booking already expired")
    slot ← slot_of booking
    refund_returned ← settle_package cfg (env.clock 0) booking slot
    place_cancellation env booking slot reason refund_returned actor
