-- ===== src/Booking/Service/Hold.antt =====
-- `_hold_booking_for_student` and `hold_booking`
use guitar_online.Base.{
  ℕ, ◌+◌, ◌-◌, ◌*◌, ◌/◌, Bool, not, ◌||◌, Option, none, some, ltb, leb, ◌==◌, if◌then◌else◌,
}
use guitar_online.Store.Enums.{SlotStatusEnum, is_open, is_student}
use guitar_online.Store.PackageStatus.{is_active}
use guitar_online.Store.Rows.{User, AvailabilitySlot, Booking, LessonPackage, minute}
use guitar_online.Store.Events.{booking_hold_created}
use guitar_online.Store.Settings.{Settings}
use guitar_online.Store.Session.{
  Env, Exec, business, not_found, unauthorized, pure, raise, or_raise, raise_if,
  create_outbox_event, ◌>>=◌, ◌>>◌,
}
use guitar_online.Scheduling.Repository.{
  get_slot_by_id_for_update, split_open_slot_for_booking, set_slot_status,
}
use guitar_online.Billing.Repository.{get_package_by_id}
use guitar_online.Booking.Repository.{get_active_booking_for_slot, new_hold, create_booking_hold}
use guitar_online.Booking.Service.Common.{
  none_available, left_piece_id, right_piece_id, new_booking_id, booking_event_id,
}

-- BookingHoldRequest
pub record HoldRequest : Type 0 where
  pub slot_id : ℕ
  pub package_id : ℕ
  pub start_at : Option ℕ
  pub end_at : Option ℕ

-- The interval to book: the whole slot, unless both ends are given.
abbrev pub booking_interval : AvailabilitySlot → Option ℕ → Option ℕ → Exec (ℕ × ℕ)
booking_interval slot none none = pure (slot.start_at, slot.end_at)
booking_interval slot (some s) (some e) = pure (s, e)
booking_interval slot (some s) none =
    raise (business "Both start_at and end_at are required for custom booking")
booking_interval slot none (some e) =
    raise (business "Both start_at and end_at are required for custom booking")

-- The tests on the slot and on the interval.
unfoldable pub checked_interval :
    Settings → ℕ → AvailabilitySlot → Option ℕ → Option ℕ → Exec (ℕ × ℕ)
checked_interval cfg now slot requested_start_at requested_end_at = do
  raise_if (not (is_open slot.status)) (business "Slot is not available")
  raise_if (leb slot.start_at now) (business "Cannot book a slot in the past")
  interval ← booking_interval slot requested_start_at requested_end_at
  let start = interval.0
  let end = interval.1
  raise_if (leb end start) (business "Booking end_at must be after start_at")
  raise_if (ltb start slot.start_at || ltb slot.end_at end)
      (business "Requested booking interval must be inside selected slot")
  raise_if (leb start now) (business "Cannot book a slot in the past")
  raise_if (ltb ((end - start) / minute) cfg.slot_min_duration_minutes)
      (business "Booking duration must be at least {settings.slot_min_duration_minutes} minutes")
  pure interval

-- The tests on the package; `now` is the second reading of the clock.
unfoldable pub checked_package : ℕ → ℕ → ℕ → Exec LessonPackage
checked_package now package_id student_id = do
  pkg ← or_raise (← get_package_by_id package_id) (not_found "Package not found")
  raise_if (not (pkg.student_id == student_id))
      (business "Booking package does not belong to booking student")
  raise_if (not (is_active pkg.status)) (business "Package is not active")
  raise_if (leb pkg.expires_at now) (business "Package is expired")
  raise_if (none_available pkg) (business "No lessons left in package")
  pure pkg

-- The writes to the slot that is taken: put it on HOLD, add the booking and its event.
unfoldable pub occupy_slot : Settings → Env → AvailabilitySlot → LessonPackage → ℕ → Exec Booking
occupy_slot cfg env slot pkg student_id = do
  set_slot_status slot SlotStatusEnum.hold
  booking ← create_booking_hold (
      new_hold (new_booking_id env) slot.id student_id slot.teacher_id pkg.id
        (env.clock 0 + cfg.booking_hold_minutes * minute))
  create_outbox_event (booking_event_id env) (env.clock 2)
      (booking_hold_created booking.id slot.id student_id slot.start_at slot.end_at)
  pure booking

-- All writes: split the slot first if the interval is a part of it.
unfoldable pub place_hold :
    Settings → Env → AvailabilitySlot → LessonPackage → ℕ → ℕ → ℕ → Exec Booking
place_hold cfg env whole pkg student_id start end = do
  slot ←
      if not (start == whole.start_at) || not (end == whole.end_at)
      then split_open_slot_for_booking (left_piece_id env) (right_piece_id env) whole start end
      else pure whole
  occupy_slot cfg env slot pkg student_id

unfoldable pub hold_booking_for_student :
    Settings → Env → ℕ → ℕ → ℕ → Option ℕ → Option ℕ → Exec Booking
hold_booking_for_student cfg env slot_id package_id student_id requested_start_at requested_end_at =
    do
      slot ← or_raise (← get_slot_by_id_for_update slot_id) (not_found "Slot not found")
      interval ← checked_interval cfg (env.clock 0) slot requested_start_at requested_end_at
      active_booking ← get_active_booking_for_slot slot.id
      raise_if (elim active_booking [ none ↦ Bool.false | some _ ↦ Bool.true ])
          (business "Slot is not available")
      pkg ← checked_package (env.clock 1) package_id student_id
      place_hold cfg env slot pkg student_id interval.0 interval.1

unfoldable pub hold_booking : Settings → Env → HoldRequest → User → Exec Booking
hold_booking cfg env payload actor = do
  raise_if (not (is_student actor.role)) (unauthorized "Only students can hold bookings")
  hold_booking_for_student cfg env payload.slot_id payload.package_id actor.id payload.start_at
      payload.end_at
