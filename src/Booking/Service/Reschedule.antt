-- ===== src/Booking/Service/Reschedule.antt =====
-- `reschedule_booking`: a cancellation, a hold on the new slot, and its confirmation.
use guitar_online.Base.{◌||◌, Option, none, some, ℕ, String, leb, if◌then◌else◌}
use guitar_online.Store.Enums.{is_admin}
use guitar_online.Store.BookingStatus.{is_canceled, is_expired}
use guitar_online.Store.Rows.{User, Booking}
use guitar_online.Store.Events.{booking_rescheduled, admin_booking_reschedule}
use guitar_online.Store.Settings.{Settings}
use guitar_online.Store.Session.{
  Env, Exec, after, business, not_found, conflict, pure, or_raise, raise_if, if_found,
  create_outbox_event, create_audit_log, ◌>>=◌, ◌>>◌,
}
use guitar_online.Scheduling.Repository.{get_slot_by_id}
use guitar_online.Booking.Repository.{
  get_booking_by_id_for_update, get_reschedule_successor, save_booking,
}
use guitar_online.Booking.Service.Common.{validate_actor_access}
use guitar_online.Booking.Service.Hold.{hold_booking_for_student, hold_booking}
use guitar_online.Booking.Service.Confirm.{confirm_booking}
use guitar_online.Booking.Service.Cancel.{cancel_booking}

-- `reason or default`: an empty text is false.
abbrev pub reason_or : Option String → String → String
reason_or none default_reason = default_reason
reason_or (some String.[]) default_reason = default_reason
reason_or (some (String.◌∷◌ c s)) default_reason = String.◌∷◌ c s

abbrev pub cancel_reason_of : User → Option String → String
cancel_reason_of actor reason =
    if is_admin actor.role
    then reason_or reason "Rescheduled by admin"
    else reason_or reason "Rescheduled by user"

-- The hold on the new slot, for the booking's student.
unfoldable pub hold_new_slot : Settings → Env → Booking → ℕ → ℕ → User → Exec Booking
hold_new_slot cfg env old_booking new_slot_id package_id actor =
    if is_admin actor.role
    then hold_booking_for_student cfg env new_slot_id package_id old_booking.student_id none none
    else hold_booking cfg env
        (record { slot_id = new_slot_id; package_id = package_id; start_at = none; end_at = none })
        actor

-- The last writes: the link to the old booking, the event and the administrator's log.
unfoldable pub link_successor : Env → Booking → Booking → String → User → Exec Booking
link_successor env old_booking confirmed reason actor = do
  let linked = record confirmed { rescheduled_from_booking_id = some old_booking.id }
  save_booking linked
  create_outbox_event (env.uuid4 0) (env.clock 0)
      (booking_rescheduled linked.id old_booking.id linked.student_id reason)
  if is_admin actor.role
      then create_audit_log (some actor.id) (
          admin_booking_reschedule old_booking.id linked.id old_booking.slot_id linked.slot_id
            reason)
      else pure tt
  pure linked

-- Cancel, hold, confirm and link; each step reads the clock and draws keys after the one before.
unfoldable pub move_booking : Settings → Env → ℕ → ℕ → String → User → Exec Booking
move_booking cfg env booking_id new_slot_id reason actor = do
  old_booking ← cancel_booking cfg (after 1 0 env) booking_id (some reason) actor
  package_id ← or_raise old_booking.package_id (business "Booking has no package for reschedule")
  new_hold ← hold_new_slot cfg (after 4 6 env) old_booking new_slot_id package_id actor
  confirmed ← confirm_booking (after 7 12 env) new_hold.id actor
  link_successor (after 10 18 env) old_booking confirmed reason actor

unfoldable pub reschedule_booking : Settings → Env → ℕ → ℕ → Option String → User → Exec Booking
reschedule_booking cfg env booking_id new_slot_id reason actor = do
  old_booking ← or_raise (← get_booking_by_id_for_update booking_id) (not_found "Booking not found")
  validate_actor_access old_booking actor
  existing_successor ← get_reschedule_successor booking_id
  if_found existing_successor
      (do
        raise_if (is_canceled old_booking.status || is_expired old_booking.status)
            (conflict "Booking cannot be rescheduled in current status")
        target_slot ← or_raise (← get_slot_by_id new_slot_id) (not_found "Slot not found")
        raise_if (leb target_slot.start_at (env.clock 0))
            (business "Cannot book a slot in the past")
        move_booking cfg env booking_id new_slot_id (cancel_reason_of actor reason) actor)
      (λ successor. pure successor)
