-- ===== src/Booking/Repository.antt =====
-- app/modules/booking/repository.py: the queries and writes over `bookings`.
use guitar_online.Base.{
  ℕ, Bool, false, ◌&&◌, Option, none, some, List, ◌∷◌, leb, ◌==◌, select, first_match,
}
use guitar_online.Base.Table.{find, save}
use guitar_online.Store.Enums.{BookingStatusEnum}
use guitar_online.Store.BookingStatus.{is_hold, is_active}
use guitar_online.Store.Rows.{Booking, booking_key}
use guitar_online.Store.Session.{Exec, pure, gets, modify, ◌>>◌}

-- The row that `create_booking_hold` adds; the key first.
abbrev pub new_hold : ℕ → ℕ → ℕ → ℕ → ℕ → ℕ → Booking
new_hold id slot_id student_id teacher_id package_id hold_expires_at = record {
  id = id;
  slot_id = slot_id;
  student_id = student_id;
  teacher_id = teacher_id;
  package_id = some package_id;
  status = BookingStatusEnum.hold;
  hold_expires_at = some hold_expires_at;
  confirmed_at = none;
  canceled_at = none;
  cancellation_reason = none;
  refund_returned = false;
  rescheduled_from_booking_id = none;
}

abbrev pub create_booking_hold : Booking → Exec Booking
create_booking_hold b = do modify (λ d. record d { bookings = b ∷ d.bookings }); pure b

-- The row lock does not change the data.
abbrev pub get_booking_by_id_for_update : ℕ → Exec (Option Booking)
get_booking_by_id_for_update id = gets λ d. find booking_key id d.bookings

abbrev pub hold_is_stale : ℕ → Booking → Bool
hold_is_stale now b =
    is_hold b.status && elim b.hold_expires_at [ none ↦ false | some t ↦ leb t now ]

abbrev pub find_expired_holds : ℕ → Exec (List Booking)
find_expired_holds now = gets λ d. select (hold_is_stale now) d.bookings

-- The WHERE of `get_active_booking_for_slot`.
abbrev pub is_active_on : ℕ → Booking → Bool
is_active_on slot_id b = b.slot_id == slot_id && is_active b.status

abbrev pub get_active_booking_for_slot : ℕ → Exec (Option Booking)
get_active_booking_for_slot slot_id = gets λ d. first_match (is_active_on slot_id) d.bookings

-- The WHERE of `get_reschedule_successor`.
abbrev pub succeeds : ℕ → Booking → Bool
succeeds booking_id b = elim b.rescheduled_from_booking_id [
  | none ↦ false
  | some old ↦ old == booking_id
]

abbrev pub get_reschedule_successor : ℕ → Exec (Option Booking)
get_reschedule_successor booking_id = gets λ d. first_match (succeeds booking_id) d.bookings

-- The flush of a changed booking.
abbrev pub save_booking : Booking → Exec (Unit {0})
save_booking b = modify λ d. record d { bookings = save booking_key b d.bookings }
