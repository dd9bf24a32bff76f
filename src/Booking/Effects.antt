-- ===== src/Booking/Effects.antt =====
-- What `confirm_booking` and `cancel_booking` do to a booking that meets their conditions.
use guitar_online.Base.{ℕ, ◌+◌, ◌<◌, ◌≡◌, refl, true, false, none, some, arith}
use guitar_online.Base.Table.{find, save, find-save-some}
use guitar_online.Store.Enums.{SlotStatusEnum, BookingStatusEnum, PackageStatusEnum}
use guitar_online.Store.BookingStatus.{is_confirmed}
use guitar_online.Store.Rows.{
  User, AvailabilitySlot, Booking, LessonPackage, slot_key, booking_key, package_key,
}
use guitar_online.Store.Session.{Db, Env, Result, ok}
use guitar_online.Store.Ends.{
  Ends, Ends-pure, Ends-found, Ends-given, Ends-pass, Ends-else, Ends-modify, Ends-bind, Ends-assoc,
}
use guitar_online.Scheduling.Writes.{Ends-set_slot_status}
use guitar_online.Billing.Repository.{meets_constraints, reserve_package_lesson}
use guitar_online.Billing.Writes.{Ends-save_valid}
use guitar_online.Booking.Frame.{HasLesson, ensure_lesson_runs}
use guitar_online.Booking.Service.Common.{may_manage}
use guitar_online.Booking.Service.Confirm.{
  hold_has_expired, reservable_package, place_confirmation, confirm_hold, confirm_booking,
}

-- What the booking `b` of a key, its slot `s` and its package `p` have to be for a confirmation.
pub record Confirmable (now id : ℕ) (actor : User) (d : Db) (b : Booking) (s : AvailabilitySlot)
    (p : LessonPackage) : Type 0 where
  pub may : may_manage b actor ≡ true
  pub found : find booking_key id d.bookings ≡ some b
  pub on_hold : b.status ≡ BookingStatusEnum.hold
  pub held : (deadline : ℕ) × (b.hold_expires_at ≡ some deadline) × (now < deadline)
  pub slot_found : find slot_key b.slot_id d.slots ≡ some s
  pub ahead : now < s.start_at
  pub own : b.package_id ≡ some p.id
  pub package_found : find package_key p.id d.packages ≡ some p
  pub active : p.status ≡ PackageStatusEnum.active
  pub current : now < p.expires_at
  pub room : p.lessons_reserved < p.lessons_left
  pub valid : meets_constraints p ≡ true

-- A slot that is given a status other than BLOCKED.
abbrev pub unblocked : SlotStatusEnum → AvailabilitySlot → AvailabilitySlot
unblocked status s = record s {
  status = status;
  block_reason = none;
  blocked_at = none;
  blocked_by_admin_id = none;
}

-- The booking is confirmed, its slot BOOKED, one more lesson of its package reserved, and it has a
-- row among the lessons.
abbrev pub Confirmed :
    ℕ → Booking → AvailabilitySlot → LessonPackage → Db → Result Booking → Db → Type 0
Confirmed now b s p d r d' =
    let confirmed = record b {
      status = BookingStatusEnum.confirmed;
      confirmed_at = some now;
      hold_expires_at = none;
    } in
    (r ≡ ok confirmed)
    × (d'.bookings ≡ save booking_key confirmed d.bookings)
    × (d'.slots ≡ save slot_key (unblocked SlotStatusEnum.booked s) d.slots)
    × (d'.packages
        ≡ save package_key (record p { lessons_reserved = p.lessons_reserved + 1 }) d.packages)
    × HasLesson b.id d'

module _ (env : Env) (id : ℕ) (actor : User) (b : Booking) (s : AvailabilitySlot)
    (p : LessonPackage) (d : Db) (can : Confirmable (env.clock 0) id actor d b s p) where
  reservable_package_runs :
      Ends (λ r d'. (r ≡ ok p) × (d' ≡ d)) (reservable_package (env.clock 0) b) d
  unfolding reservable_package
  reservable_package_runs = Ends-given _ _ _ p.id can.own (
      Ends-found _ _ _ p can.package_found (
        Ends-pass _ _ _ (ground (arith, can.active, can.current))
          (Ends-pass _ _ _ (ground (arith, can.room)) (Ends-pure _ (refl, refl)))))

  place_confirmation-Confirmed :
      Ends (Confirmed (env.clock 0) b s p d) (place_confirmation env b s p) d
  unfolding place_confirmation reserve_package_lesson
  place_confirmation-Confirmed = Ends-save_valid _ _ (ground (arith, can.room, can.valid)) (
      Ends-set_slot_status _ _ _ (
        Ends-modify _ _ (
          Ends-modify _ _ (
            Ends-bind _ _ _
              (ensure_lesson_runs env _ _
                (find-save-some slot_key b.slot_id _ s d.slots can.slot_found).0
                (find-save-some slot_key b.slot_id _ s d.slots can.slot_found).1)
              (λ e d' q. absurd (ground (arith, q)))
              (λ _ d' q. Ends-pure _ (refl, q.1.bookings, q.1.slots, q.1.packages, q.2))))))

  in_time : hold_has_expired (env.clock 0) b ≡ false
  in_time = ground (arith, can.held.1, can.held.2)

  confirm_hold-Confirmed : Ends (Confirmed (env.clock 0) b s p d) (confirm_hold env b) d
  unfolding confirm_hold
  confirm_hold-Confirmed = Ends-assoc _ _ _ _ (
      Ends-found _ _ _ s can.slot_found (
        Ends-else _ _ _ in_time (
          Ends-pass _ _ _ (ground (arith, can.ahead)) (
            Ends-bind _ _ _ reservable_package_runs (λ e d' q. absurd (ground (arith, q)))
              (λ a d' q. rw (q.1, a≡p a q.0) place_confirmation-Confirmed)))))
    where
      a≡p : (a : LessonPackage) → ok a ≡ ok p → a ≡ p
      a≡p a e = cc

  -- A booking that can be confirmed is confirmed.
  pub confirm_booking-Confirmed :
      Ends (Confirmed (env.clock 0) b s p d) (confirm_booking env id actor) d
  unfolding confirm_booking
  confirm_booking-Confirmed = Ends-found _ _ _ b can.found (
      Ends-pass _ _ _ (ground (arith, can.may)) (
        Ends-else (is_confirmed b.status) _ _ (ground (arith, can.on_hold))
          (Ends-pass _ _ _ (ground (arith, can.on_hold)) confirm_hold-Confirmed)))
