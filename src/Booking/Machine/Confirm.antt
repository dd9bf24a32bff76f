-- ===== src/Booking/Machine/Confirm.antt =====
-- `confirm_booking` takes a step of the machine.
use guitar_online.Base.{ℕ, ◌<◌, ◌≡◌, refl, some, arith}
use guitar_online.Base.Table.{find, find_own, find-save_self, refers}
use guitar_online.Store.Enums.{BookingStatusEnum}
use guitar_online.Store.BookingStatus.{is_confirmed}
use guitar_online.Store.Rows.{
  User, AvailabilitySlot, Booking, LessonPackage, slot_key, booking_key, package_key,
}
use guitar_online.Store.Session.{Db, Env, ◌>>=◌}
use guitar_online.Store.Ends.{
  Ends, Checked, Ends-pure, Ends-if, Ends-gets, Ends-or_raise, Ends-raise_if, Ends-modify,
  Ends-bind, Ends-check, Ends-assoc,
}
use guitar_online.Scheduling.Repository.{set_slot_status}
use guitar_online.Scheduling.Writes.{Ends-set_slot_status}
use guitar_online.Billing.Repository.{reserve_package_lesson}
use guitar_online.Billing.Writes.{Ends-save_package}
use guitar_online.Booking.Frame.{ensure_lesson-SameBookings}
use guitar_online.Booking.Service.Confirm.{
  confirm_booking, confirm_hold, expire_and_raise, reservable_package, place_confirmation,
  hold_has_expired,
}
use guitar_online.Booking.Machine.{Steps, stay, confirm, expire}

-- What `reservable_package` has tested.
pub record IsReservable (b : Booking) (d : Db) (p : LessonPackage) : Type 0 where
  pub found : find package_key p.id d.packages ≡ some p
  pub own : b.package_id ≡ some p.id
  pub room : p.lessons_reserved < p.lessons_left

reservable_package-Checked :
    (now : ℕ) (b : Booking) (d : Db)
    → Ends (Checked d (IsReservable b d)) (reservable_package now b) d
unfolding reservable_package
reservable_package-Checked now b d =
    Ends-or_raise _ _ _ (λ _. refl)
      λ k own. Ends-gets _ _ (
        Ends-or_raise _ _ _ (λ _. refl)
          λ p fp.
            Ends-raise_if _ _ _ (λ _. refl)
              λ usable.
                Ends-raise_if _ _ _ (λ _. refl)
                  λ room. Ends-pure _ (
                    refl,
                    record {
                      found = find_own package_key k p d.packages fp;
                      own = refers package_key b.package_id k p d.packages own fp;
                      room = ground arith;
                    },
                  ))

module _ (env : Env) (b : Booking) (s : AvailabilitySlot) (d : Db)
    (fb : find booking_key b.id d.bookings ≡ some b) (hold : b.status ≡ BookingStatusEnum.hold)
    (fs : find slot_key b.slot_id d.slots ≡ some s) where
  expire_and_raise-Step : Ends (Steps d) (expire_and_raise b s) d
  unfolding expire_and_raise set_slot_status ◌>>=◌
  expire_and_raise-Step = record { at = expire b b.hold_expires_at s fb hold fs refl refl refl }

  place_confirmation-Step :
      (p : LessonPackage) → IsReservable b d p → Ends (Steps d) (place_confirmation env b s p) d
  unfolding place_confirmation reserve_package_lesson
  place_confirmation-Step p q = Ends-save_package _ _ (stay refl refl refl) λ fits.
      Ends-set_slot_status _ _ _ (
        Ends-modify _ _ (
          Ends-modify _ _ (
            Ends-bind _ _ _ (ensure_lesson-SameBookings env _ _)
              (λ _ d' same.
                confirm (env.clock 0) b s p fb hold fs q.own q.found q.room same.slots same.bookings
                  same.packages)
              (λ _ d' same. Ends-pure _ (
                confirm (env.clock 0) b s p fb hold fs q.own q.found q.room same.slots same.bookings
                    same.packages,
                rw same.bookings (find-save_self booking_key _ b d.bookings fb),
              )))))

confirm_hold-Step :
    (env : Env) (b : Booking) (d : Db)
    → find booking_key b.id d.bookings ≡ some b
    → b.status ≡ BookingStatusEnum.hold
    → Ends (Steps d) (confirm_hold env b) d
unfolding confirm_hold
confirm_hold-Step env b d fb h = Ends-assoc _ _ _ _ (
    Ends-gets _ _ (
      Ends-or_raise _ _ _ (λ _. stay refl refl refl)
        λ s fs.
          Ends-if (hold_has_expired (env.clock 0) b) _ _
            (λ _. expire_and_raise-Step env b s d fb h fs)
            λ _.
              Ends-raise_if _ _ _ (λ _. stay refl refl refl)
                λ _.
                  Ends-check _ _ _ (reservable_package-Checked _ b d) (λ _. stay refl refl refl)
                    (place_confirmation-Step env b s d fb h fs)))

pub confirm_booking-Step :
    (env : Env) (id : ℕ) (actor : User) (d : Db) → Ends (Steps d) (confirm_booking env id actor) d
unfolding confirm_booking
confirm_booking-Step env id actor d = Ends-gets _ _ (
    Ends-or_raise _ _ _ (λ _. stay refl refl refl)
      λ b fb.
        Ends-raise_if _ _ _ (λ _. stay refl refl refl)
          λ _.
            Ends-if (is_confirmed b.status) _ _
              (λ _.
                Ends-bind _ _ _ (ensure_lesson-SameBookings env b d)
                  (λ e d' same. stay same.slots same.bookings same.packages)
                  (λ a d' same. Ends-pure _ (
                    stay same.slots same.bookings same.packages,
                    rw same.bookings (find_own booking_key id b d.bookings fb),
                  )))
              λ _.
                Ends-raise_if _ _ _ (λ _. stay refl refl refl)
                  λ on_hold.
                    confirm_hold-Step env b d (find_own booking_key id b d.bookings fb)
                      (ground arith))
