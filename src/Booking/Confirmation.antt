-- ===== src/Booking/Confirmation.antt =====
-- The outcomes of `confirm_booking`.
use guitar_online.Base.{
  ℕ, ◌≡◌, ◌<◌, ◌⊎◌, refl, inl, inr, true, false, some, arith, Option-cases, leb→gt,
}
use guitar_online.Base.Table.{find, save, find_own, refers, find-save-some}
use guitar_online.Store.Enums.{SlotStatusEnum, BookingStatusEnum, PackageStatusEnum}
use guitar_online.Store.BookingStatus.{is_confirmed}
use guitar_online.Store.Rows.{
  User, AvailabilitySlot, Booking, LessonPackage, slot_key, booking_key, package_key,
}
use guitar_online.Store.Session.{Db, Env, Result, ok, err, ◌>>=◌}
use guitar_online.Store.Ends.{
  Ends, Checked, Ends-pure, Ends-if, Ends-gets, Ends-or_raise, Ends-raise_if, Ends-modify,
  Ends-bind, Ends-check, Ends-assoc,
}
use guitar_online.Scheduling.Repository.{set_slot_status}
use guitar_online.Scheduling.Writes.{Ends-set_slot_status}
use guitar_online.Billing.Repository.{reserve_package_lesson}
use guitar_online.Billing.Writes.{Ends-save_package}
use guitar_online.Booking.Frame.{
  SameBookings, HasLesson, ensure_lesson-HasLesson, ensure_lesson_runs,
}
use guitar_online.Booking.Service.Common.{may_manage}
use guitar_online.Booking.Service.Confirm.{
  confirm_booking, confirm_hold, expire_and_raise, reservable_package, place_confirmation,
  hold_has_expired,
}
use guitar_online.Booking.Effects.{Confirmable, Confirmed, unblocked, confirm_booking-Confirmed}

-- The booking of a key, by one who may manage it, in a status.
abbrev pub IsOwn : ℕ → User → BookingStatusEnum → Db → Booking → Type 0
IsOwn id actor status d b =
    (find booking_key id d.bookings ≡ some b) × (may_manage b actor ≡ true) × (b.status ≡ status)

-- The session has the booking EXPIRED and its slot OPEN.
abbrev pub IsExpiry : ℕ → Booking → AvailabilitySlot → Db → Db → Type 0
IsExpiry now b s d d' =
    (hold_has_expired now b ≡ true)
    × (find slot_key b.slot_id d.slots ≡ some s)
    × (d'.bookings ≡ save booking_key (record b { status = BookingStatusEnum.expired }) d.bookings)
    × (d'.slots ≡ save slot_key (unblocked SlotStatusEnum.open_slot s) d.slots)
    × (d'.packages ≡ d.packages)

abbrev pub CanConfirm : ℕ → ℕ → User → Db → Type 0
CanConfirm now id actor d =
    (b : Booking) × (s : AvailabilitySlot) × (p : LessonPackage) × Confirmable now id actor d b s p

-- What a call has written when it ends.
abbrev Wrote : ℕ → ℕ → User → Db → Result Booking → Db → Type 0
Wrote now id actor d (ok r) d' =
    (IsOwn id actor BookingStatusEnum.confirmed d r × SameBookings d d' × HasLesson r.id d')
    ⊎ ((b : Booking) × (s : AvailabilitySlot) × (p : LessonPackage) × Confirmable now id actor d b s
          p
        × Confirmed now b s p d (ok r) d')
Wrote now id actor d (err e) d' =
    SameBookings d d'
    ⊎ ((b : Booking) × (s : AvailabilitySlot) × IsOwn id actor BookingStatusEnum.hold d b
        × IsExpiry now b s d d')

-- The outcomes: a call that raises could not have confirmed.
abbrev pub IsConfirmation : ℕ → ℕ → User → Db → Result Booking → Db → Type 0
IsConfirmation now id actor d (ok r) d' = Wrote now id actor d (ok r) d'
IsConfirmation now id actor d (err e) d' =
    (¬ CanConfirm now id actor d) × Wrote now id actor d (err e) d'

module _ (env : Env) (id : ℕ) (actor : User) (d : Db) where
  unchanged : SameBookings d d
  unchanged = record { slots = refl; bookings = refl; packages = refl }

  module _ (b : Booking) (own : IsOwn id actor BookingStatusEnum.hold d b) where
    expire_and_raise-Wrote :
        (s : AvailabilitySlot)
        → find slot_key b.slot_id d.slots ≡ some s
        → hold_has_expired (env.clock 0) b ≡ true
        → Ends (Wrote (env.clock 0) id actor d) (expire_and_raise b s) d
    unfolding expire_and_raise set_slot_status ◌>>=◌
    expire_and_raise-Wrote s fs over = record { at = inr (b, s, own, (over, fs, refl, refl, refl)) }

    -- What `reservable_package` has tested.
    record IsReservable (p : LessonPackage) : Type 0 where
      mine : b.package_id ≡ some p.id
      found : find package_key p.id d.packages ≡ some p
      active : p.status ≡ PackageStatusEnum.active
      current : env.clock 0 < p.expires_at
      room : p.lessons_reserved < p.lessons_left

    reservable_package-IsReservable :
        Ends (Checked d IsReservable) (reservable_package (env.clock 0) b) d
    unfolding reservable_package
    reservable_package-IsReservable =
        Ends-or_raise _ _ _ (λ _. refl)
          λ k mine. Ends-gets _ _ (
            Ends-or_raise _ _ _ (λ _. refl)
              λ p fp.
                Ends-raise_if _ _ _ (λ _. refl)
                  λ usable.
                    Ends-raise_if _ _ _ (λ _. refl)
                      λ room. Ends-pure _ (
                        refl,
                        record {
                          mine = refers package_key b.package_id k p d.packages mine fp;
                          found = find_own package_key k p d.packages fp;
                          active = ground (arith, usable);
                          current = ground (arith, usable);
                          room = ground (arith, room);
                        },
                      ))

    -- The writes of a confirmation come to their end, since the slot of the lesson is there.
    place_confirmation-Wrote :
        (s : AvailabilitySlot) (p : LessonPackage)
        → find slot_key b.slot_id d.slots ≡ some s
        → hold_has_expired (env.clock 0) b ≡ false
        → env.clock 0 < s.start_at
        → IsReservable p
        → Ends (Wrote (env.clock 0) id actor d) (place_confirmation env b s p) d
    unfolding place_confirmation reserve_package_lesson
    place_confirmation-Wrote s p fs in_time ahead q = Ends-save_package _ _ (inl unchanged) λ fits.
        Ends-set_slot_status _ _ _ (
          Ends-modify _ _ (
            Ends-modify _ _ (
              Ends-bind _ _ _
                (ensure_lesson_runs env _ _ (find-save-some slot_key b.slot_id _ s d.slots fs).0
                  (find-save-some slot_key b.slot_id _ s d.slots fs).1)
                (λ e d' r. absurd (ground (arith, r)))
                (λ _ d' r. Ends-pure _ (
                  inr (
                    b,
                    s,
                    p,
                    record {
                      may = own.1;
                      found = own.0;
                      on_hold = own.2;
                      held = deadline (ground (arith, in_time));
                      slot_found = fs;
                      ahead = ahead;
                      own = q.mine;
                      package_found = q.found;
                      active = q.active;
                      current = q.current;
                      room = q.room;
                      valid = ground (arith, fits, q.room);
                    },
                    (refl, r.1.bookings, r.1.slots, r.1.packages, r.2),
                  ))))))
      where
        deadline :
            hold_has_expired (env.clock 0) b ≡ false
            → (t : ℕ) × (b.hold_expires_at ≡ some t) × (env.clock 0 < t)
        deadline h = elim (Option-cases b.hold_expires_at) [
          | inl gone ↦ absurd (ground (arith, h, gone))
          | inr (t, there) ↦ (t, there, ground (arith, h, there))
        ]

    confirm_hold-Wrote : Ends (Wrote (env.clock 0) id actor d) (confirm_hold env b) d
    unfolding confirm_hold
    confirm_hold-Wrote = Ends-assoc _ _ _ _ (
        Ends-gets _ _ (
          Ends-or_raise _ _ _ (λ _. inl unchanged)
            λ s fs.
              Ends-if (hold_has_expired (env.clock 0) b) _ _ (expire_and_raise-Wrote s fs)
                λ in_time.
                  Ends-raise_if _ _ _ (λ _. inl unchanged)
                    λ ahead.
                      Ends-check _ _ _ reservable_package-IsReservable (λ _. inl unchanged)
                        λ p q. place_confirmation-Wrote s p fs in_time (leb→gt _ _ ahead) q))

  confirm_booking-Wrote : Ends (Wrote (env.clock 0) id actor d) (confirm_booking env id actor) d
  unfolding confirm_booking
  confirm_booking-Wrote = Ends-gets _ _ (
      Ends-or_raise _ _ _ (λ _. inl unchanged)
        λ b fb.
          Ends-raise_if _ _ _ (λ _. inl unchanged)
            λ may.
              Ends-if (is_confirmed b.status) _ _
                (λ confirmed.
                  Ends-bind _ _ _ (ensure_lesson-HasLesson env b d) (λ e d' q. inl q.0)
                    λ a d' q.
                      Ends-pure _
                        (inl ((fb, ground (arith, may), ground (arith, confirmed)), q.0, q.1 refl)))
                λ _.
                  Ends-raise_if _ _ _ (λ _. inl unchanged)
                    λ on_hold.
                      confirm_hold-Wrote b (fb, ground (arith, may), ground (arith, on_hold)))

  refuses :
      (r : Result Booking) (d' : Db)
      → Wrote (env.clock 0) id actor d r d'
      → (CanConfirm (env.clock 0) id actor d → (b : Booking) × (r ≡ ok b))
      → IsConfirmation (env.clock 0) id actor d r d'
  refuses (ok b) d' w runs = w
  refuses (err e) d' w runs = (λ can. impossible (runs can), w)
    where
      impossible : (b : Booking) × (err e ≡ ok b) → ⊥
      impossible (b, h) = ground (arith, h)

  -- A call of `confirm_booking` returns, and then the booking was confirmed before, and the bookings,
  -- slots and packages are as they were; or the booking could be confirmed, and it is written CONFIRMED
  -- from now on and without a deadline, its slot BOOKED, and its package with one more lesson reserved;
  -- in both cases a lesson of the booking is there.
  -- Or the call raises: then the booking could not be confirmed, and the session has bookings, slots
  -- and packages as they were, or has a hold that had run out as EXPIRED and its slot as OPEN. A booking
  -- can be confirmed if it is on hold before its deadline, the actor may manage it, its slot has not
  -- begun, and its package is active, current, within its constraints and has a lesson to reserve.
  pub confirm_booking-IsConfirmation :
      Ends (IsConfirmation (env.clock 0) id actor d) (confirm_booking env id actor) d
  confirm_booking-IsConfirmation = record {
    at =
        refuses (confirm_booking env id actor d).0 (confirm_booking env id actor d).1
          confirm_booking-Wrote.at
          λ (b, s, p, can). (_, (confirm_booking-Confirmed env id actor b s p d can).at.0);
  }
