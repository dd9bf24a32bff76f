-- ===== src/Booking/Machine/Hold.antt =====
-- `_hold_booking_for_student` and `hold_booking` take a step of the machine.
use mathlib.Core.List.{append_assoc}
use guitar_online.Base.{
  ℕ, ◌+◌, ◌*◌, ◌<◌, ◌≤◌, ◌≡◌, refl, sym, ◌∙◌, ap, true, not, ◌||◌, Option, none, some, List, [],
  ◌∷◌, ◌++◌, arith, ◌==◌, first_match, All,
}
use guitar_online.Base.Table.{find, save, find_own, save-save}
use guitar_online.Store.Enums.{SlotStatusEnum, is_open}
use guitar_online.Store.Rows.{
  User, AvailabilitySlot, Booking, LessonPackage, minute, slot_key, package_key,
}
use guitar_online.Store.Settings.{Settings}
use guitar_online.Store.Session.{Db, Env}
use guitar_online.Store.Ends.{
  Ends, Checked, Ends-pure, Ends-raise, Ends-if_bind, Ends-gets, Ends-or_raise, Ends-raise_if,
  Ends-modify, Ends-check, Ends-assoc, Ends-pure_bind, Ends-run,
}
use guitar_online.Scheduling.Repository.{with_slot_status}
use guitar_online.Scheduling.Writes.{Ends-set_slot_status, split_lem, cut, left_piece, right_piece}
use guitar_online.Booking.Repository.{is_active_on, new_hold}
use guitar_online.Booking.Service.Common.{left_piece_id, right_piece_id, new_booking_id}
use guitar_online.Booking.Service.Hold.{
  HoldRequest, booking_interval, checked_interval, checked_package, occupy_slot, place_hold,
  hold_booking_for_student, hold_booking,
}
use guitar_online.Booking.Machine.{Steps, stay, hold}

-- What `checked_package` has tested.
pub record IsUsable (d : Db) (p : LessonPackage) : Type 0 where
  pub found : find package_key p.id d.packages ≡ some p
  pub room : p.lessons_reserved < p.lessons_left

checked_package-Checked :
    (now package_id student_id : ℕ) (d : Db)
    → Ends (Checked d (IsUsable d)) (checked_package now package_id student_id) d
unfolding checked_package
checked_package-Checked now package_id student_id d = Ends-gets _ _ (
    Ends-or_raise _ _ _ (λ _. refl)
      λ p fp.
        Ends-raise_if _ _ _ (λ _. refl)
          λ _.
            Ends-raise_if _ _ _ (λ _. refl)
              λ _.
                Ends-raise_if _ _ _ (λ _. refl)
                  λ _.
                    Ends-raise_if _ _ _ (λ _. refl)
                      λ room. Ends-pure _ (
                        refl,
                        record {
                          found = find_own package_key package_id p d.packages fp;
                          room = ground arith;
                        },
                      ))

-- What `checked_interval` has tested.
pub record IsBookable (now : ℕ) (s : AvailabilitySlot) (interval : ℕ × ℕ) : Type 0 where
  pub is_free : is_open s.status ≡ true
  pub later : now < interval.0
  pub proper : interval.0 < interval.1
  pub starts_inside : s.start_at ≤ interval.0
  pub ends_inside : interval.1 ≤ s.end_at

booking_interval-Checked :
    (s : AvailabilitySlot) (start end : Option ℕ) (d : Db)
    → Ends (Checked d (λ _. Unit {0})) (booking_interval s start end) d
booking_interval-Checked s none none d = Ends-pure _ (refl, tt)
booking_interval-Checked s (some start) (some end) d = Ends-pure _ (refl, tt)
booking_interval-Checked s none (some end) d = Ends-raise _ refl
booking_interval-Checked s (some start) none d = Ends-raise _ refl

checked_interval-Checked :
    (cfg : Settings) (now : ℕ) (s : AvailabilitySlot) (start end : Option ℕ) (d : Db)
    → Ends (Checked d (IsBookable now s)) (checked_interval cfg now s start end) d
unfolding checked_interval
checked_interval-Checked cfg now s start end d =
    Ends-raise_if _ _ _ (λ _. refl)
      λ free.
        Ends-raise_if _ _ _ (λ _. refl)
          λ _.
            Ends-check _ _ (λ _. Unit {0}) (booking_interval-Checked s start end d) (λ _. refl)
              λ i _.
                Ends-raise_if _ _ _ (λ _. refl)
                  λ proper.
                    Ends-raise_if _ _ _ (λ _. refl)
                      λ inside.
                        Ends-raise_if _ _ _ (λ _. refl)
                          λ later.
                            Ends-raise_if _ _ _ (λ _. refl) λ _. Ends-pure _ (refl, ground arith)

-- The booking that a hold on a slot adds.
abbrev held : Settings → Env → AvailabilitySlot → LessonPackage → ℕ → Booking
held cfg env slot p student =
    new_hold (new_booking_id env) slot.id student slot.teacher_id p.id
      (env.clock 0 + cfg.booking_hold_minutes * minute)

pieces-IsOpen :
    (left right : ℕ) (s : AvailabilitySlot) (start end : ℕ)
    → All (λ x. is_open x.status ≡ true) (right_piece right s end ++ left_piece left s start)
pieces-IsOpen left right s start end = ground arith

module _ (cfg : Settings) (env : Env) (s : AvailabilitySlot) (p : LessonPackage) (student : ℕ)
    (d : Db) (fs : find slot_key s.id d.slots ≡ some s) (free : is_open s.status ≡ true)
    (alone : first_match (is_active_on s.id) d.bookings ≡ none) (usable : IsUsable d p) where
  occupy_slot-Step :
      (slot : AvailabilitySlot) (pieces : List AvailabilitySlot) (e : Db)
      → slot.id ≡ s.id
      → All (λ x. is_open x.status ≡ true) pieces
      → save slot_key (with_slot_status slot SlotStatusEnum.hold) e.slots
        ≡ save slot_key (with_slot_status slot SlotStatusEnum.hold) (pieces ++ d.slots)
      → e.bookings ≡ d.bookings
      → e.packages ≡ d.packages
      → Ends (Steps d) (occupy_slot cfg env slot p student) e
  unfolding occupy_slot find
  occupy_slot-Step slot pieces e own opened slots bookings packages = Ends-set_slot_status _ _ _ (
      Ends-assoc _ _ _ _ (
        Ends-modify _ _ (
          Ends-pure_bind _ _ (
            Ends-modify _ _ (
              Ends-pure _ (
                hold s (with_slot_status slot SlotStatusEnum.hold) pieces
                    (held cfg env slot p student) p fs free alone usable.found usable.room own refl
                    opened own refl refl slots (ap (λ l. held cfg env slot p student ∷ l) bookings)
                    packages,
                ground arith,
              ))))))

  place_hold-Step : (start end : ℕ) → Ends (Steps d) (place_hold cfg env s p student start end) d
  unfolding place_hold
  place_hold-Step start end =
      Ends-if_bind (not (start == s.start_at) || not (end == s.end_at)) _ _ _
        (λ part.
          Ends-run _ _ _ _ (split_lem (left_piece_id env) (right_piece_id env) s start end d) (
            occupy_slot-Step (cut s start end)
              (right_piece (right_piece_id env) s end ++ left_piece (left_piece_id env) s start) _
              refl (pieces-IsOpen (left_piece_id env) (right_piece_id env) s start end)
              (save-save slot_key _ _ _ refl
                ∙ ap (save slot_key _) (
                    sym (
                      append_assoc (right_piece (right_piece_id env) s end)
                        (left_piece (left_piece_id env) s start) d.slots)))
              refl refl))
        (λ whole. Ends-pure_bind _ _ (occupy_slot-Step s [] d refl tt refl refl refl))

pub hold_booking_for_student-Step :
    (cfg : Settings) (env : Env) (slot_id package_id student : ℕ) (start end : Option ℕ) (d : Db)
    → Ends (Steps d) (hold_booking_for_student cfg env slot_id package_id student start end) d
unfolding hold_booking_for_student
hold_booking_for_student-Step cfg env slot_id package_id student start end d = Ends-gets _ _ (
    Ends-or_raise _ _ _ (λ _. stay refl refl refl)
      λ s fs.
        Ends-check _ _ _ (checked_interval-Checked cfg (env.clock 0) s start end d)
          (λ _. stay refl refl refl)
          λ i bookable. Ends-gets _ _ (
            Ends-raise_if _ _ _ (λ _. stay refl refl refl)
              λ alone.
                Ends-check _ _ _ (checked_package-Checked (env.clock 1) package_id student d)
                  (λ _. stay refl refl refl)
                  λ p usable.
                    place_hold-Step cfg env s p student d (find_own slot_key slot_id s d.slots fs)
                      bookable.is_free (ground arith) usable i.0 i.1))

pub hold_booking-Step :
    (cfg : Settings) (env : Env) (payload : HoldRequest) (actor : User) (d : Db)
    → Ends (Steps d) (hold_booking cfg env payload actor) d
unfolding hold_booking
hold_booking-Step cfg env payload actor d =
    Ends-raise_if _ _ _ (λ _. stay refl refl refl)
      λ _.
        hold_booking_for_student-Step cfg env payload.slot_id payload.package_id actor.id
          payload.start_at payload.end_at d
