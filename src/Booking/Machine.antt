-- ===== src/Booking/Machine.antt =====
-- The booking service as an abstract state machine: what one call may do to the slots, the bookings
-- and the packages. The modules below show that each method takes such steps only, whether it
-- returns or raises.
pub mod Confirm
pub mod Cancel
pub mod Hold
pub mod Expire
pub mod Reschedule
use guitar_online.Base.{
  ℕ, ◌+◌, ◌-◌, ◌<◌, ◌≤◌, ◌≡◌, refl, ◌⊎◌, Bool, true, false, Option, none, some, List, [], ◌∷◌, ◌++◌,
  String,
}
use guitar_online.Base.{first_match, All}
use guitar_online.Base.Table.{find, save}
use guitar_online.Store.Enums.{SlotStatusEnum, BookingStatusEnum, is_open}
use guitar_online.Store.BookingStatus.{is_confirmed, is_active}
use guitar_online.Store.Rows.{
  AvailabilitySlot, Booking, LessonPackage, slot_key, booking_key, package_key,
}
use guitar_online.Store.Session.{Db, Result, ok, err}
use guitar_online.Scheduling.Repository.{with_slot_status}
use guitar_online.Booking.Repository.{is_active_on}
use guitar_online.Booking.Service.Confirm.{confirmed_at_now}
use guitar_online.Booking.Service.Cancel.{canceled_at_now}

-- One reservation of `p` is given back (`refund`), or the lesson is given up with it. Without a
-- reservation nothing is written.
pub data Settles (p : LessonPackage) (refund : Bool) (ps ps' : List LessonPackage) : Type 0 where
  unreserved : p.lessons_reserved ≡ 0 → ps' ≡ ps → Settles p refund ps ps'
  released :
      refund ≡ true
      → 0 < p.lessons_reserved
      → ps' ≡ save package_key (record p { lessons_reserved = p.lessons_reserved - 1 }) ps
      → Settles p refund ps ps'
  consumed :
      refund ≡ false
      → 0 < p.lessons_reserved
      → 0 < p.lessons_left
      → ps'
        ≡ save package_key
            (record p {
              lessons_reserved = p.lessons_reserved - 1;
              lessons_left = p.lessons_left - 1;
            })
            ps
      → Settles p refund ps ps'

-- What a cancellation does to the packages.
pub data Refunds (b : Booking) (refund : Bool) (ps ps' : List LessonPackage) : Type 0 where
  none_due :
      is_confirmed b.status ≡ false ⊎ (b.package_id ≡ none)
      → refund ≡ false
      → ps' ≡ ps
      → Refunds b refund ps ps'
  settled :
      (p : LessonPackage)
      → b.status ≡ BookingStatusEnum.confirmed
      → b.package_id ≡ some p.id
      → find package_key p.id ps ≡ some p
      → Settles p refund ps ps'
      → Refunds b refund ps ps'

-- A canceled booking frees its slot, unless the slot has begun.
pub data Frees (now : ℕ) (s : AvailabilitySlot) (ss ss' : List AvailabilitySlot) : Type 0 where
  freed :
      now < s.start_at
      → ss' ≡ save slot_key (with_slot_status s SlotStatusEnum.open_slot) ss
      → Frees now s ss ss'
  begun : s.start_at ≤ now → ss' ≡ ss → Frees now s ss ss'

pub data Step (d d' : Db) : Type 0 where
  stay : d'.slots ≡ d.slots → d'.bookings ≡ d.bookings → d'.packages ≡ d.packages → Step d d'
  hold :
      (s cut : AvailabilitySlot) (pieces : List AvailabilitySlot) (b : Booking) (p : LessonPackage)
      → find slot_key s.id d.slots ≡ some s
      → is_open s.status ≡ true
      → first_match (is_active_on s.id) d.bookings ≡ none
      → find package_key p.id d.packages ≡ some p
      → p.lessons_reserved < p.lessons_left
      → cut.id ≡ s.id
      → cut.status ≡ SlotStatusEnum.hold
      → All (λ x. is_open x.status ≡ true) pieces
      → b.slot_id ≡ s.id
      → b.status ≡ BookingStatusEnum.hold
      → b.package_id ≡ some p.id
      → d'.slots ≡ save slot_key cut (pieces ++ d.slots)
      → d'.bookings ≡ b ∷ d.bookings
      → d'.packages ≡ d.packages
      → Step d d'
  confirm :
      (now : ℕ) (b : Booking) (s : AvailabilitySlot) (p : LessonPackage)
      → find booking_key b.id d.bookings ≡ some b
      → b.status ≡ BookingStatusEnum.hold
      → find slot_key b.slot_id d.slots ≡ some s
      → b.package_id ≡ some p.id
      → find package_key p.id d.packages ≡ some p
      → p.lessons_reserved < p.lessons_left
      → d'.slots ≡ save slot_key (with_slot_status s SlotStatusEnum.booked) d.slots
      → d'.bookings ≡ save booking_key (confirmed_at_now now b) d.bookings
      → d'.packages
        ≡ save package_key (record p { lessons_reserved = p.lessons_reserved + 1 }) d.packages
      → Step d d'
  expire :
      (b : Booking) (t : Option ℕ) (s : AvailabilitySlot)
      → find booking_key b.id d.bookings ≡ some b
      → b.status ≡ BookingStatusEnum.hold
      → find slot_key b.slot_id d.slots ≡ some s
      → d'.slots ≡ save slot_key (with_slot_status s SlotStatusEnum.open_slot) d.slots
      → d'.bookings
        ≡ save booking_key
            (record b { status = BookingStatusEnum.expired; hold_expires_at = t })
            d.bookings
      → d'.packages ≡ d.packages
      → Step d d'
  cancel :
      (now : ℕ) (reason : Option String) (refund : Bool) (b : Booking) (s : AvailabilitySlot)
      → find booking_key b.id d.bookings ≡ some b
      → is_active b.status ≡ true
      → find slot_key b.slot_id d.slots ≡ some s
      → Frees now s d.slots d'.slots
      → d'.bookings ≡ save booking_key (canceled_at_now now reason refund b) d.bookings
      → Refunds b refund d.packages d'.packages
      → Step d d'
  -- `reschedule_booking` writes which booking the new one replaces.
  link :
      (b : Booking) (old : ℕ)
      → find booking_key b.id d.bookings ≡ some b
      → d'.slots ≡ d.slots
      → d'.bookings
        ≡ save booking_key (record b { rescheduled_from_booking_id = some old }) d.bookings
      → d'.packages ≡ d.packages
      → Step d d'

-- One step, and a booking that is returned is the row that is stored.
abbrev pub Steps : Db → Result Booking → Db → Type 0
Steps d (ok b) d' = Step d d' × (find booking_key b.id d'.bookings ≡ some b)
Steps d (err e) d' = Step d d'

-- Any number of steps: what a method does that loops or calls others.
pub data Reach (d : Db) : Db → Type 0 where
  here : Reach d d
  next : {e f : Db} → Reach d e → Step e f → Reach d f

abbrev pub Reaches : {A : Type 0} → Db → Result A → Db → Type 0
Reaches d _ d' = Reach d d'
