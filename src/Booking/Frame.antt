-- ===== src/Booking/Frame.antt =====
-- The helpers that leave the slots, the bookings and the packages alone.
use guitar_online.Base.Table.{find}
use guitar_online.Base.{ℕ, none, ◌≢◌, some, ◌≡◌, Option, String, arith}
use guitar_online.Store.Rows.{Booking, AvailabilitySlot, slot_key}
use guitar_online.Lessons.Repository.{booking_of}
use guitar_online.Store.Session.{ok, Db, Env, ◌>>=◌}
use guitar_online.Store.Ends.{Ends}
use guitar_online.Booking.Service.Common.{
  ensure_lesson_for_confirmed_booking, cancel_lesson_for_booking,
}

pub record SameBookings (d d' : Db) : Type 0 where
  pub slots : d'.slots ≡ d.slots
  pub bookings : d'.bookings ≡ d.bookings
  pub packages : d'.packages ≡ d.packages

-- A booking has a lesson.
abbrev pub HasLesson : ℕ → Db → Type 0
HasLesson booking_id d = find booking_of booking_id d.lessons ≢ none

module _ (env : Env) (b : Booking) (d : Db) where
  pub ensure_lesson-SameBookings :
      Ends (λ _ d'. SameBookings d d') (ensure_lesson_for_confirmed_booking env b) d
  unfolding ensure_lesson_for_confirmed_booking ◌>>=◌
  ensure_lesson-SameBookings = ground arith

  pub cancel_lesson-SameBookings :
      (r : Option String) → Ends (λ _ d'. SameBookings d d') (cancel_lesson_for_booking env b r) d
  unfolding cancel_lesson_for_booking ◌>>=◌
  cancel_lesson-SameBookings r = ground arith

  -- The lesson is there, or its slot is, so that it can be created.
  pub ensure_lesson_runs :
      (s : AvailabilitySlot)
      → find slot_key b.slot_id d.slots ≡ some s
      → Ends
          (λ r d'. (r ≡ ok tt) × SameBookings d d' × HasLesson b.id d')
          (ensure_lesson_for_confirmed_booking env b)
          d
  unfolding ensure_lesson_for_confirmed_booking ◌>>=◌ find
  ensure_lesson_runs s h = ground (arith, h)

  -- What returns has left a lesson of the booking.
  pub ensure_lesson-HasLesson :
      Ends
        (λ r d'. SameBookings d d' × (r ≡ ok tt → HasLesson b.id d'))
        (ensure_lesson_for_confirmed_booking env b)
        d
  unfolding ensure_lesson_for_confirmed_booking ◌>>=◌ find
  ensure_lesson-HasLesson = record { at = (ensure_lesson-SameBookings.at, has_lesson.at) }
    where
      has_lesson :
          Ends (λ r d'. r ≡ ok tt → HasLesson b.id d') (ensure_lesson_for_confirmed_booking env b) d
      has_lesson = ground arith

  pub cancel_lesson_runs :
      (r : Option String)
      → Ends (λ o d'. (o ≡ ok tt) × SameBookings d d') (cancel_lesson_for_booking env b r) d
  unfolding cancel_lesson_for_booking ◌>>=◌
  cancel_lesson_runs r = ground arith
