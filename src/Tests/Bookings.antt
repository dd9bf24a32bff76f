-- ===== src/Tests/Bookings.antt =====
-- The booking service at concrete rows.
use guitar_online.Base.{◌≡◌, refl, none, some, [], ◌∷◌, arith, All, tally}
use guitar_online.Base.Table.{save, find, IsKeyed}
use guitar_online.Store.Rows.{Booking, booking_key, slot_key}
use guitar_online.Store.Settings.{default_settings}
use guitar_online.Store.Session.{request, ◌>>=◌}
use guitar_online.Store.Ends.{Ends}
use guitar_online.Booking.Service.Common.{may_manage}
use guitar_online.Booking.Service.Confirm.{confirm_booking, confirm_hold, expire_and_raise}
use guitar_online.Booking.Service.Expire.{expire_holds_system}
use guitar_online.Booking.Machine.{Reach}
use guitar_online.Booking.Machine.Expire.{IsSweep, expire_holds_system-IsSweep}
use guitar_online.Booking.Exclusive.{IsExclusive}
use guitar_online.Booking.Ledger.{IsLedger}
use guitar_online.Booking.Requests.{
  Call, perform, Served, start, serve, perform-Reach, Served-IsExclusive, Served-IsLedger,
}
use guitar_online.Booking.Confirmation.{IsConfirmation, confirm_booking-IsConfirmation}
use guitar_online.Scheduling.Repository.{set_slot_status}
use guitar_online.Booking.Service.Cancel.{cancel_booking}
use guitar_online.Booking.Refund.{Canceled, cancel_booking-Canceled}
use guitar_online.Tests.Rows.{
  pkg, env, student, slot, hold, stale, booked, on_hold, run_out, confirmed,
}

one_booking-IsExclusive : (b : Booking) → IsExclusive (b ∷ [])
unfolding tally
one_booking-IsExclusive b k = ground arith

on_hold-IsLedger : IsLedger on_hold.packages on_hold.bookings
unfolding tally find
on_hold-IsLedger k p h = ground (arith, h)

one_booking-IsKeyed : (b : Booking) → IsKeyed booking_key (b ∷ [])
unfolding find
one_booking-IsKeyed b = (refl, tt)

confirming :
    Served default_settings on_hold (perform default_settings env (Call.confirm 30 student) on_hold)
confirming = serve start (one_booking-IsKeyed hold) env (Call.confirm 30 student)

Served-IsExclusive_example :
    IsExclusive (perform default_settings env (Call.confirm 30 student) on_hold).bookings
Served-IsExclusive_example =
    Served-IsExclusive default_settings on_hold
      (perform default_settings env (Call.confirm 30 student) on_hold) confirming
      (one_booking-IsExclusive hold)

Served-IsLedger_example :
    let d = perform default_settings env (Call.confirm 30 student) on_hold in
    IsLedger d.packages d.bookings
Served-IsLedger_example =
    Served-IsLedger default_settings on_hold
      (perform default_settings env (Call.confirm 30 student) on_hold) confirming on_hold-IsLedger

perform-Reach_example :
    Reach confirmed (perform default_settings env (Call.cancel 30 none student) confirmed)
perform-Reach_example =
    perform-Reach default_settings env (Call.cancel 30 none student) confirmed
      (one_booking-IsKeyed booked)

stale_has_slot : All (λ b. (s : _) × (find slot_key b.slot_id run_out.slots ≡ some s)) (stale ∷ [])
unfolding find
stale_has_slot = ((slot, refl), tt)

expire_holds_system-IsSweep_example :
    Ends (IsSweep (env.clock 0) run_out) (expire_holds_system env) run_out
expire_holds_system-IsSweep_example =
    expire_holds_system-IsSweep env run_out (one_booking-IsKeyed stale) stale_has_slot

confirm_booking-IsConfirmation_example :
    Ends (IsConfirmation (env.clock 0) 30 student on_hold) (confirm_booking env 30 student) on_hold
confirm_booking-IsConfirmation_example = confirm_booking-IsConfirmation env 30 student on_hold

-- A hold whose deadline has passed stays on hold, since its request is rolled back.
expiry_rolled_back : (request (confirm_booking env 30 student) run_out).1 ≡ run_out
unfolding find save may_manage request confirm_booking confirm_hold expire_and_raise set_slot_status
    ◌>>=◌
expiry_rolled_back = refl

cancel_booking-Canceled_example :
    Ends
      (Canceled default_settings
        (env.clock 0)
        none
        booked
        slot
        (record pkg { lessons_reserved = 1 })
        confirmed)
      (cancel_booking default_settings env 30 none student)
      confirmed
unfolding find may_manage
cancel_booking-Canceled_example =
    cancel_booking-Canceled default_settings env 30 none student booked slot 20
      (record pkg { lessons_reserved = 1 }) confirmed refl refl refl refl refl refl (omega arith)
      refl
