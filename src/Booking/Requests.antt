-- ===== src/Booking/Requests.antt =====
-- The calls of `BookingService` as a client makes them: each in a request of its own, which commits
-- if the method returns and rolls back if it raises (`get_db_session`).
use guitar_online.Base.{ℕ, Option, String}
use guitar_online.Base.Table.{IsKeyed}
use guitar_online.Store.Rows.{User, Booking, booking_key}
use guitar_online.Store.Settings.{Settings}
use guitar_online.Store.Session.{Db, Env, Result, ok, err, Exec, close, request}
use guitar_online.Store.Ends.{Ends}
use guitar_online.Booking.Service.Hold.{HoldRequest, hold_booking}
use guitar_online.Booking.Service.Confirm.{confirm_booking}
use guitar_online.Booking.Service.Cancel.{cancel_booking}
use guitar_online.Booking.Service.Reschedule.{reschedule_booking}
use guitar_online.Booking.Service.Expire.{expire_holds_system, expire_holds}
use guitar_online.Booking.Machine.{Steps, Reach, Reaches, here, next}
use guitar_online.Booking.Machine.Hold.{hold_booking-Step}
use guitar_online.Booking.Machine.Confirm.{confirm_booking-Step}
use guitar_online.Booking.Machine.Cancel.{cancel_booking-Step}
use guitar_online.Booking.Machine.Expire.{expire_holds_system-Reaches, expire_holds-Reaches}
use guitar_online.Booking.Machine.Reschedule.{reschedule_booking-Reaches}
use guitar_online.Booking.Exclusive.{IsExclusive, Reach-IsExclusive}
use guitar_online.Booking.Ledger.{IsLedger, Reach-IsLedger}

-- A call of a public method, with its arguments.
pub data Call : Type 0 where
  hold : HoldRequest → User → Call
  confirm : ℕ → User → Call
  cancel : ℕ → Option String → User → Call
  reschedule : ℕ → ℕ → Option String → User → Call
  expire : User → Call
  expire_system : Call

-- The database after a call.
unfoldable pub perform : Settings → Env → Call → Db → Db
perform cfg env (hold payload actor) d = (request (hold_booking cfg env payload actor) d).1
perform cfg env (confirm id actor) d = (request (confirm_booking env id actor) d).1
perform cfg env (cancel id reason actor) d = (request (cancel_booking cfg env id reason actor) d).1
perform cfg env (reschedule id slot_id reason actor) d =
    (request (reschedule_booking cfg env id slot_id reason actor) d).1
perform cfg env (expire actor) d = (request (expire_holds env actor) d).1
perform cfg env expire_system d = (request (expire_holds_system env) d).1

-- What a request leaves has been reached, by its commit or by its rollback.
closed : {A : Type 0} (r : Result A) (d d' : Db) → Reach d d' → Reach d (close r d d').1
closed (ok a) d d' h = h
closed (err e) d d' h = here

committed : {A : Type 0} (m : Exec A) (d : Db) → Ends (Reaches d) m d → Reach d (request m d).1
unfolding request
committed m d h = closed (m d).0 d (m d).1 h.at

one_step : {d : Db} (r : Result Booking) (e : Db) → Steps d r e → Reach d e
one_step (ok b) e s = next here s.0
one_step (err x) e s = next here s

committed_step : (m : Exec Booking) (d : Db) → Ends (Steps d) m d → Reach d (request m d).1
committed_step m d h = committed m d (record { at = one_step (m d).0 (m d).1 h.at })

-- If the primary keys of the bookings are distinct, then whatever a call does, by its commit or by
-- its rollback, it does in steps of the machine.
pub perform-Reach :
    (cfg : Settings) (env : Env) (call : Call) (d : Db)
    → IsKeyed booking_key d.bookings
    → Reach d (perform cfg env call d)
unfolding perform
perform-Reach cfg env (hold payload actor) d keyed =
    committed_step _ d (hold_booking-Step cfg env payload actor d)
perform-Reach cfg env (confirm id actor) d keyed =
    committed_step _ d (confirm_booking-Step env id actor d)
perform-Reach cfg env (cancel id reason actor) d keyed =
    committed_step _ d (cancel_booking-Step cfg env id reason actor d)
perform-Reach cfg env (reschedule id slot_id reason actor) d keyed =
    committed _ d (reschedule_booking-Reaches cfg env id slot_id reason actor d)
perform-Reach cfg env (expire actor) d keyed =
    committed _ d (expire_holds-Reaches env actor d keyed)
perform-Reach cfg env expire_system d keyed =
    committed _ d (expire_holds_system-Reaches env d keyed)

-- The databases that calls lead to, in any number and order. The database refuses a second row
-- with one primary key, so that each call finds the keys of the bookings distinct.
pub data Served (cfg : Settings) (d : Db) : Db → Type 0 where
  start : Served cfg d d
  serve :
      {e : Db}
      → Served cfg d e
      → IsKeyed booking_key e.bookings
      → (env : Env) (call : Call) → Served cfg d (perform cfg env call e)

-- Whatever calls are made, with whatever arguments, clocks and drawn keys, no slot ever has two
-- bookings on hold or confirmed, if none had at the start and each call finds the primary keys of
-- the bookings distinct.
pub Served-IsExclusive :
    (cfg : Settings) (d e : Db) → Served cfg d e → IsExclusive d.bookings → IsExclusive e.bookings
Served-IsExclusive cfg d e start h = h
Served-IsExclusive cfg d _ (serve {e} s keyed env call) h =
    Reach-IsExclusive (perform-Reach cfg env call e keyed) (Served-IsExclusive cfg d e s h)

-- Whatever calls are made, with whatever arguments, clocks and drawn keys, the reserved lessons of
-- each package are as many as its confirmed bookings, if they were so at the start and each call
-- finds the primary keys of the bookings distinct.
pub Served-IsLedger :
    (cfg : Settings) (d e : Db)
    → Served cfg d e
    → IsLedger d.packages d.bookings
    → IsLedger e.packages e.bookings
Served-IsLedger cfg d e start h = h
Served-IsLedger cfg d _ (serve {e} s keyed env call) h =
    Reach-IsLedger (perform-Reach cfg env call e keyed) (Served-IsLedger cfg d e s h)
