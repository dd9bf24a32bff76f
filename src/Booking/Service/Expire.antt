-- ===== src/Booking/Service/Expire.antt =====
-- `expire_holds` and `expire_holds_system`
use guitar_online.Base.{ℕ, suc, not, none, List, [], ◌∷◌, length}
use guitar_online.Store.Enums.{SlotStatusEnum, BookingStatusEnum, is_admin}
use guitar_online.Store.Rows.{User, Booking}
use guitar_online.Store.Events.{booking_hold_expired}
use guitar_online.Store.Session.{
  Env, Exec, unauthorized, pure, raise_if, create_outbox_event, ◌>>=◌, ◌>>◌,
}
use guitar_online.Scheduling.Repository.{set_slot_status}
use guitar_online.Booking.Repository.{find_expired_holds, save_booking}
use guitar_online.Booking.Service.Common.{slot_of}

-- A booking as its hold expires.
abbrev pub expired_hold : Booking → Booking
expired_hold booking = record booking { status = BookingStatusEnum.expired; hold_expires_at = none }

-- The body of the loop; `k` counts the rounds done.
unfoldable pub expire_hold : Env → ℕ → Booking → Exec (Unit {0})
expire_hold env k booking = do
  slot ← slot_of booking
  set_slot_status slot SlotStatusEnum.open_slot
  save_booking (expired_hold booking)
  create_outbox_event (env.uuid4 k) (env.clock (suc k))
      (booking_hold_expired booking.id booking.slot_id)

unfoldable pub expire_each : Env → ℕ → List Booking → Exec (Unit {0})
expire_each env k [] = pure tt
expire_each env k (booking ∷ rest) = do expire_hold env k booking; expire_each env (suc k) rest

unfoldable pub expire_holds_system : Env → Exec ℕ
expire_holds_system env = do
  holds ← find_expired_holds (env.clock 0)
  expire_each env 0 holds
  pure (length holds)

unfoldable pub expire_holds : Env → User → Exec ℕ
expire_holds env actor = do
  raise_if (not (is_admin actor.role)) (unauthorized "Only admin can run hold expiration")
  expire_holds_system env
