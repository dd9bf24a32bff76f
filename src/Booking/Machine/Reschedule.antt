-- ===== src/Booking/Machine/Reschedule.antt =====
-- `reschedule_booking` takes steps of the machine.
use guitar_online.Base.{ℕ, ◌≡◌, refl, Option, some, String}
use guitar_online.Base.Table.{find}
use guitar_online.Store.Enums.{is_admin}
use guitar_online.Store.Rows.{User, Booking, booking_key}
use guitar_online.Store.Settings.{Settings}
use guitar_online.Store.Session.{Db, Env, after}
use guitar_online.Store.Ends.{
  Ends, Ends-pure, Ends-if, Ends-if_bind, Ends-if_found, Ends-gets, Ends-or_raise, Ends-raise_if,
  Ends-modify, Ends-bind, Ends-pure_bind,
}
use guitar_online.Booking.Service.Reschedule.{
  hold_new_slot, link_successor, move_booking, reschedule_booking,
}
use guitar_online.Booking.Machine.{Steps, link, Reach, Reaches, here, next}
use guitar_online.Booking.Machine.Confirm.{confirm_booking-Step}
use guitar_online.Booking.Machine.Cancel.{cancel_booking-Step}
use guitar_online.Booking.Machine.Hold.{hold_booking_for_student-Step, hold_booking-Step}

hold_new_slot-Step :
    (cfg : Settings) (env : Env) (old : Booking) (slot_id package_id : ℕ) (actor : User) (d : Db)
    → Ends (Steps d) (hold_new_slot cfg env old slot_id package_id actor) d
unfolding hold_new_slot
hold_new_slot-Step cfg env old slot_id package_id actor d =
    Ends-if (is_admin actor.role) _ _ (λ _. hold_booking_for_student-Step cfg env _ _ _ _ _ d)
      (λ _. hold_booking-Step cfg env _ actor d)

link_successor-Reaches :
    (env : Env) (old confirmed : Booking) (reason : String) (actor : User) (d e : Db)
    → Reach d e
    → find booking_key confirmed.id e.bookings ≡ some confirmed
    → Ends (Reaches d) (link_successor env old confirmed reason actor) e
unfolding link_successor
link_successor-Reaches env old confirmed reason actor d e r found = Ends-modify _ _ (
    Ends-modify _ _ (
      Ends-if_bind (is_admin actor.role) _ _ _
        (λ _. Ends-modify _ _ (Ends-pure _ (next r (link confirmed old.id found refl refl refl))))
        (λ _.
          Ends-pure_bind _ _ (Ends-pure _ (next r (link confirmed old.id found refl refl refl))))))

move_booking-Reaches :
    (cfg : Settings) (env : Env) (id slot_id : ℕ) (reason : String) (actor : User) (d : Db)
    → Ends (Reaches d) (move_booking cfg env id slot_id reason actor) d
unfolding move_booking
move_booking-Reaches cfg env id slot_id reason actor d =
    Ends-bind _ _ _ (cancel_booking-Step cfg (after 1 0 env) id (some reason) actor d)
      (λ e d' s. next here s)
      λ old d' s.
        Ends-or_raise _ _ _ (λ _. next here s.0)
          λ p _.
            Ends-bind _ _ _ (hold_new_slot-Step cfg (after 4 6 env) old slot_id p actor d')
              (λ e d'' t. next (next here s.0) t)
              λ held d'' t.
                Ends-bind _ _ _ (confirm_booking-Step (after 7 12 env) held.id actor d'')
                  (λ e f u. next (next (next here s.0) t.0) u)
                  λ confirmed f u.
                    link_successor-Reaches (after 10 18 env) old confirmed reason actor d f
                      (next (next (next here s.0) t.0) u.0) u.1

pub reschedule_booking-Reaches :
    (cfg : Settings) (env : Env) (id slot_id : ℕ) (reason : Option String) (actor : User) (d : Db)
    → Ends (Reaches d) (reschedule_booking cfg env id slot_id reason actor) d
unfolding reschedule_booking
reschedule_booking-Reaches cfg env id slot_id reason actor d = Ends-gets _ _ (
    Ends-or_raise _ _ _ (λ _. here)
      λ old _.
        Ends-raise_if _ _ _ (λ _. here)
          λ _. Ends-gets _ _ (
            Ends-if_found _ _ _
              (λ _.
                Ends-raise_if _ _ _ (λ _. here)
                  λ _. Ends-gets _ _ (
                    Ends-or_raise _ _ _ (λ _. here)
                      λ s _.
                        Ends-raise_if _ _ _ (λ _. here)
                          λ _. move_booking-Reaches cfg env id slot_id _ actor d))
              (λ successor _. Ends-pure _ here)))
