-- ===== src/Booking/Machine/Cancel.antt =====
-- `cancel_booking` takes a step of the machine.
use guitar_online.Base.{
  ℕ, ◌≡◌, refl, sym, ◌∙◌, ap, subst, inl, inr, Bool, true, false, some, Option, String, arith, leb,
  ltb,
}
use guitar_online.Base.Table.{find, save, find_own, find-save_self, refers}
use guitar_online.Store.Enums.{BookingStatusEnum, is_admin}
use guitar_online.Store.BookingStatus.{is_confirmed, is_canceled, is_active}
use guitar_online.Store.Rows.{
  User, AvailabilitySlot, Booking, LessonPackage, slot_key, booking_key, package_key,
}
use guitar_online.Store.Settings.{Settings}
use guitar_online.Store.Session.{Db, Env, Result, ok, err, pure, ◌>>=◌}
use guitar_online.Store.Ends.{
  Ends, Ends-pure, Ends-if, Ends-if_bind, Ends-if_found, Ends-gets, Ends-or_raise, Ends-raise_if,
  Ends-raise_bind, Ends-modify, Ends-bind, Ends-assoc, Ends-pure_bind,
}
use guitar_online.Scheduling.Writes.{Ends-set_slot_status}
use guitar_online.Billing.Repository.{release_package_reservation, consume_reserved_package_lesson}
use guitar_online.Billing.Writes.{Ends-save_package}
use guitar_online.Booking.Policy.{can_refund_by_policy}
use guitar_online.Booking.Frame.{cancel_lesson-SameBookings}
use guitar_online.Booking.Service.Common.{cancel_lesson_for_booking}
use guitar_online.Booking.Service.Cancel.{
  cancel_booking, settle_package, place_cancellation, record_cancellation, canceled_at_now,
}
use guitar_online.Booking.Machine.{
  Step, Steps, stay, cancel, unreserved, released, consumed, Refunds, none_due, settled, Frees,
  freed, begun,
}

-- What `settle_package` leaves behind.
abbrev Settled : Settings → ℕ → Booking → AvailabilitySlot → Db → Result Bool → Db → Type 0
Settled cfg now b s d (err e) d' = d' ≡ d
Settled cfg now b s d (ok refund) d' =
    (d'.slots ≡ d.slots) × (d'.bookings ≡ d.bookings) × Refunds b refund d.packages d'.packages

module _ (cfg : Settings) (now : ℕ) (b : Booking) (s : AvailabilitySlot) (d : Db) where
  -- The two ways to settle a package that was found.
  module _ (p : LessonPackage) (conf : b.status ≡ BookingStatusEnum.confirmed)
      (own : b.package_id ≡ some p.id) (fp : find package_key p.id d.packages ≡ some p) where
    release-Settled :
        Ends (Settled cfg now b s d) (release_package_reservation p >>= λ _. pure true) d
    unfolding release_package_reservation
    release-Settled =
        Ends-if_bind (leb p.lessons_reserved 0) _ _ _
          (λ z.
            Ends-pure_bind _ _
              (Ends-pure _ (refl, refl, settled p conf own fp (unreserved (ground arith) refl))))
          (λ nz. Ends-save_package _ _ refl λ _.
            Ends-pure _ (refl, refl, settled p conf own fp (released refl (ground arith) refl)))

    consume-Settled :
        Ends (Settled cfg now b s d) (consume_reserved_package_lesson p >>= λ _. pure false) d
    unfolding consume_reserved_package_lesson
    consume-Settled =
        Ends-if_bind (leb p.lessons_reserved 0) _ _ _
          (λ z.
            Ends-pure_bind _ _
              (Ends-pure _ (refl, refl, settled p conf own fp (unreserved (ground arith) refl))))
          (λ nz.
            Ends-if_bind (leb p.lessons_left 0) _ _ _ (λ _. Ends-raise_bind _ _ refl)
              λ nl. Ends-save_package _ _ refl λ _. Ends-pure _ (
                refl,
                refl,
                settled p conf own fp (consumed refl (ground arith) (ground arith) refl),
              ))

  settle_package-Settled : Ends (Settled cfg now b s d) (settle_package cfg now b s) d
  unfolding settle_package
  settle_package-Settled =
      Ends-if (is_confirmed b.status) _ _
        (λ conf.
          Ends-if_found _ _ _ (λ e. Ends-pure _ (refl, refl, none_due (inr e) refl refl))
            λ k own. Ends-gets _ _ (
              Ends-or_raise _ _ _ (λ _. refl)
                λ p fp.
                  Ends-if (can_refund_by_policy now s.start_at cfg.booking_refund_window_hours) _ _
                    (λ _.
                      release-Settled p (ground arith)
                        (refers package_key b.package_id k p d.packages own fp)
                        (find_own package_key k p d.packages fp))
                    (λ _.
                      consume-Settled p (ground arith)
                        (refers package_key b.package_id k p d.packages own fp)
                        (find_own package_key k p d.packages fp))))
        (λ plain. Ends-pure _ (refl, refl, none_due (inl plain) refl refl))

module _ (env : Env) (b : Booking) (s : AvailabilitySlot) (reason : Option String) (refund : Bool)
    (actor : User) (d e : Db) (fb : find booking_key b.id d.bookings ≡ some b)
    (active : is_active b.status ≡ true) (fs : find slot_key b.slot_id d.slots ≡ some s)
    (same_slots : e.slots ≡ d.slots) (same_bookings : e.bookings ≡ d.bookings)
    (refunds : Refunds b refund d.packages e.packages) where
  abbrev canceled : Booking
  canceled = canceled_at_now (env.clock 0) reason refund b

  -- The step, once the slots, the bookings and the packages are written.
  arrive :
      (f g : Db)
      → Frees (env.clock 0) s d.slots f.slots
      → f.bookings ≡ e.bookings
      → f.packages ≡ e.packages
      → g.slots ≡ f.slots
      → g.bookings ≡ save booking_key canceled f.bookings
      → g.packages ≡ f.packages
      → Step d g
  arrive f g frees fb' fp' gs gb gp =
      cancel (env.clock 0) reason refund b s fb active fs
        (subst (Frees (env.clock 0) s d.slots) (sym gs) frees)
        (gb ∙ ap (save booking_key canceled) (fb' ∙ same_bookings))
        (subst (Refunds b refund d.packages) (sym (gp ∙ fp')) refunds)

  -- The last writes of a cancellation, once the slot is dealt with.
  record_cancellation-Step :
      (f : Db)
      → Frees (env.clock 0) s d.slots f.slots
      → f.bookings ≡ e.bookings
      → f.packages ≡ e.packages
      → Ends (Steps d) (record_cancellation env b reason refund actor) f
  unfolding record_cancellation
  record_cancellation-Step f frees fb' fp' = Ends-modify _ _ (
      Ends-modify _ _ (
        Ends-if_bind (is_admin actor.role) _ _ _ (λ _. Ends-modify _ _ (finish _ refl refl refl))
          (λ _. Ends-pure_bind _ _ (finish _ refl refl refl))))
    where
      finish :
          (g : Db)
          → g.slots ≡ f.slots
          → g.bookings ≡ save booking_key canceled f.bookings
          → g.packages ≡ f.packages
          → Ends (Steps d) (cancel_lesson_for_booking env canceled reason >>= λ _. pure canceled) g
      finish g gs gb gp =
          Ends-bind _ _ _ (cancel_lesson-SameBookings env canceled g reason)
            (λ _ d' same.
              arrive f d' frees fb' fp' (same.slots ∙ gs) (same.bookings ∙ gb) (same.packages ∙ gp))
            (λ _ d' same. Ends-pure _ (
              arrive f d' frees fb' fp' (same.slots ∙ gs) (same.bookings ∙ gb) (same.packages ∙ gp),
              rw (same.bookings ∙ gb, fb', same_bookings)
                  (find-save_self booking_key canceled b d.bookings fb),
            ))

  place_cancellation-Step : Ends (Steps d) (place_cancellation env b s reason refund actor) e
  unfolding place_cancellation
  place_cancellation-Step =
      Ends-if_bind (ltb (env.clock 0) s.start_at) _ _ _
        (λ future. Ends-assoc _ _ _ _ (
          Ends-set_slot_status _ _ _ (
            Ends-pure_bind _ _
              (record_cancellation-Step _ (freed (ground arith) (rw same_slots refl)) refl refl))))
        (λ past.
          Ends-pure_bind _ _
            (record_cancellation-Step _ (begun (ground arith) same_slots) refl refl))

pub cancel_booking-Step :
    (cfg : Settings) (env : Env) (id : ℕ) (reason : Option String) (actor : User) (d : Db)
    → Ends (Steps d) (cancel_booking cfg env id reason actor) d
unfolding cancel_booking
cancel_booking-Step cfg env id reason actor d = Ends-gets _ _ (
    Ends-or_raise _ _ _ (λ _. stay refl refl refl)
      λ b fb.
        Ends-raise_if _ _ _ (λ _. stay refl refl refl)
          λ _.
            Ends-if (is_canceled b.status) _ _
              (λ _. Ends-pure _ (stay refl refl refl, find_own booking_key id b d.bookings fb))
              λ c.
                Ends-raise_if _ _ _ (λ _. stay refl refl refl)
                  λ x. Ends-assoc _ _ _ _ (
                    Ends-gets _ _ (
                      Ends-or_raise _ _ _ (λ _. stay refl refl refl)
                        λ s fs.
                          Ends-bind _ _ _ (settle_package-Settled cfg _ b s d)
                            (λ e d' same. rw same (stay refl refl refl))
                            λ refund e q.
                              place_cancellation-Step env b s reason refund actor d e
                                (find_own booking_key id b d.bookings fb) (ground arith) fs q.0 q.1
                                q.2)))
