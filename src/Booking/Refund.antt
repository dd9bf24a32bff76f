-- ===== src/Booking/Refund.antt =====
-- What `cancel_booking` does to a confirmed booking: the refund follows the policy.
use guitar_online.Base.{
  ℕ, ◌+◌, ◌*◌, ◌-◌, ◌<◌, ◌≡◌, refl, sym, ap, ◌∙◌, Bool, true, false, Option, some, String, arith,
  leb, ltb,
}
use guitar_online.Base.Table.{find, save}
use guitar_online.Store.Enums.{BookingStatusEnum, is_admin}
use guitar_online.Store.BookingStatus.{is_confirmed, is_canceled}
use guitar_online.Store.Rows.{
  User, AvailabilitySlot, Booking, LessonPackage, slot_key, booking_key, package_key, hour,
}
use guitar_online.Store.Settings.{Settings}
use guitar_online.Store.Session.{Db, Env, Result, ok, pure, ◌>>=◌}
use guitar_online.Store.Ends.{
  Ends, Ends-pure, Ends-if, Ends-if_bind, Ends-if_found, Ends-found, Ends-pass, Ends-then,
  Ends-else, Ends-modify, Ends-bind, Ends-assoc, Ends-mono, Ends-pure_bind,
}
use guitar_online.Scheduling.Writes.{Ends-set_slot_status}
use guitar_online.Billing.Repository.{
  meets_constraints, release_package_reservation, consume_reserved_package_lesson,
}
use guitar_online.Billing.Writes.{Ends-save_valid}
use guitar_online.Booking.Policy.{can_refund_by_policy}
use guitar_online.Booking.Frame.{cancel_lesson_runs}
use guitar_online.Booking.Service.Common.{may_manage, cancel_lesson_for_booking}
use guitar_online.Booking.Service.Cancel.{
  settle_package, canceled_at_now, record_cancellation, place_cancellation, cancel_booking,
}

-- The package after a cancellation: one reservation less, and without a refund one lesson less.
abbrev pub settled_package : Bool → LessonPackage → LessonPackage
settled_package true p = record p { lessons_reserved = p.lessons_reserved - 1 }
settled_package false p = record p {
  lessons_reserved = p.lessons_reserved - 1;
  lessons_left = p.lessons_left - 1;
}

abbrev pub refunds : Settings → ℕ → AvailabilitySlot → Bool
refunds cfg now s = ltb (now + cfg.booking_refund_window_hours * hour) s.start_at

abbrev pub Canceled :
    Settings
    → ℕ
    → Option String
    → Booking
    → AvailabilitySlot
    → LessonPackage
    → Db
    → Result Booking
    → Db
    → Type 0
Canceled cfg now reason b s p d r d' =
    let canceled = record b {
      status = BookingStatusEnum.canceled;
      canceled_at = some now;
      cancellation_reason = reason;
      refund_returned = refunds cfg now s;
    } in
    (r ≡ ok canceled)
    × (d'.bookings ≡ save booking_key canceled d.bookings)
    × (d'.packages ≡ save package_key (settled_package (refunds cfg now s) p) d.packages)

Ok-injective : (a c : Bool) → ok a ≡ ok c → a ≡ c
Ok-injective a c e = cc

module _ (cfg : Settings) (env : Env) (id : ℕ) (reason : Option String) (actor : User) (b : Booking)
    (s : AvailabilitySlot) (k : ℕ) (p : LessonPackage) (d : Db)
    (fb : find booking_key id d.bookings ≡ some b) (may : may_manage b actor ≡ true)
    (confirmed : b.status ≡ BookingStatusEnum.confirmed)
    (fs : find slot_key b.slot_id d.slots ≡ some s) (own : b.package_id ≡ some k)
    (fp : find package_key k d.packages ≡ some p) (reserved : 0 < p.lessons_reserved)
    (valid : meets_constraints p ≡ true) where
  -- What is left after the package is settled.
  abbrev Paid : Result Bool → Db → Type 0
  Paid r e =
      (r ≡ ok (refunds cfg (env.clock 0) s))
      × (e.slots ≡ d.slots)
      × (e.bookings ≡ d.bookings)
      × (e.packages ≡ save package_key (settled_package (refunds cfg (env.clock 0) s) p) d.packages)

  settle_package-Paid : Ends Paid (settle_package cfg (env.clock 0) b s) d
  unfolding settle_package release_package_reservation consume_reserved_package_lesson
      can_refund_by_policy
  settle_package-Paid = Ends-then (is_confirmed b.status) _ _ (ground arith) (
      Ends-if_found b.package_id _ _ (λ gone. absurd (ground (arith, own, gone)))
        λ k' own'. Ends-found _ _ _ p (rw (k'≡k k' own') fp) (
          Ends-if (refunds cfg (env.clock 0) s) _ _
            (λ refunded.
              Ends-if_bind (leb p.lessons_reserved 0) _ _ _ (λ zero. absurd (ground (arith, zero)))
                (λ _. Ends-save_valid _ _ (ground arith) (
                  Ends-pure _ (
                    ap ok (sym refunded),
                    refl,
                    refl,
                    ap (λ c. save package_key (settled_package c p) d.packages) (sym refunded),
                  ))))
            (λ kept.
              Ends-if_bind (leb p.lessons_reserved 0) _ _ _ (λ zero. absurd (ground (arith, zero)))
                (λ _.
                  Ends-if_bind (leb p.lessons_left 0) _ _ _ (λ zero. absurd (ground (arith, zero)))
                    (λ _. Ends-save_valid _ _ (ground arith) (
                      Ends-pure _ (
                        ap ok (sym kept),
                        refl,
                        refl,
                        ap (λ c. save package_key (settled_package c p) d.packages) (sym kept),
                      )))))))
    where
      k'≡k : (k' : ℕ) → b.package_id ≡ some k' → k' ≡ k
      k'≡k k' e = ground (arith, own, e)

  module _ (c : Bool) (e f : Db) (bookings : f.bookings ≡ d.bookings)
      (packages : f.packages ≡ e.packages) where
    -- The last writes return the canceled booking.
    record_cancellation-Writes :
        Ends
          (λ r d'.
            (r ≡ ok (canceled_at_now (env.clock 0) reason c b))
            × (d'.bookings ≡ save booking_key (canceled_at_now (env.clock 0) reason c b) d.bookings)
            × (d'.packages ≡ e.packages))
          (record_cancellation env b reason c actor)
          f
    unfolding record_cancellation
    record_cancellation-Writes = Ends-modify _ _ (
        Ends-modify _ _ (
          Ends-if_bind (is_admin actor.role) _ _ _
            (λ _. Ends-modify _ _ (
              last _ (ap (save booking_key (canceled_at_now (env.clock 0) reason c b)) bookings)
                packages))
            (λ _. Ends-pure_bind _ _ (
              last _ (ap (save booking_key (canceled_at_now (env.clock 0) reason c b)) bookings)
                packages))))
      where
        last :
            (g : Db)
            → g.bookings ≡ save booking_key (canceled_at_now (env.clock 0) reason c b) d.bookings
            → g.packages ≡ e.packages
            → Ends
                (λ r d'.
                  (r ≡ ok (canceled_at_now (env.clock 0) reason c b))
                  × (d'.bookings
                      ≡ save booking_key (canceled_at_now (env.clock 0) reason c b) d.bookings)
                  × (d'.packages ≡ e.packages))
                (cancel_lesson_for_booking env (canceled_at_now (env.clock 0) reason c b) reason
                  >>= λ _. pure (canceled_at_now (env.clock 0) reason c b))
                g
        last g gb gp =
            Ends-bind _ _ _ (cancel_lesson_runs env _ g reason)
              (λ x d' q. absurd (ground (arith, q)))
              (λ _ d' q. Ends-pure _ (refl, q.1.bookings ∙ gb, q.1.packages ∙ gp))

  place_cancellation-Canceled :
      (r : Bool) (e : Db)
      → Paid (ok r) e
      → Ends
          (Canceled cfg (env.clock 0) reason b s p d)
          (place_cancellation env b s reason r actor)
          e
  unfolding place_cancellation
  place_cancellation-Canceled r e q =
      Ends-if_bind (ltb (env.clock 0) s.start_at) _ _ _
        (λ _.
          Ends-assoc _ _ _ _ (Ends-set_slot_status _ _ _ (Ends-pure_bind _ _ (finish _ q.2 refl))))
        (λ _. Ends-pure_bind _ _ (finish _ q.2 refl))
    where
      same : r ≡ refunds cfg (env.clock 0) s
      same = Ok-injective r (refunds cfg (env.clock 0) s) q.0

      finish :
          (f : Db)
          → f.bookings ≡ d.bookings
          → f.packages ≡ e.packages
          → Ends
              (Canceled cfg (env.clock 0) reason b s p d)
              (record_cancellation env b reason r actor)
              f
      finish f fb' fp' =
          Ends-mono _ _ _
            (λ o d' h. (
              h.0 ∙ ap (λ c. ok (canceled_at_now (env.clock 0) reason c b)) same,
              h.1
                  ∙ ap (λ c. save booking_key (canceled_at_now (env.clock 0) reason c b) d.bookings)
                      same,
              h.2 ∙ q.3,
            ))
            (record_cancellation-Writes r e f fb' fp')

  -- A confirmed booking whose package has its reservation and meets its constraints, and whose slot
  -- exists, is canceled by one who may manage it: `cancel_booking` returns the canceled booking. If
  -- the slot starts later than the refund window from now, the refund is noted and the package has
  -- one reservation less; else there is none, and the package has one reservation and one lesson
  -- less.
  pub cancel_booking-Canceled :
      Ends (Canceled cfg (env.clock 0) reason b s p d) (cancel_booking cfg env id reason actor) d
  unfolding cancel_booking
  cancel_booking-Canceled = Ends-found _ _ _ b fb (
      Ends-pass _ _ _ (ground (arith, may)) (
        Ends-else (is_canceled b.status) _ _ (ground arith) (
          Ends-pass _ _ _ (ground arith) (
            Ends-assoc _ _ _ _ (
              Ends-found _ _ _ s fs (
                Ends-bind _ _ _ settle_package-Paid (λ x e q. absurd (ground (arith, q)))
                  place_cancellation-Canceled))))))
