-- ===== src/Booking/Ledger.antt =====
-- The reservation ledger.
use guitar_online.Base.{
  ℕ, ◌+◌, ◌≡◌, refl, Bool, false, ◌&&◌, none, some, List, ◌∷◌, arith, ◌==◌, mark, tally, ap,
  Bool-cases, inl, inr,
}
use guitar_online.Base.Table.{find, save, find-save_self, find-save_ne, tally-save}
use guitar_online.Store.BookingStatus.{is_confirmed}
use guitar_online.Store.Enums.{BookingStatusEnum}
use guitar_online.Store.Rows.{Booking, LessonPackage, booking_key, package_key}
use guitar_online.Store.Session.{Db}
use guitar_online.Booking.Machine.{
  Settles, unreserved, released, consumed, none_due, settled, Step, stay, hold, confirm, expire,
  cancel, link, Reach, here, next,
}

-- A confirmed booking holds one reservation of its package.
abbrev pub reserves : ℕ → Booking → Bool
reserves package_id b =
    elim b.package_id [ none ↦ false | some p ↦ p == package_id ] && is_confirmed b.status

abbrev pub IsLedger : List LessonPackage → List Booking → Type 0
IsLedger ps bs =
    (k : ℕ) (p : LessonPackage)
    → find package_key k ps ≡ some p
    → p.lessons_reserved ≡ tally (reserves k) bs

-- A booking that changes without taking or giving up a reservation.
pub IsLedger-same :
    (ps : List LessonPackage) (bs : List Booking) (b b' : Booking)
    → find booking_key b'.id bs ≡ some b
    → ((k : ℕ) → reserves k b' ≡ reserves k b)
    → IsLedger ps bs
    → IsLedger ps (save booking_key b' bs)
IsLedger-same ps bs b b' found same h k p e =
    omega (arith, h k p e, tally-save booking_key (reserves k) b' b bs found, ap mark (same k))

-- A package and one of its bookings that change together.
pub IsLedger-move :
    (ps : List LessonPackage) (bs : List Booking) (p p' : LessonPackage) (b b' : Booking)
    → find package_key p'.id ps ≡ some p
    → find booking_key b'.id bs ≡ some b
    → b.package_id ≡ some p'.id
    → b'.package_id ≡ some p'.id
    → p'.lessons_reserved + mark (is_confirmed b.status)
      ≡ p.lessons_reserved + mark (is_confirmed b'.status)
    → IsLedger ps bs
    → IsLedger (save package_key p' ps) (save booking_key b' bs)
IsLedger-move ps bs p p' b b' fp fb own own' bal h k q e = elim (Bool-cases (p'.id == k)) [
  | inl hit ↦ ground (
    arith,
    h k p,
    find-save_self package_key p' p ps fp,
    tally-save booking_key (reserves k) b' b bs fb,
  )
  | inr miss ↦ ground (
    arith,
    h k q,
    find-save_ne package_key k p' ps,
    tally-save booking_key (reserves k) b' b bs fb,
  )
]

-- A new booking that holds no reservation.
IsLedger-cons :
    (ps : List LessonPackage) (bs : List Booking) (b : Booking)
    → is_confirmed b.status ≡ false
    → IsLedger ps bs
    → IsLedger ps (b ∷ bs)
unfolding tally
IsLedger-cons ps bs b idle h k p e = ground (arith, h k p e)

Settles-IsLedger :
    (p : LessonPackage) (b b' : Booking) (refund : Bool) (ps ps' : List LessonPackage)
    (bs : List Booking)
    → find package_key p.id ps ≡ some p
    → find booking_key b'.id bs ≡ some b
    → b.status ≡ BookingStatusEnum.confirmed
    → b.package_id ≡ some p.id
    → b'.package_id ≡ some p.id
    → b'.status ≡ BookingStatusEnum.canceled
    → Settles p refund ps ps'
    → IsLedger ps bs
    → IsLedger ps' (save booking_key b' bs)
Settles-IsLedger p b b' refund ps ps' bs fp fb on own own' off (unreserved z e) h =
    λ k q f. ground (arith, h p.id p fp, tally-save booking_key (reserves p.id) b' b bs fb)
Settles-IsLedger p b b' refund ps ps' bs fp fb on own own' off (released _ some_left e) h =
    rw e (IsLedger-move ps bs p _ b b' fp fb own own' (ground arith) h)
Settles-IsLedger p b b' refund ps ps' bs fp fb on own own' off (consumed _ some_left _ e) h =
    rw e (IsLedger-move ps bs p _ b b' fp fb own own' (ground arith) h)

Step-IsLedger :
    {d d' : Db} → Step d d' → IsLedger d.packages d.bookings → IsLedger d'.packages d'.bookings
Step-IsLedger (stay _ e f) h = rw (e, f) h
Step-IsLedger {d} (hold s c _ b p _ _ alone _ _ _ _ _ _ on _ _ e f) h =
    rw (e, f) (IsLedger-cons d.packages d.bookings b (ground arith) h)
Step-IsLedger {d} (confirm now b _ p fb on _ own fp _ _ e f) h =
    rw (e, f) (IsLedger-move d.packages d.bookings p _ b _ fp fb own own (ground arith) h)
Step-IsLedger {d} (expire b _ _ fb on _ _ e f) h =
    rw (e, f) (IsLedger-same d.packages d.bookings b _ fb (λ k. ground arith) h)
Step-IsLedger {d} (cancel now reason refund b _ fb _ _ _ e (none_due idle _ f)) h =
    rw (e, f) (IsLedger-same d.packages d.bookings b _ fb (λ k. ground arith) h)
Step-IsLedger {d} {d'} (cancel now reason refund b _ fb _ _ _ e (settled p on own fp settles)) h =
    rw e (
      Settles-IsLedger p b _ refund d.packages d'.packages d.bookings fp fb on own own refl settles
        h)
Step-IsLedger {d} (link b _ fb _ e f) h =
    rw (e, f) (IsLedger-same d.packages d.bookings b _ fb (λ k. refl) h)

-- Whatever the methods of `BookingService` do, one after another, they keep the count of reserved
-- lessons of each package equal to the number of its confirmed bookings.
pub Reach-IsLedger :
    {d d' : Db} → Reach d d' → IsLedger d.packages d.bookings → IsLedger d'.packages d'.bookings
Reach-IsLedger here h = h
Reach-IsLedger (next r s) h = Step-IsLedger s (Reach-IsLedger r h)
