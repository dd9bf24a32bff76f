-- ===== src/Booking/Exclusive.antt =====
-- A slot is never taken twice.
use guitar_online.Base.{
  ℕ, ◌≤◌, ◌≡◌, refl, ap, Bool, true, none, some, List, [], ◌∷◌, arith, tally, first_match,
}
use guitar_online.Base.Table.{find, save, tally-save}
use guitar_online.Store.BookingStatus.{is_active}
use guitar_online.Store.Rows.{Booking, booking_key}
use guitar_online.Store.Session.{Db}
use guitar_online.Booking.Repository.{is_active_on}
use guitar_online.Booking.Machine.{
  Step, stay, hold, confirm, expire, cancel, link, Reach, here, next,
}

-- At most one booking of a slot is on hold or confirmed.
abbrev pub IsExclusive : List Booking → Type 0
IsExclusive bs = (slot_id : ℕ) → tally (is_active_on slot_id) bs ≤ 1

tally-none : (p : Booking → Bool) (bs : List Booking) → first_match p bs ≡ none → tally p bs ≡ 0
unfolding first_match tally
tally-none p [] h = refl
tally-none p (b ∷ bs) h = ground (arith, tally-none p bs)

IsExclusive-cons :
    (b : Booking) (bs : List Booking)
    → first_match (is_active_on b.slot_id) bs ≡ none
    → IsExclusive bs
    → IsExclusive (b ∷ bs)
unfolding tally
IsExclusive-cons b bs free h k = ground (arith, h k, tally-none (is_active_on b.slot_id) bs free)

-- A booking that changes stays on its slot, and an inactive one does not become active.
IsExclusive-save :
    (b b' : Booking) (bs : List Booking)
    → find booking_key b'.id bs ≡ some b
    → b'.slot_id ≡ b.slot_id
    → (is_active b'.status ≡ true → is_active b.status ≡ true)
    → IsExclusive bs
    → IsExclusive (save booking_key b' bs)
IsExclusive-save b b' bs found own less h k =
    ground (arith, h k, tally-save booking_key (is_active_on k) b' b bs found)

Step-IsExclusive : {d d' : Db} → Step d d' → IsExclusive d.bookings → IsExclusive d'.bookings
Step-IsExclusive (stay _ e _) h = rw e h
Step-IsExclusive {d} (hold s c _ b _ _ _ alone _ _ _ _ _ own _ _ _ e _) h =
    rw e (IsExclusive-cons b d.bookings (rw own alone) h)
Step-IsExclusive {d} (confirm now b _ _ fb on _ _ _ _ _ e _) h =
    rw e (IsExclusive-save b _ d.bookings fb refl (λ _. ap is_active on) h)
Step-IsExclusive {d} (expire b _ _ fb on _ _ e _) h =
    rw e (IsExclusive-save b _ d.bookings fb refl (λ no. ground arith) h)
Step-IsExclusive {d} (cancel now reason refund b _ fb _ _ _ e _) h =
    rw e (IsExclusive-save b _ d.bookings fb refl (λ no. ground arith) h)
Step-IsExclusive {d} (link b _ fb _ e _) h =
    rw e (IsExclusive-save b _ d.bookings fb refl (λ same. same) h)

-- Whatever the methods of `BookingService` do, one after another, they keep each slot to at most
-- one booking that is on hold or confirmed.
pub Reach-IsExclusive : {d d' : Db} → Reach d d' → IsExclusive d.bookings → IsExclusive d'.bookings
Reach-IsExclusive here h = h
Reach-IsExclusive (next r s) h = Step-IsExclusive s (Reach-IsExclusive r h)
