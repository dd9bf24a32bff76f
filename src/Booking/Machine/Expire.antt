-- ===== src/Booking/Machine/Expire.antt =====
-- `expire_holds_system` takes steps of the machine, expires every stale hold and no other booking,
-- and returns their number.
use guitar_online.Base.{
  ℕ, suc, ◌≡◌, refl, ◌∙◌, ap, none, some, List, [], ◌∷◌, map, arith, length, select, All, All-map,
}
use guitar_online.Base.Table.{
  find, save, find-save_ne, find-save-some, IsKeyed, IsKeyed-select, IsSelected, select-IsSelected,
}
use guitar_online.Base.Saves.{saves, change, saves-select}
use guitar_online.Store.Enums.{SlotStatusEnum, BookingStatusEnum}
use guitar_online.Store.Rows.{User, AvailabilitySlot, Booking, slot_key, booking_key}
use guitar_online.Store.Session.{Db, Env, Result, ok, err}
use guitar_online.Store.Ends.{
  Ends, Ends-pure, Ends-gets, Ends-or_raise, Ends-raise_if, Ends-modify, Ends-bind, Ends-assoc,
  Ends-mono, Ends-modify_last,
}
use guitar_online.Scheduling.Repository.{with_slot_status}
use guitar_online.Scheduling.Writes.{Ends-set_slot_status}
use guitar_online.Booking.Repository.{hold_is_stale}
use guitar_online.Booking.Service.Expire.{
  expired_hold, expire_hold, expire_each, expire_holds_system, expire_holds,
}
use guitar_online.Booking.Machine.{Step, expire, Reach, Reaches, here, next}

abbrev pub HasSlot : Db → Booking → Type 0
HasSlot d b = (s : AvailabilitySlot) × (find slot_key b.slot_id d.slots ≡ some s)

-- What one round leaves behind; it raises only if the slot is missing.
abbrev Expired : Booking → Db → Result (Unit {0}) → Db → Type 0
Expired b d (err e) d' = (find slot_key b.slot_id d.slots ≡ none) × (d' ≡ d)
Expired b d (ok _) d' =
    (s : AvailabilitySlot) × (find slot_key b.slot_id d.slots ≡ some s)
    × (d'.slots ≡ save slot_key (with_slot_status s SlotStatusEnum.open_slot) d.slots)
    × (d'.bookings ≡ save booking_key (expired_hold b) d.bookings)
    × (d'.packages ≡ d.packages)

expire_hold-Expired :
    (env : Env) (k : ℕ) (b : Booking) (d : Db) → Ends (Expired b d) (expire_hold env k b) d
unfolding expire_hold
expire_hold-Expired env k b d = Ends-assoc _ _ _ _ (
    Ends-gets _ _ (
      Ends-or_raise _ _ _ (λ e. (e, refl))
        λ s fs.
          Ends-set_slot_status _ _ _
            (Ends-modify _ _ (Ends-modify_last _ (s, fs, refl, refl, refl)))))

-- A row that the loop has still to expire, as it was loaded and as it is stored.
abbrev IsPending : ℕ → Db → Booking → Type 0
IsPending now d = IsSelected booking_key (hold_is_stale now) d.bookings

Expired-Step :
    (now : ℕ) (b : Booking) (d d' : Db) → IsPending now d b → Expired b d (ok tt) d' → Step d d'
Expired-Step now b d d' h q = expire b none q.0 h.0 (ground arith) q.1 q.2 q.3 q.4

-- The rows left are not the one that was just saved.
IsPending-save :
    (now : ℕ) (b : Booking) (d d' : Db) (rest : List Booking)
    → find booking_key b.id rest ≡ none
    → d'.bookings ≡ save booking_key (expired_hold b) d.bookings
    → All (IsPending now d) rest
    → All (IsPending now d') rest
unfolding find
IsPending-save now b d d' [] fresh e h = tt
IsPending-save now b d d' (c ∷ rest) fresh e h = (
  (rw e (find-save_ne booking_key c.id (expired_hold b) d.bookings (ground arith) ∙ h.0.0), h.0.1),
  IsPending-save now b d d' rest (ground arith) e h.1,
)

expire_each-Reaches :
    (env : Env) (now k : ℕ) (holds : List Booking) (base d : Db)
    → Reach base d
    → IsKeyed booking_key holds
    → All (IsPending now d) holds
    → Ends (Reaches base) (expire_each env k holds) d
unfolding expire_each
expire_each-Reaches env now k [] base d r keyed pending = Ends-pure tt r
expire_each-Reaches env now k (b ∷ rest) base d r keyed pending =
    Ends-bind _ _ _ (expire_hold-Expired env k b d) (λ e d' q. rw q.1 r)
      λ a d' q.
        expire_each-Reaches env now (suc k) rest base d'
          (next r (Expired-Step now b d d' pending.0 q)) keyed.1
          (IsPending-save now b d d' rest keyed.0 q.3 pending.1)

-- Whether it returns or raises, the sweep takes steps of the machine.
pub expire_holds_system-Reaches :
    (env : Env) (d : Db)
    → IsKeyed booking_key d.bookings
    → Ends (Reaches d) (expire_holds_system env) d
unfolding expire_holds_system
expire_holds_system-Reaches env d keyed = Ends-gets _ _ (
    Ends-bind _ _ (Reaches d)
      (expire_each-Reaches env (env.clock 0) 0 (select (hold_is_stale (env.clock 0)) d.bookings) d d
        here (IsKeyed-select booking_key (hold_is_stale (env.clock 0)) d.bookings keyed)
        (select-IsSelected booking_key (hold_is_stale (env.clock 0)) d.bookings keyed))
      (λ e d' r. r) (λ a d' r. Ends-pure _ r))

-- A complete round of the loop over holds whose slots exist.
abbrev Swept : Db → List Booking → Result (Unit {0}) → Db → Type 0
Swept d holds (err e) d' = ⊥
Swept d holds (ok _) d' = d'.bookings ≡ saves booking_key (map expired_hold holds) d.bookings

HasSlot-save :
    (d d' : Db) (s : AvailabilitySlot) (rest : List Booking)
    → d'.slots ≡ save slot_key s d.slots
    → All (HasSlot d) rest
    → All (HasSlot d') rest
HasSlot-save d d' s rest e =
    All-map (HasSlot d) (HasSlot d') rest
      λ b h. rw e (find-save-some slot_key b.slot_id s h.0 d.slots h.1)

Swept-cons :
    (b : Booking) (rest : List Booking) (d d' e : Db) (r : Result (Unit {0}))
    → d'.bookings ≡ save booking_key (expired_hold b) d.bookings
    → Swept d' rest r e
    → Swept d (b ∷ rest) r e
unfolding saves
Swept-cons b rest d d' e (ok _) h sw = sw ∙ ap (saves booking_key (map expired_hold rest)) h
Swept-cons b rest d d' e (err _) h sw = sw

expire_each-Swept :
    (env : Env) (k : ℕ) (holds : List Booking) (d : Db)
    → All (HasSlot d) holds
    → Ends (Swept d holds) (expire_each env k holds) d
unfolding expire_each saves
expire_each-Swept env k [] d h = Ends-pure tt refl
expire_each-Swept env k (b ∷ rest) d h =
    Ends-bind _ _ _ (expire_hold-Expired env k b d) (λ e d' q. cc (q.0, h.0.1))
      λ a d' q.
        Ends-mono _ _ _ (λ r e. Swept-cons b rest d d' e r q.3)
          (expire_each-Swept env (suc k) rest d' (HasSlot-save d d' _ rest q.2 h.1))

-- A stale hold expires; any other booking stays as it is.
abbrev pub swept : ℕ → Booking → Booking
swept now =
    change booking_key
      (λ b. record b { status = BookingStatusEnum.expired; hold_expires_at = none }) (λ b. refl)
      (hold_is_stale now)

abbrev pub IsSweep : ℕ → Db → Result ℕ → Db → Type 0
IsSweep now d r d' =
    (r ≡ ok (length (select (hold_is_stale now) d.bookings)))
    × (d'.bookings ≡ map (swept now) d.bookings)

-- If the bookings' keys are distinct and each stale hold has its slot, the sweep returns the number of the stale holds; it has expired
-- those and left every other booking as it was.
pub expire_holds_system-IsSweep :
    (env : Env) (d : Db)
    → IsKeyed booking_key d.bookings
    → All (HasSlot d) (select (hold_is_stale (env.clock 0)) d.bookings)
    → Ends (IsSweep (env.clock 0) d) (expire_holds_system env) d
unfolding expire_holds_system
expire_holds_system-IsSweep env d keyed slots =
    let holds = select (hold_is_stale (env.clock 0)) d.bookings in
    Ends-gets _ _ (
      Ends-bind _ _ _ (expire_each-Swept env 0 holds d slots) (λ e d' no. absurd no)
        λ a d' q. Ends-pure _ (
          refl,
          q
              ∙ saves-select booking_key expired_hold (λ b. refl) (hold_is_stale (env.clock 0))
                  d.bookings keyed,
        ))

pub expire_holds-Reaches :
    (env : Env) (actor : User) (d : Db)
    → IsKeyed booking_key d.bookings
    → Ends (Reaches d) (expire_holds env actor) d
unfolding expire_holds
expire_holds-Reaches env actor d keyed =
    Ends-raise_if _ _ _ (λ _. here) λ _. expire_holds_system-Reaches env d keyed
