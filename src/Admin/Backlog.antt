-- ===== src/Admin/Backlog.antt =====
-- The operations overview counts what the sweeps will do.
use guitar_online.Base.{
  ℕ, ◌≡◌, refl, sym, ap, ◌∙◌, inl, inr, false, Bool, List, [], ◌∷◌, map, arith, tally, length,
  select, All, Bool-cases, if◌then◌else◌,
}
use guitar_online.Base.Table.{IsKeyed}
use guitar_online.Store.Rows.{Booking, booking_key}
use guitar_online.Store.Session.{Db, Env, Result, ok}
use guitar_online.Store.Ends.{Ends, Ends-mono}
use guitar_online.Booking.Repository.{hold_is_stale}
use guitar_online.Booking.Service.Expire.{expired_hold, expire_holds_system}
use guitar_online.Booking.Machine.Expire.{HasSlot, IsSweep, expire_holds_system-IsSweep}
use guitar_online.Admin.Overview.{get_operations_overview}

tally-select : {A : Type 0} (p : A → Bool) (xs : List A) → tally p xs ≡ length (select p xs)
unfolding tally
tally-select p [] = refl
tally-select p (x ∷ xs) = ground (arith, tally-select p xs)

-- What is changed where a test passes passes it no more.
tally-change :
    {A : Type 0} (f : A → A) (p : A → Bool) (xs : List A)
    → ((x : A) → p (f x) ≡ false)
    → tally p (map (λ x. if p x then f x else x) xs) ≡ 0
unfolding tally
tally-change f p [] gone = refl
tally-change f p (x ∷ xs) gone = elim (Bool-cases (p x)) [
  | inl hit ↦ rw hit (ground (arith, gone x, tally-change f p xs gone))
  | inr miss ↦ rw (miss, miss) (tally-change f p xs gone)
]

expired_fresh : (now : ℕ) (b : Booking) → hold_is_stale now (expired_hold b) ≡ false
expired_fresh now b = ground arith

-- The backlog of stale holds, before the sweep and after it.
abbrev pub IsCleared : ℕ → ℕ → Db → Result ℕ → Db → Type 0
IsCleared max_retries now d r d' =
    (r ≡ ok (get_operations_overview max_retries now d).stale_booking_holds)
    × ((get_operations_overview max_retries now d').stale_booking_holds ≡ 0)

Sweep-IsCleared :
    (max_retries now : ℕ) (d d' : Db) (r : Result ℕ)
    → IsSweep now d r d'
    → IsCleared max_retries now d r d'
unfolding get_operations_overview
Sweep-IsCleared max_retries now d d' r h = (
  h.0 ∙ ap ok (sym (tally-select (hold_is_stale now) d.bookings)),
  rw h.1 (tally-change expired_hold (hold_is_stale now) d.bookings (expired_fresh now)),
)

-- If the bookings' keys are distinct and each stale hold has its slot, the expiry sweep returns the number of stale holds that the
-- operations overview shows at its time, and then the overview shows none.
pub expire_holds_system-IsCleared :
    (env : Env) (max_retries : ℕ) (d : Db)
    → IsKeyed booking_key d.bookings
    → All (HasSlot d) (select (hold_is_stale (env.clock 0)) d.bookings)
    → Ends (IsCleared max_retries (env.clock 0) d) (expire_holds_system env) d
expire_holds_system-IsCleared env max_retries d keyed slots =
    Ends-mono _ _ _ (λ r d'. Sweep-IsCleared max_retries (env.clock 0) d d' r)
      (expire_holds_system-IsSweep env d keyed slots)
