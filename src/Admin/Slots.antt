-- ===== src/Admin/Slots.antt =====
-- `AdminService.delete_slot` and `block_slot` (app/modules/admin/service.py).
use guitar_online.Base.{
  ℕ, ◌≡◌, ◌≢◌, refl, sym, ◌∙◌, inl, inr, false, not, none, List, [], ◌∷◌, String, arith, ltb,
  select, tally, All, Bool-cases, ==→ne,
}
use guitar_online.Base.Table.{find, key-find}
use guitar_online.Store.Enums.{is_admin}
use guitar_online.Store.Rows.{User, AvailabilitySlot, Booking, slot_key}
use guitar_online.Store.Session.{
  Db, Env, Result, ok, err, Exec, unauthorized, not_found, conflict, or_raise, raise_if, ◌>>=◌,
  ◌>>◌,
}
use guitar_online.Store.Ends.{
  Ends, Ends-gets, Ends-or_raise, Ends-raise_if, Ends-modify, Ends-modify_last,
}
use guitar_online.Scheduling.Repository.{get_slot_by_id}
use guitar_online.Admin.Repository
use guitar_online.Admin.Repository.{on_slot, other_slot, slot_has_bookings}

unfoldable pub delete_slot : User → ℕ → Exec (Unit {0})
delete_slot actor slot_id = do
  raise_if (not (is_admin actor.role)) (unauthorized "Only admin can delete slots")
  found ← get_slot_by_id slot_id
  slot ← or_raise found (not_found "Slot not found")
  has_bookings ← slot_has_bookings slot_id
  raise_if has_bookings
      (conflict "Slot has related bookings; use POST /api/v1/admin/slots/{slot_id}/block")
  Repository.delete_slot slot actor.id

unfoldable pub block_slot : Env → User → ℕ → String → Exec AvailabilitySlot
block_slot env actor slot_id reason = do
  raise_if (not (is_admin actor.role)) (unauthorized "Only admin can block slots")
  found ← get_slot_by_id slot_id
  slot ← or_raise found (not_found "Slot not found")
  Repository.block_slot slot reason actor.id (env.clock 0)

-- The slot of a booking exists.
abbrev pub HasSlot : List AvailabilitySlot → Booking → Type 0
HasSlot slots b = find slot_key b.slot_id slots ≢ none

find-other :
    (id k : ℕ) (slots : List AvailabilitySlot)
    → id ≢ k
    → find slot_key k (select (other_slot id) slots) ≡ find slot_key k slots
unfolding find
find-other id k [] other = refl
find-other id k (s ∷ slots) other = ground (arith, find-other id k slots other)

find-deleted :
    (id : ℕ) (slots : List AvailabilitySlot)
    → find slot_key id (select (other_slot id) slots) ≡ none
unfolding find
find-deleted id [] = refl
find-deleted id (s ∷ slots) = ground (arith, find-deleted id slots)

unused-All :
    (id : ℕ) (bookings : List Booking)
    → ltb 0 (tally (on_slot id) bookings) ≡ false
    → All (λ b. id ≢ b.slot_id) bookings
unfolding tally
unused-All id [] h = tt
unused-All id (b ∷ bookings) h = elim (Bool-cases (on_slot id b)) [
  | inl hit ↦ absurd (ground (arith, h, hit))
  | inr miss ↦ (λ same. ==→ne _ _ miss (sym same), unused-All id bookings (ground (arith, h, miss)))
]

All-both :
    {A : Type 0} (P Q R : A → Type 0) (xs : List A)
    → ((x : A) → P x → Q x → R x)
    → All P xs
    → All Q xs
    → All R xs
All-both P Q R [] f p q = tt
All-both P Q R (x ∷ xs) f p q = (f x p.0 q.0, All-both P Q R xs f p.1 q.1)

-- What `delete_slot` leaves behind.
abbrev pub IsDeleted : ℕ → Db → Result (Unit {0}) → Db → Type 0
IsDeleted slot_id d (ok u) d' =
    (find slot_key slot_id d'.slots ≡ none)
    × ((k : ℕ) → slot_id ≢ k → find slot_key k d'.slots ≡ find slot_key k d.slots)
    × All (HasSlot d'.slots) d'.bookings
IsDeleted slot_id d (err e) d' = d' ≡ d

-- If each booking has its slot, the deletion of a slot raises and changes nothing, or the slot is gone,
-- every other slot is as it was, and still each booking has its slot.
pub delete_slot-IsDeleted :
    (actor : User) (slot_id : ℕ) (d : Db)
    → All (HasSlot d.slots) d.bookings
    → Ends (IsDeleted slot_id d) (delete_slot actor slot_id) d
unfolding delete_slot
delete_slot-IsDeleted actor slot_id d h =
    Ends-raise_if _ _ _ (λ _. refl)
      λ _. Ends-gets _ _ (
        Ends-or_raise _ _ _ (λ _. refl)
          λ slot found. Ends-gets _ _ (
            Ends-raise_if _ _ _ (λ _. refl)
              λ free.
                let same = key-find slot_key slot_id slot d.slots found in
                let others = λ (k : ℕ) (other : slot_id ≢ k).
                  find-other slot.id k d.slots (λ e. other (sym same ∙ e)) in
                Ends-modify _ _ (
                  Ends-modify_last _ (
                    rw same (find-deleted slot_id d.slots),
                    others,
                    All-both _ _ _ d.bookings
                        (λ b has other missing. has (sym (others b.slot_id other) ∙ missing)) h
                        (unused-All slot_id d.bookings free),
                  ))))
