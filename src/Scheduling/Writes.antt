-- ===== src/Scheduling/Writes.antt =====
-- The rules for `set_slot_status` and the split of a slot along a `do` block.
use guitar_online.Base.{ℕ, ◌≡◌, inl, inr, Bool-cases, List, [], ◌∷◌, ◌++◌, ltb, if◌then◌else◌}
use guitar_online.Base.Table.{save}
use guitar_online.Store.Enums.{SlotStatusEnum}
use guitar_online.Store.Rows.{AvailabilitySlot, slot_key}
use guitar_online.Store.Session.{Db, Result, ok, Exec, ◌>>=◌}
use guitar_online.Store.Ends.{Ends, Ends-assoc, Ends-modify, Ends-pure_bind}
use guitar_online.Scheduling.Repository.{
  with_slot_status, set_slot_status, new_slot, split_open_slot_for_booking,
}

-- The state after the flush of a slot.
abbrev pub with_slot : AvailabilitySlot → Db → Db
with_slot s d = record d { slots = save slot_key s d.slots }

module _ {B : Type 0} {P : Result B → Db → Type 0} {d : Db} where
  pub Ends-set_slot_status :
      (s : AvailabilitySlot) (st : SlotStatusEnum) (k : AvailabilitySlot → Exec B)
      → Ends P (k (with_slot_status s st)) (with_slot (with_slot_status s st) d)
      → Ends P (set_slot_status s st >>= k) d
  unfolding set_slot_status
  Ends-set_slot_status s st k h = Ends-assoc _ _ _ _ (Ends-modify _ _ (Ends-pure_bind _ _ h))

-- The slots that a split adds: what is left of the whole slot before and behind the interval.
abbrev pub left_piece : ℕ → AvailabilitySlot → ℕ → List AvailabilitySlot
left_piece id s start =
    if ltb s.start_at start
    then new_slot id s.teacher_id s.created_by_admin_id s.start_at start ∷ []
    else []

abbrev pub right_piece : ℕ → AvailabilitySlot → ℕ → List AvailabilitySlot
right_piece id s end =
    if ltb end s.end_at
    then new_slot id s.teacher_id s.created_by_admin_id end s.end_at ∷ []
    else []

-- The slot, cut to the interval.
abbrev pub cut : AvailabilitySlot → ℕ → ℕ → AvailabilitySlot
cut s start end = record s { start_at = start; end_at = end }

-- The state after a split, whose pieces are OPEN.
abbrev pub with_split : ℕ → ℕ → AvailabilitySlot → ℕ → ℕ → Db → Db
with_split left_id right_id s start end d = record d {
  slots =
      save slot_key (cut s start end)
        (right_piece right_id s end ++ (left_piece left_id s start ++ d.slots));
}

pub split_lem :
    (left_id right_id : ℕ) (s : AvailabilitySlot) (start end : ℕ) (d : Db)
    → split_open_slot_for_booking left_id right_id s start end d
      ≡ (ok (cut s start end), with_split left_id right_id s start end d)
unfolding split_open_slot_for_booking ◌>>=◌
split_lem left_id right_id s start end d = elim (Bool-cases (ltb s.start_at start)) [
  | inl l ↦ elim (Bool-cases (ltb end s.end_at)) [ inl r ↦ simp (l, r) | inr r ↦ simp (l, r) ]
  | inr l ↦ elim (Bool-cases (ltb end s.end_at)) [ inl r ↦ simp (l, r) | inr r ↦ simp (l, r) ]
]
