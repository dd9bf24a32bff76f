-- ===== src/Scheduling/Repository.antt =====
-- app/modules/scheduling/repository.py: the queries and writes over `availability_slots`.
use guitar_online.Base.{
  ℕ, Bool, ◌&&◌, Option, none, some, List, [], ◌∷◌, ltb, leb, ◌==◌, if◌then◌else◌, select,
}
use guitar_online.Base.Table.{find, save}
use guitar_online.Store.Enums.{SlotStatusEnum, is_blocked}
use guitar_online.Store.Rows.{AvailabilitySlot, slot_key}
use guitar_online.Store.Session.{Exec, pure, gets, modify, ◌>>◌}

abbrev pub get_slot_by_id : ℕ → Exec (Option AvailabilitySlot)
get_slot_by_id id = gets λ d. find slot_key id d.slots

-- The row lock does not change the data.
abbrev pub get_slot_by_id_for_update : ℕ → Exec (Option AvailabilitySlot)
get_slot_by_id_for_update id = gets λ d. find slot_key id d.slots

abbrev pub add_slot : AvailabilitySlot → Exec (Unit {0})
add_slot s = modify λ d. record d { slots = s ∷ d.slots }

abbrev pub save_slot : AvailabilitySlot → Exec (Unit {0})
save_slot s = modify λ d. record d { slots = save slot_key s d.slots }

abbrev pub new_slot : ℕ → ℕ → ℕ → ℕ → ℕ → AvailabilitySlot
new_slot id teacher_id admin_id start_at end_at = record {
  id = id;
  teacher_id = teacher_id;
  created_by_admin_id = admin_id;
  start_at = start_at;
  end_at = end_at;
  status = SlotStatusEnum.open_slot;
  block_reason = none;
  blocked_at = none;
  blocked_by_admin_id = none;
}

-- The arguments of the source, behind the new row's key.
abbrev pub create_slot : ℕ → ℕ → ℕ → ℕ → ℕ → Exec AvailabilitySlot
create_slot id teacher_id admin_id start_at end_at = do
  let slot = new_slot id teacher_id admin_id start_at end_at
  add_slot slot
  pure slot

-- The WHERE of `find_overlapping_slot`.
abbrev pub overlaps : ℕ → ℕ → ℕ → AvailabilitySlot → Bool
overlaps teacher_id start_at end_at s =
    s.teacher_id == teacher_id && ltb s.start_at end_at && ltb start_at s.end_at

-- ORDER BY start_at LIMIT 1
unfoldable pub earliest : List AvailabilitySlot → Option AvailabilitySlot
earliest [] = none
earliest (s ∷ rest) = elim (earliest rest) [
  | none ↦ some s
  | some t ↦ if leb s.start_at t.start_at then some s else some t
]

unfoldable pub find_overlapping_slot : ℕ → ℕ → ℕ → Exec (Option AvailabilitySlot)
find_overlapping_slot teacher_id start_at end_at =
    gets λ d. earliest (select (overlaps teacher_id start_at end_at) d.slots)

-- Split an OPEN slot into [left OPEN] + [booking interval] + [right OPEN]; the first two arguments
-- are the keys of the pieces that are added.
unfoldable pub split_open_slot_for_booking :
    ℕ → ℕ → AvailabilitySlot → ℕ → ℕ → Exec AvailabilitySlot
split_open_slot_for_booking left_id right_id slot booking_start_at booking_end_at = do
  if ltb slot.start_at booking_start_at
      then add_slot
          (new_slot left_id slot.teacher_id slot.created_by_admin_id slot.start_at booking_start_at)
      else pure tt
  if ltb booking_end_at slot.end_at
      then add_slot
          (new_slot right_id slot.teacher_id slot.created_by_admin_id booking_end_at slot.end_at)
      else pure tt
  let cut = record slot { start_at = booking_start_at; end_at = booking_end_at }
  save_slot cut
  pure cut

-- A slot under a new status; leaving BLOCKED clears the block's fields.
abbrev pub with_slot_status : AvailabilitySlot → SlotStatusEnum → AvailabilitySlot
with_slot_status slot status =
    if is_blocked status then record slot { status = status } else record slot {
      status = status;
      block_reason = none;
      blocked_at = none;
      blocked_by_admin_id = none;
    }

unfoldable pub set_slot_status : AvailabilitySlot → SlotStatusEnum → Exec AvailabilitySlot
set_slot_status slot status = do
  save_slot (with_slot_status slot status)
  pure (with_slot_status slot status)
