-- ===== src/Scheduling/Service.antt =====
-- `SchedulingService.create_slot` (app/modules/scheduling/service.py)
use guitar_online.Base.{ℕ, ◌-◌, ◌/◌, Bool, true, false, not, Option, none, some, leb, ltb}
use guitar_online.Store.Enums.{is_admin}
use guitar_online.Store.Rows.{User, AvailabilitySlot, minute}
use guitar_online.Store.Events.{admin_slot_create}
use guitar_online.Store.Settings.{Settings}
use guitar_online.Store.Session.{
  Env, Exec, business, unauthorized, pure, raise_if, create_audit_log, ◌>>=◌, ◌>>◌,
}
use guitar_online.Scheduling.Repository.{find_overlapping_slot}
use guitar_online.Scheduling.Repository

-- SlotCreate
pub record SlotCreate : Type 0 where
  pub teacher_id : ℕ
  pub start_at : ℕ
  pub end_at : ℕ

abbrev pub is_some : Option AvailabilitySlot → Bool
is_some none = false
is_some (some s) = true

unfoldable pub create_slot : Settings → Env → SlotCreate → User → Exec AvailabilitySlot
create_slot cfg env payload actor = do
  raise_if (not (is_admin actor.role)) (unauthorized "Only admin can create slots")
  raise_if (leb payload.end_at payload.start_at) (business "Slot end_at must be after start_at")
  raise_if (leb payload.start_at (env.clock 0)) (business "Slot start_at must be in the future")
  raise_if (ltb ((payload.end_at - payload.start_at) / minute) cfg.slot_min_duration_minutes)
      (business "Slot duration must be at least {settings.slot_min_duration_minutes} minutes")
  overlapping_slot ← find_overlapping_slot payload.teacher_id payload.start_at payload.end_at
  raise_if (is_some overlapping_slot)
      (business "Slot overlaps with an existing slot for this teacher")
  slot ←
      Repository.create_slot (env.uuid4 0) payload.teacher_id actor.id payload.start_at
        payload.end_at
  create_audit_log (some actor.id)
      (admin_slot_create slot.id slot.teacher_id slot.start_at slot.end_at)
  pure slot
