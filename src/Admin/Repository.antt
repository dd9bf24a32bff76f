-- ===== src/Admin/Repository.antt =====
-- app/modules/admin/repository.py: users, their teacher profiles, and slots.
use guitar_online.Base.{
  ℕ, Bool, true, false, not, ◌||◌, Option, none, some, ◌∷◌, String, ltb, ◌==◌, select, tally,
  if◌then◌else◌,
}
use guitar_online.Base.Table.{find, save}
use guitar_online.Store.Enums.{RoleEnum, SlotStatusEnum, TeacherStatusEnum, is_teacher}
use guitar_online.Store.Rows.{
  User, TeacherProfile, AvailabilitySlot, Booking, user_key, profile_key, slot_key,
}
use guitar_online.Store.Events.{
  admin_user_role_change, admin_user_active, admin_teacher_disable, admin_slot_delete,
  admin_slot_block,
}
use guitar_online.Store.Session.{
  Env, Exec, pure, gets, modify, if_found, create_audit_log, ◌>>=◌, ◌>>◌,
}
use guitar_online.Identity.Repository.{save_user}

-- `user.teacher_profile`, for a user's key.
abbrev pub teacher_profile : ℕ → Exec (Option TeacherProfile)
teacher_profile user_id = gets λ d. find profile_key user_id d.teacher_profiles

abbrev pub add_profile : TeacherProfile → Exec (Unit {0})
add_profile p = modify λ d. record d { teacher_profiles = p ∷ d.teacher_profiles }

abbrev pub save_profile : TeacherProfile → Exec (Unit {0})
save_profile p = modify λ d. record d { teacher_profiles = save profile_key p d.teacher_profiles }

abbrev pub resolve_teacher_profile_status : User → TeacherStatusEnum
resolve_teacher_profile_status user =
    if not (is_teacher user.role) || not user.is_active
    then TeacherStatusEnum.disabled
    else TeacherStatusEnum.active

-- `display_name` is `_default_teacher_display_name` of the email.
abbrev pub new_profile : ℕ → ℕ → String → TeacherProfile
new_profile id user_id display_name = record {
  id = id;
  user_id = user_id;
  display_name = display_name;
  bio = "";
  experience_years = 0;
  status = TeacherStatusEnum.active;
}

-- A profile under a new status.
abbrev pub under : TeacherStatusEnum → TeacherProfile → TeacherProfile
under status p = record p { status = status }

-- The profile's status before the call, and its status after it; and whether the profile is new.
pub record Sync : Type 0 where
  pub previous_status : Option TeacherStatusEnum
  pub status : Option TeacherStatusEnum
  pub profile_created : Bool

-- A profile that is there.
abbrev pub sync_found : User → TeacherProfile → Exec Sync
sync_found user p = do
  let status =
      if is_teacher user.role
      then resolve_teacher_profile_status user
      else TeacherStatusEnum.disabled
  save_profile (under status p)
  pure (record { previous_status = some p.status; status = some status; profile_created = false })

-- No profile.
abbrev pub sync_missing : (String → String) → ℕ → User → Bool → Exec Sync
sync_missing display_name id user create_if_missing =
    if is_teacher user.role
    then (if create_if_missing
        then (do
          let p = new_profile id user.id (display_name user.email)
          add_profile p
          save_profile (under (resolve_teacher_profile_status user) p)
          pure (record {
            previous_status = none;
            status = some (resolve_teacher_profile_status user);
            profile_created = true;
          }))
        else pure (record { previous_status = none; status = none; profile_created = false }))
    else pure (record { previous_status = none; status = none; profile_created = false })

unfoldable pub sync_teacher_profile_state : (String → String) → ℕ → User → Bool → Exec Sync
sync_teacher_profile_state display_name id user create_if_missing = do
  profile ← teacher_profile user.id
  if_found profile (sync_missing display_name id user create_if_missing) (sync_found user)

abbrev pub with_role : RoleEnum → User → User
with_role role u = record u { role = role }

unfoldable pub set_user_role : (String → String) → Env → User → RoleEnum → ℕ → Exec User
set_user_role display_name env user role admin_id = do
  save_user (with_role role user)
  sync ← sync_teacher_profile_state display_name (env.uuid4 0) (with_role role user) true
  create_audit_log (some admin_id) (
      admin_user_role_change user.id user.role role sync.profile_created sync.previous_status
        sync.status)
  pure (with_role role user)

abbrev pub with_active : Bool → User → User
with_active is_active u = record u { is_active = is_active }

unfoldable pub set_user_active : (String → String) → Env → User → Bool → ℕ → Exec User
set_user_active display_name env user is_active admin_id = do
  save_user (with_active is_active user)
  sync ← sync_teacher_profile_state display_name (env.uuid4 0) (with_active is_active user) false
  create_audit_log (some admin_id) (
      admin_user_active user.id user.role user.is_active is_active sync.previous_status sync.status)
  pure (with_active is_active user)

-- The join of a profile with its user, who must be a teacher.
abbrev pub teacher_of : Option TeacherProfile → Option User → Option (TeacherProfile × User)
teacher_of none u = none
teacher_of (some p) none = none
teacher_of (some p) (some u) = if is_teacher u.role then some (p, u) else none

abbrev pub get_teacher_profile_by_user_id : ℕ → Exec (Option (TeacherProfile × User))
get_teacher_profile_by_user_id teacher_id = gets λ d.
    teacher_of (find profile_key teacher_id d.teacher_profiles) (find user_key teacher_id d.users)

abbrev pub disable_found : ℕ → TeacherProfile × User → Exec (Option TeacherProfile)
disable_found admin_id (p, u) = do
  save_profile (under TeacherStatusEnum.disabled p)
  save_user (with_active false u)
  create_audit_log (some admin_id) (admin_teacher_disable p.user_id p.status u.is_active)
  pure (some (under TeacherStatusEnum.disabled p))

unfoldable pub disable_teacher : ℕ → ℕ → Exec (Option TeacherProfile)
disable_teacher teacher_id admin_id = do
  found ← get_teacher_profile_by_user_id teacher_id
  if_found found (pure none) (disable_found admin_id)

abbrev pub on_slot : ℕ → Booking → Bool
on_slot slot_id b = b.slot_id == slot_id

abbrev pub slot_has_bookings : ℕ → Exec Bool
slot_has_bookings slot_id = gets λ d. ltb 0 (tally (on_slot slot_id) d.bookings)

abbrev pub other_slot : ℕ → AvailabilitySlot → Bool
other_slot id s = not (s.id == id)

abbrev pub delete_slot : AvailabilitySlot → ℕ → Exec (Unit {0})
delete_slot slot admin_id = do
  create_audit_log (some admin_id)
      (admin_slot_delete slot.id slot.teacher_id slot.start_at slot.end_at slot.status)
  modify λ d. record d { slots = select (other_slot slot.id) d.slots }

abbrev pub blocked : AvailabilitySlot → String → ℕ → ℕ → AvailabilitySlot
blocked slot reason admin_id blocked_at = record slot {
  status = SlotStatusEnum.blocked;
  block_reason = some reason;
  blocked_at = some blocked_at;
  blocked_by_admin_id = some admin_id;
}

abbrev pub block_slot : AvailabilitySlot → String → ℕ → ℕ → Exec AvailabilitySlot
block_slot slot reason admin_id blocked_at = do
  modify λ d. record d { slots = save slot_key (blocked slot reason admin_id blocked_at) d.slots }
  create_audit_log (some admin_id)
      (admin_slot_block slot.id slot.teacher_id slot.status reason blocked_at)
  pure (blocked slot reason admin_id blocked_at)
