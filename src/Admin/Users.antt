-- ===== src/Admin/Users.antt =====
-- `AdminService` (app/modules/admin/service.py): roles and activation.
use text.Mathlib.Text.{◌==◌ as same_text}
use guitar_online.Base.{
  ℕ, Bool, true, false, not, ◌&&◌, ◌||◌, Option, none, some, List, [], ◌∷◌, String, ◌==◌,
  if◌then◌else◌,
}
use guitar_online.Store.Enums.{RoleEnum, TeacherStatusEnum, is_admin, is_teacher}
use guitar_online.Store.Rows.{User, TeacherProfile}
use guitar_online.Store.Settings.{AuthSettings}
use guitar_online.Store.Session.{
  Env, Exec, unauthorized, not_found, conflict, pure, or_raise, raise_if, ◌>>=◌, ◌>>◌,
}
use guitar_online.Store.Text.{Str}
use guitar_online.Identity.Repository.{same_role, get_role_by_name, get_user_by_id}
use guitar_online.Admin.Repository.{teacher_profile, set_user_role, set_user_active}
use guitar_online.Admin.Repository

abbrev pub any_text : String → List String → Bool
any_text s [] = false
any_text s (t ∷ ts) = let rest = any_text s ts in if same_text s t then true else rest

abbrev pub can_manage_admin_roles : AuthSettings → Str → User → Bool
can_manage_admin_roles cfg text actor =
    any_text (text.lower (text.strip actor.email)) cfg.admin_role_manager_emails

abbrev pub is_admin_role_change : User → RoleEnum → Bool
is_admin_role_change target_user next_role = is_admin target_user.role || is_admin next_role

abbrev pub is_active_status : TeacherStatusEnum → Bool
is_active_status TeacherStatusEnum.active = true
is_active_status _ = false

abbrev pub has_active_profile : Option TeacherProfile → Bool
has_active_profile none = false
has_active_profile (some p) = is_active_status p.status

-- The two early returns: nothing is left to change.
abbrev pub is_settled : User → RoleEnum → Option TeacherProfile → Bool
is_settled target_user role profile =
    (same_role target_user.role role && not (is_teacher role))
    || (same_role target_user.role role
        && (is_teacher role && (target_user.is_active && has_active_profile profile)))

-- `display_name` stands for `_default_teacher_display_name`.
module _ (display_name : String → String) where
  unfoldable pub update_user_role : AuthSettings → Str → Env → User → ℕ → RoleEnum → Exec User
  update_user_role cfg text env actor user_id next_role = do
    raise_if (not (is_admin actor.role)) (unauthorized "Only admin can change user roles")
    known ← get_role_by_name next_role
    role ← or_raise known (not_found "Role not found")
    found ← get_user_by_id user_id
    target_user ← or_raise found (not_found "User not found")
    raise_if (target_user.id == actor.id) (conflict "Admin cannot change own role")
    raise_if
        (is_admin_role_change target_user next_role && not (can_manage_admin_roles cfg text actor))
        (unauthorized "Only privileged admin can manage admin roles")
    profile ← teacher_profile target_user.id
    if is_settled target_user next_role profile
        then pure target_user
        else set_user_role display_name env target_user role actor.id

  unfoldable pub activate_user : Env → User → ℕ → Exec User
  activate_user env actor user_id = do
    raise_if (not (is_admin actor.role)) (unauthorized "Only admin can activate users")
    found ← get_user_by_id user_id
    target_user ← or_raise found (not_found "User not found")
    set_user_active display_name env target_user true actor.id

  unfoldable pub deactivate_user : Env → User → ℕ → Exec User
  deactivate_user env actor user_id = do
    raise_if (not (is_admin actor.role)) (unauthorized "Only admin can deactivate users")
    found ← get_user_by_id user_id
    target_user ← or_raise found (not_found "User not found")
    raise_if (target_user.id == actor.id) (conflict "Admin cannot deactivate own account")
    set_user_active display_name env target_user false actor.id

unfoldable pub disable_teacher : User → ℕ → Exec TeacherProfile
disable_teacher actor teacher_id = do
  raise_if (not (is_admin actor.role)) (unauthorized "Only admin can disable teachers")
  item ← Repository.disable_teacher teacher_id actor.id
  or_raise item (not_found "Teacher profile not found")
