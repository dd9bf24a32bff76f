-- ===== src/Identity/Repository.antt =====
-- app/modules/identity/repository.py
use text.Mathlib.Text.{◌==◌ as same_text}
use guitar_online.Base.{ℕ, Bool, true, false, Option, none, some, ◌∷◌, String, first_match}
use guitar_online.Base.Table.{find, save}
use guitar_online.Store.Enums.{RoleEnum, is_admin, is_student, is_teacher}
use guitar_online.Store.Rows.{User, RefreshToken, user_key, token_key}
use guitar_online.Store.Session.{
  Exec, integrity, pure, gets, modify, raise_if, if_found, ◌>>=◌, ◌>>◌,
}

abbrev pub same_role : RoleEnum → RoleEnum → Bool
same_role RoleEnum.student r = is_student r
same_role RoleEnum.teacher r = is_teacher r
same_role RoleEnum.admin r = is_admin r

abbrev pub get_role_by_name : RoleEnum → Exec (Option RoleEnum)
get_role_by_name name = gets λ d. first_match (same_role name) d.roles

abbrev pub create_role : RoleEnum → Exec (Unit {0})
create_role name = modify λ d. record d { roles = name ∷ d.roles }

abbrev pub has_email : String → User → Bool
has_email email u = same_text u.email email

abbrev pub get_user_by_email : String → Exec (Option User)
get_user_by_email email = gets λ d. first_match (has_email email) d.users

abbrev pub get_user_by_id : ℕ → Exec (Option User)
get_user_by_id user_id = gets λ d. find user_key user_id d.users

abbrev pub add_user : User → Exec (Unit {0})
add_user u = modify λ d. record d { users = u ∷ d.users }

abbrev pub save_user : User → Exec (Unit {0})
save_user u = modify λ d. record d { users = save user_key u d.users }

-- The new row, with the defaults of its columns.
abbrev pub new_user : ℕ → String → String → String → String → RoleEnum → User
new_user id email full_name password_hash timezone role = record {
  id = id;
  email = email;
  full_name = full_name;
  age = none;
  password_hash = password_hash;
  timezone = timezone;
  is_active = true;
  role = role;
}

-- `build_default_full_name` gives the full name.
abbrev pub create_user : ℕ → (String → String) → String → String → String → RoleEnum → Exec User
create_user id default_full_name email password_hash timezone role = do
  let user = new_user id email (default_full_name email) password_hash timezone role
  add_user user
  pure user

abbrev pub renamed : Option String → User → User
renamed none u = u
renamed (some full_name) u = record u { full_name = full_name }

abbrev pub aged : Option (Option ℕ) → User → User
aged none u = u
aged (some age) u = record u { age = age }

-- The unset arguments are `none`.
unfoldable pub update_user : User → Option String → Option (Option ℕ) → Exec User
update_user user full_name age = do
  let updated = aged age (renamed full_name user)
  save_user updated
  pure updated

abbrev pub is_token : Option RefreshToken → Bool
is_token none = false
is_token (some t) = true

-- `token_id` is unique.
unfoldable pub create_refresh_token : ℕ → ℕ → ℕ → Exec (Unit {0})
create_refresh_token user_id token_id expires_at = do
  taken ← gets λ d. find token_key token_id d.refresh_tokens
  raise_if (is_token taken) integrity
  modify λ d. record d {
    refresh_tokens =
        record {
          user_id = user_id;
          token_id = token_id;
          expires_at = expires_at;
          revoked_at = none;
        }
        ∷ d.refresh_tokens;
  }

abbrev pub get_refresh_token_by_id : ℕ → Exec (Option RefreshToken)
get_refresh_token_by_id token_id = gets λ d. find token_key token_id d.refresh_tokens

abbrev pub save_token : RefreshToken → Exec (Unit {0})
save_token t = modify λ d. record d { refresh_tokens = save token_key t d.refresh_tokens }

unfoldable pub revoke_refresh_token : ℕ → ℕ → Exec (Unit {0})
revoke_refresh_token token_id revoked_at = do
  token ← get_refresh_token_by_id token_id
  if_found token (pure tt) λ t. save_token (record t { revoked_at = some revoked_at })
