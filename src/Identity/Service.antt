-- ===== src/Identity/Service.antt =====
-- `IdentityService` (app/modules/identity/service.py). Its commits come at the end of the methods,
-- where `request` commits.
use text.Mathlib.Text.{◌==◌ as same_text}
use guitar_online.Base.{
  ℕ, ◌+◌, ◌*◌, Bool, true, false, not, ◌||◌, Option, none, some, List, [], ◌∷◌, String, leb,
  if◌then◌else◌,
}
use guitar_online.Store.Enums.{RoleEnum}
use guitar_online.Store.Rows.{User, RefreshToken, day}
use guitar_online.Store.Settings.{AuthSettings}
use guitar_online.Store.Session.{
  Env, after, Exec, business, not_found, unauthorized, conflict, http_exception, pure, or_raise,
  raise_if, if_found, ◌>>=◌, ◌>>◌,
}
use guitar_online.Store.Text.{Str, is_nonempty}
use guitar_online.Identity.Security.{
  Crypto, create_access_token, create_refresh_token, decode_token,
}
use guitar_online.Identity.Repository
use guitar_online.Identity.Repository.{
  same_role, get_role_by_name, create_role, get_user_by_email, get_user_by_id, create_user,
  update_user, get_refresh_token_by_id,
}

pub record TokenPair (Token : Type 0) : Type 0 where
  pub access_token : Token
  pub refresh_token : Token

pub record UserCreate : Type 0 where
  pub email : String
  pub password : String
  pub timezone : String

pub record LoginRequest : Type 0 where
  pub email : String
  pub password : String

-- `age` is `none` where the payload leaves it unset.
pub record UserProfileUpdate : Type 0 where
  pub full_name : String
  pub age : Option (Option ℕ)

abbrev pub is_user : Option User → Bool
is_user none = false
is_user (some u) = true

-- The body of the loop of `ensure_default_roles`.
abbrev pub ensure_role : RoleEnum → Exec (Unit {0})
ensure_role role_name = do
  role ← get_role_by_name role_name
  if_found role (create_role role_name) λ _. pure tt

unfoldable pub ensure_default_roles : Exec (Unit {0})
ensure_default_roles = do
  ensure_role RoleEnum.student
  ensure_role RoleEnum.teacher
  ensure_role RoleEnum.admin

-- `db_token.revoked_at is not None`
abbrev pub is_revoked : RefreshToken → Bool
is_revoked t = elim t.revoked_at [ none ↦ false | some at ↦ true ]

-- `db_token.revoked_at is not None or db_token.expires_at <= utc_now()`
abbrev pub is_dead : ℕ → RefreshToken → Bool
is_dead now t = is_revoked t || leb t.expires_at now

-- `name in roles`
abbrev pub any_role : RoleEnum → List RoleEnum → Bool
any_role name [] = false
any_role name (r ∷ roles) =
    let rest = any_role name roles in if same_role name r then true else rest

module _ {Token : Type 0} (cfg : AuthSettings) (crypto : Crypto Token) where
  -- Draw 0 is the user's key, draw 1 the salt.
  unfoldable pub register : (String → String) → Env → UserCreate → Exec User
  register default_full_name env payload = do
    existing_user ← get_user_by_email payload.email
    raise_if (is_user existing_user) (conflict "User with this email already exists")
    raise_if (not cfg.auth_self_registration_enabled) (unauthorized "Self-registration is disabled")
    found ← get_role_by_name RoleEnum.student
    role ← or_raise found (not_found "Role not found")
    create_user (env.uuid4 0) default_full_name payload.email
        (crypto.hash (env.uuid4 1) payload.password) payload.timezone role

  -- The end of `login` and of `refresh_tokens`.
  abbrev pub issue_tokens : Env → User → Exec (TokenPair Token)
  issue_tokens env user = do
    let token_id = env.uuid4 0
    let access_token = create_access_token cfg crypto (env.clock 0) user.id user.role
    let refresh_token = create_refresh_token cfg crypto (env.clock 1) user.id token_id user.role
    Repository.create_refresh_token user.id token_id
        (env.clock 2 + cfg.refresh_token_expire_days * day)
    pure (record { access_token = access_token; refresh_token = refresh_token })

  unfoldable pub login : Env → LoginRequest → Exec (TokenPair Token)
  login env payload = do
    found ← get_user_by_email payload.email
    user ← or_raise found (unauthorized "Invalid credentials")
    raise_if (not (crypto.verify payload.password user.password_hash))
        (unauthorized "Invalid credentials")
    raise_if (not user.is_active) (unauthorized "User is inactive")
    issue_tokens env user

  -- Readings: for the decoding, the check and the revocation, then those of the new tokens.
  unfoldable pub refresh_tokens : Env → Token → Exec (TokenPair Token)
  refresh_tokens env refresh_token_value = do
    payload ← decode_token crypto (env.clock 0) refresh_token_value
    raise_if (not (same_text payload.token_type "refresh")) (unauthorized "Invalid token type")
    token_id ← or_raise payload.jti (unauthorized "Invalid refresh token")
    subject ← or_raise payload.sub (unauthorized "Invalid refresh token")
    found ← get_refresh_token_by_id token_id
    db_token ← or_raise found (unauthorized "Refresh token is not valid")
    raise_if (is_dead (env.clock 1) db_token) (unauthorized "Refresh token is not valid")
    Repository.revoke_refresh_token token_id (env.clock 2)
    account ← get_user_by_id subject
    user ← or_raise account (unauthorized "User is not valid")
    raise_if (not user.is_active) (unauthorized "User is not valid")
    issue_tokens (after 3 0 env) user

module _ {Token : Type 0} (crypto : Crypto Token) where
  -- The exception of the decoding is caught.
  unfoldable pub revoke_refresh_token : Env → Token → Exec (Unit {0})
  revoke_refresh_token env refresh_token_value =
      if_found (crypto.decode (env.clock 0) refresh_token_value) (pure tt) λ payload.
        if not (same_text payload.token_type "refresh")
        then pure tt
        else if_found payload.jti (pure tt)
            λ token_id. Repository.revoke_refresh_token token_id (env.clock 1)

  unfoldable pub get_user_from_access_token : ℕ → Token → Exec User
  get_user_from_access_token now token = do
    payload ← decode_token crypto now token
    raise_if (not (same_text payload.token_type "access")) (unauthorized "Invalid access token")
    subject ← or_raise payload.sub (unauthorized "Token subject is missing")
    found ← get_user_by_id subject
    user ← or_raise found (unauthorized "User not found")
    raise_if (not user.is_active) (unauthorized "User is inactive")
    pure user

  -- The dependency that `require_roles` makes, behind `get_current_user`.
  unfoldable pub require_roles : List RoleEnum → ℕ → Token → Exec User
  require_roles roles now token = do
    current_user ← get_user_from_access_token now token
    raise_if (not (any_role current_user.role roles))
        (http_exception 403 "Operation not permitted for your role")
    pure current_user

unfoldable pub update_current_user_profile : Str → User → UserProfileUpdate → Exec User
update_current_user_profile text current_user payload = do
  let normalized_full_name = text.strip payload.full_name
  raise_if (not (is_nonempty normalized_full_name)) (business "Full name cannot be empty")
  update_user current_user (some normalized_full_name) payload.age
