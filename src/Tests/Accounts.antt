-- ===== src/Tests/Accounts.antt =====
-- Accounts, tokens and the back office at concrete values.
use guitar_online.Base.{
  ℕ, ◌+◌, ◌*◌, ◌≡◌, ◌⊎◌, inl, inr, refl, some, none, true, Bool, Option, String, [], ◌∷◌, tally,
  arith, leb, if◌then◌else◌, Bool-cases,
}
use guitar_online.Base.Table.{find}
use guitar_online.Store.Enums.{RoleEnum}
use guitar_online.Store.Rows.{RefreshToken, hour, day, minute}
use guitar_online.Store.Settings.{AuthSettings}
use guitar_online.Store.Session.{Db}
use guitar_online.Store.Text.{Str}
use guitar_online.Store.Ends.{Ends}
use guitar_online.Identity.Security.{Crypto, IsCrypto, Claims, refresh_claims, access_claims}
use guitar_online.Identity.Service.{
  LoginRequest, UserCreate, login, register, refresh_tokens, revoke_refresh_token,
}
use guitar_online.Identity.Rotation.{
  IsLast, IsBalanced, refresh_tokens-IsLast, refresh_tokens-IsBalanced,
}
use guitar_online.Identity.Logout.{IsLoggedOut, revoke_refresh_token-IsLoggedOut}
use guitar_online.Identity.Roundtrip.{IsLogin, IsWelcome, login-IsLogin, register-IsWelcome}
use guitar_online.Admin.Users.{deactivate_user}
use guitar_online.Admin.Synced.{IsSynced}
use guitar_online.Admin.Served.{change_role, activate, deactivate, disable, serve, serve-IsSynced}
use guitar_online.Admin.Lockout.{IsLockedOut, deactivate_user-IsLockedOut}
use guitar_online.Admin.Slots.{IsDeleted, delete_slot, delete_slot-IsDeleted}
use guitar_online.Admin.Stats.{get_slot_stats}
use guitar_online.Admin.Buckets.{IsPartition, get_slot_stats-IsPartition}
use guitar_online.Admin.Overview.{
  get_kpi_overview, joined_booking, joined_lesson, joined_package, joined_payment,
}
use guitar_online.Admin.Totals.{get_kpi_overview_totals}
use guitar_online.Admin.Backlog.{IsCleared, expire_holds_system-IsCleared}
use guitar_online.Booking.Service.Expire.{expire_holds_system}
use guitar_online.Tests.Rows.{env, noon, admin, slot, confirmed, run_out}

-- A token is its own text, and is read until it expires. A password is its own hash.
abbrev Token : Type 0
Token = ℕ × Claims

abbrev read : ℕ → Token → Option Claims
read now (exp, c) = if leb exp now then none else some c

abbrev crypto : Crypto Token
crypto = record {
  encode = λ exp c. (exp, c);
  decode = read;
  hash = λ salt password. password;
  verify = λ password hashed. true;
}

read_stable :
    (now later : ℕ) (token : Token) (c : Claims)
    → read now token ≡ some c
    → (read later token ≡ none) ⊎ (read later token ≡ some c)
read_stable now later (exp, c') c h = elim (Bool-cases (leb exp later)) [
  | inl late ↦ inl (rw late refl)
  | inr early ↦ inr (ground (arith, h, early))
]

crypto-IsCrypto : IsCrypto crypto
crypto-IsCrypto = record {
  decode-encode = λ now exp c early. ground (arith, early);
  decode_stable = read_stable;
  verify-hash = λ salt password. refl;
}

abbrev auth : AuthSettings
auth = record {
  auth_self_registration_enabled = true;
  access_token_expire_minutes = 30;
  refresh_token_expire_days = 30;
  admin_role_manager_emails = [];
}

-- The student's refresh token.
abbrev row : RefreshToken
row = record { user_id = 1; token_id = 60; expires_at = noon + 30 * day; revoked_at = none }

abbrev token : Token
token = (noon + 30 * day, refresh_claims auth crypto 1 60 RoleEnum.student)

abbrev logged_in : Db
logged_in = record confirmed { refresh_tokens = row ∷ [] }

refresh_tokens-IsLast_example :
    Ends (IsLast auth crypto env token) (refresh_tokens auth crypto env token) logged_in
refresh_tokens-IsLast_example =
    refresh_tokens-IsLast auth crypto crypto-IsCrypto env env token logged_in

refresh_tokens-IsBalanced_example :
    Ends (IsBalanced auth crypto logged_in) (refresh_tokens auth crypto env token) logged_in
refresh_tokens-IsBalanced_example = refresh_tokens-IsBalanced auth crypto env token logged_in

revoke_refresh_token-IsLoggedOut_example :
    Ends (IsLoggedOut auth crypto env token) (revoke_refresh_token crypto env token) logged_in
revoke_refresh_token-IsLoggedOut_example =
    revoke_refresh_token-IsLoggedOut auth crypto crypto-IsCrypto env env token
      (refresh_claims auth crypto 1 60 RoleEnum.student) logged_in refl

abbrev credentials : LoginRequest
credentials = record { email = "student@example.com"; password = "secret" }

login-IsLogin_example :
    Ends
      (IsLogin auth crypto crypto-IsCrypto credentials (noon + minute))
      (login auth crypto env credentials)
      confirmed
unfolding find
login-IsLogin_example =
    login-IsLogin auth crypto crypto-IsCrypto env credentials (noon + minute) confirmed
      (refl, (refl, tt)) (omega arith)

abbrev newcomer : UserCreate
newcomer = record { email = "new@example.com"; password = "secret"; timezone = "UTC" }

register-IsWelcome_example :
    Ends
      (IsWelcome auth crypto crypto-IsCrypto env newcomer)
      (register auth crypto (λ email. "New") env newcomer)
      confirmed
unfolding find
register-IsWelcome_example =
    register-IsWelcome auth crypto crypto-IsCrypto (λ email. "New") env env newcomer confirmed refl

abbrev text : Str
text = record { strip = λ s. s; upper = λ s. s; lower = λ s. s }

-- The student becomes a teacher, is deactivated, activated and disabled.
serve-IsSynced_example : IsSynced (
    serve auth text
      (λ email. "Teacher")
      ((env, admin, change_role 1 RoleEnum.teacher)
        ∷ (env, admin, deactivate 1)
        ∷ (env, admin, activate 1)
        ∷ (env, admin, disable 1)
        ∷ [])
      confirmed)
unfolding find
serve-IsSynced_example =
    serve-IsSynced auth text (λ email. "Teacher")
      ((env, admin, change_role 1 RoleEnum.teacher)
        ∷ (env, admin, deactivate 1)
        ∷ (env, admin, activate 1)
        ∷ (env, admin, disable 1)
        ∷ [])
      confirmed (λ id u p fu fp. cc)

abbrev access : Token
access = (noon + 30 * minute, access_claims auth crypto 1 RoleEnum.student)

deactivate_user-IsLockedOut_example :
    Ends
      (IsLockedOut crypto noon 1 access)
      (deactivate_user (λ email. "Teacher") env admin 1)
      confirmed
deactivate_user-IsLockedOut_example =
    deactivate_user-IsLockedOut crypto noon 1 access (λ email. "Teacher") env admin confirmed

-- A slot without bookings.
abbrev spare : Db
spare = record confirmed {
  slots =
      record slot { id = 11; start_at = noon + 60 * hour; end_at = noon + 61 * hour } ∷ slot ∷ [];
}

delete_slot-IsDeleted_example : Ends (IsDeleted 11 spare) (delete_slot admin 11) spare
unfolding find
delete_slot-IsDeleted_example = delete_slot-IsDeleted admin 11 spare ((λ missing. cc), tt)

get_slot_stats-IsPartition_example :
    Ends
      (IsPartition none (some (noon + 50 * hour)) spare)
      (get_slot_stats admin none (some (noon + 50 * hour)))
      spare
unfolding find
get_slot_stats-IsPartition_example =
    get_slot_stats-IsPartition admin none (some (noon + 50 * hour)) spare refl refl
      (refl, (refl, tt))

abbrev all_emails : String → Bool
all_emails email = true

get_kpi_overview_totals_example :
    (let overview = get_kpi_overview all_emails confirmed in
      (overview.users_total ≡ tally (λ u. all_emails u.email) confirmed.users)
      × (overview.bookings_total ≡ tally (joined_booking all_emails confirmed) confirmed.bookings)
      × (overview.lessons_total ≡ tally (joined_lesson all_emails confirmed) confirmed.lessons)
      × (overview.payments_total ≡ tally (joined_payment all_emails confirmed) confirmed.payments)
      × (overview.packages_total ≡ tally (joined_package all_emails confirmed) confirmed.packages))
get_kpi_overview_totals_example = get_kpi_overview_totals all_emails confirmed

expire_holds_system-IsCleared_example :
    Ends (IsCleared 5 noon run_out) (expire_holds_system env) run_out
unfolding find
expire_holds_system-IsCleared_example =
    expire_holds_system-IsCleared env 5 run_out (refl, tt) ((slot, refl), tt)
