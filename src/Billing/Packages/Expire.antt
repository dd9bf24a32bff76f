-- ===== src/Billing/Packages/Expire.antt =====
-- `_expire_package`, `expire_packages_system` and `expire_packages`
use guitar_online.Base.{
  ℕ, ◌+◌, suc, Bool, not, ◌&&◌, Option, some, List, [], ◌∷◌, String, leb, length, select,
  if◌then◌else◌,
}
use guitar_online.Store.Enums.{PackageStatusEnum, is_admin}
use guitar_online.Store.PackageStatus.{is_active, is_expired}
use guitar_online.Store.Rows.{User, LessonPackage}
use guitar_online.Store.Events.{billing_package_expire, package_expired}
use guitar_online.Store.Session.{
  Env, Exec, after, unauthorized, pure, gets, raise_if, create_outbox_event, create_audit_log,
  ◌>>=◌, ◌>>◌,
}
use guitar_online.Billing.Repository.{save_package}

-- A package under a new status (BillingRepository.set_package_status).
abbrev pub with_package_status : PackageStatusEnum → LessonPackage → LessonPackage
with_package_status status pkg = record pkg { status = status }

abbrev pub set_package_status : LessonPackage → PackageStatusEnum → Exec LessonPackage
set_package_status pkg status = do
  save_package (with_package_status status pkg)
  pure (with_package_status status pkg)

unfoldable pub expire_package : Env → ℕ → Option ℕ → String → LessonPackage → Exec (Unit {0})
expire_package env now actor_id trigger pkg = if is_expired pkg.status then pure tt else do
  set_package_status pkg PackageStatusEnum.expired
  create_audit_log actor_id (billing_package_expire pkg.id pkg.student_id now trigger)
  create_outbox_event (env.uuid4 0) (env.clock 0) (package_expired pkg.id pkg.student_id trigger)

-- The WHERE of `find_packages_to_expire`.
abbrev pub is_due : ℕ → LessonPackage → Bool
is_due now p = is_active p.status && leb p.expires_at now

abbrev pub find_packages_to_expire : ℕ → Exec (List LessonPackage)
find_packages_to_expire now = gets λ d. select (is_due now) d.packages

-- The loop; `k` counts the rounds done.
unfoldable pub expire_each : Env → ℕ → ℕ → Option ℕ → String → List LessonPackage → Exec (Unit {0})
expire_each env k now actor_id trigger [] = pure tt
expire_each env k now actor_id trigger (p ∷ rest) = do
  expire_package (after (1 + k) k env) now actor_id trigger p
  expire_each env (suc k) now actor_id trigger rest

unfoldable pub expire_packages_system : Env → Option ℕ → String → Exec ℕ
expire_packages_system env actor_id trigger = do
  packages ← find_packages_to_expire (env.clock 0)
  expire_each env 0 (env.clock 0) actor_id trigger packages
  pure (length packages)

unfoldable pub expire_packages : Env → User → Exec ℕ
expire_packages env actor = do
  raise_if (not (is_admin actor.role)) (unauthorized "Only admin can expire packages")
  expire_packages_system env (some actor.id) "admin_expire_packages"
