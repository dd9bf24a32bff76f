-- ===== src/Billing/Packages/Use.antt =====
-- `get_active_package`, `consume_lesson` and `return_lesson`
use guitar_online.Base.{ℕ, not, ◌&&◌, none, leb, ◌==◌, if◌then◌else◌}
use guitar_online.Store.PackageStatus.{is_active}
use guitar_online.Store.Rows.{LessonPackage}
use guitar_online.Store.Session.{
  Env, Exec, after, business, not_found, unauthorized, pure, or_raise, raise_if, ◌>>=◌, ◌>>◌,
}
use guitar_online.Billing.Repository.{
  get_package_by_id, release_package_reservation, consume_reserved_package_lesson,
}
use guitar_online.Billing.Packages.Expire.{expire_package}

unfoldable pub get_active_package : Env → ℕ → ℕ → Exec LessonPackage
get_active_package env package_id student_id = do
  pkg ← or_raise (← get_package_by_id package_id) (not_found "Package not found")
  raise_if (not (pkg.student_id == student_id))
      (unauthorized "Package does not belong to current student")
  let is_expired = leb pkg.expires_at (env.clock 0)
  if is_active pkg.status && is_expired
      then expire_package (after 1 0 env) (env.clock 0) none "active_package_check" pkg
      else pure tt
  raise_if is_expired (business "Package is expired")
  raise_if (not (is_active pkg.status)) (business "Package is not active")
  raise_if (leb pkg.lessons_left pkg.lessons_reserved) (business "No lessons left in package")
  pure pkg

unfoldable pub consume_lesson : LessonPackage → Exec (Unit {0})
consume_lesson pkg = do
  raise_if (leb pkg.lessons_left 0) (business "No lessons left")
  raise_if (leb pkg.lessons_reserved 0) (business "No reserved lessons to consume")
  consume_reserved_package_lesson pkg

unfoldable pub return_lesson : LessonPackage → Exec (Unit {0})
return_lesson pkg = if leb pkg.lessons_reserved 0 then pure tt else release_package_reservation pkg
