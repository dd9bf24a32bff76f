-- ===== src/Billing/Repository.antt =====
-- app/modules/billing/repository.py: the lesson packages, with the CHECK constraints that
-- app/modules/billing/models.py puts on each write.
use guitar_online.Base.{ℕ, ◌+◌, ◌-◌, Bool, ◌&&◌, Option, ltb, leb, if◌then◌else◌}
use guitar_online.Base.Table.{find, save}
use guitar_online.Store.Rows.{LessonPackage, package_key}
use guitar_online.Store.Session.{Exec, pure, raise, gets, modify, integrity}

abbrev pub get_package_by_id : ℕ → Exec (Option LessonPackage)
get_package_by_id id = gets λ d. find package_key id d.packages

abbrev pub get_package_by_id_for_update : ℕ → Exec (Option LessonPackage)
get_package_by_id_for_update id = gets λ d. find package_key id d.packages

-- The CHECK constraints of `lesson_packages`; the columns are natural numbers here, so that the two
-- constraints `>= 0` are tested where a column is lowered.
abbrev pub meets_constraints : LessonPackage → Bool
meets_constraints p =
    ltb 0 p.lessons_total
    && leb p.lessons_left p.lessons_total
    && leb p.lessons_reserved p.lessons_total
    && leb p.lessons_reserved p.lessons_left

-- The flush of a changed package.
unfoldable pub save_package : LessonPackage → Exec (Unit {0})
save_package p =
    if meets_constraints p
    then modify (λ d. record d { packages = save package_key p d.packages })
    else raise integrity

unfoldable pub reserve_package_lesson : LessonPackage → Exec (Unit {0})
reserve_package_lesson p = save_package (record p { lessons_reserved = p.lessons_reserved + 1 })

unfoldable pub release_package_reservation : LessonPackage → Exec (Unit {0})
release_package_reservation p =
    if leb p.lessons_reserved 0
    then pure tt
    else save_package (record p { lessons_reserved = p.lessons_reserved - 1 })

-- `lessons_left -= 1` at 0 breaks the constraint `lessons_left >= 0`.
unfoldable pub consume_reserved_package_lesson : LessonPackage → Exec (Unit {0})
consume_reserved_package_lesson p =
    if leb p.lessons_reserved 0
    then pure tt
    else if leb p.lessons_left 0
    then raise integrity
    else save_package
        (record p { lessons_reserved = p.lessons_reserved - 1; lessons_left = p.lessons_left - 1 })
