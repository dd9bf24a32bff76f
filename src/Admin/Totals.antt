-- ===== src/Admin/Totals.antt =====
-- The totals of the overview count each row once.
use guitar_online.Base.{
  ℕ, ◌+◌, ◌≡◌, refl, Bool, ◌&&◌, ◌≤◌, List, [], ◌∷◌, String, arith, tally, ◌==◌,
}
use guitar_online.Store.Enums.{
  RoleEnum, BookingStatusEnum, LessonStatusEnum, PaymentStatusEnum, PackageStatusEnum,
}
use guitar_online.Store.Session.{Db}
use guitar_online.Admin.Overview.{
  code_of_role, code_of_booking, code_of_lesson, code_of_payment, code_of_package, joined_booking,
  joined_lesson, joined_package, joined_payment, get_kpi_overview,
}

module _ {A : Type 0} (code : A → ℕ) (p : A → Bool) where
  abbrev group : ℕ → List A → ℕ
  group n xs = tally (λ x. (code x == n) && p x) xs

  -- Rows under one of four codes, or of three.
  four_groups :
      ((x : A) → code x ≤ 3)
      → (xs : List A) → group 0 xs + group 1 xs + group 2 xs + group 3 xs ≡ tally p xs
  unfolding tally
  four_groups few [] = refl
  four_groups few (x ∷ xs) = ground (arith, four_groups few xs, few x)

  three_groups :
      ((x : A) → code x ≤ 2) → (xs : List A) → group 0 xs + group 1 xs + group 2 xs ≡ tally p xs
  unfolding tally
  three_groups few [] = refl
  three_groups few (x ∷ xs) = ground (arith, three_groups few xs, few x)

role_few : (r : RoleEnum) → code_of_role r ≤ 2
role_few r = ground arith

booking_few : (s : BookingStatusEnum) → code_of_booking s ≤ 3
booking_few s = ground arith

lesson_few : (s : LessonStatusEnum) → code_of_lesson s ≤ 3
lesson_few s = ground arith

payment_few : (s : PaymentStatusEnum) → code_of_payment s ≤ 3
payment_few s = ground arith

package_few : (s : PackageStatusEnum) → code_of_package s ≤ 3
package_few s = ground arith

-- Each total of the overview is the number of the rows whose users pass the filter on emails: of the users, of the bookings and
-- the lessons by student and teacher, and of the packages and the payments by the package's student.
pub get_kpi_overview_totals :
    (keeps : String → Bool) (d : Db)
    → (let overview = get_kpi_overview keeps d in
        (overview.users_total ≡ tally (λ u. keeps u.email) d.users)
        × (overview.bookings_total ≡ tally (joined_booking keeps d) d.bookings)
        × (overview.lessons_total ≡ tally (joined_lesson keeps d) d.lessons)
        × (overview.payments_total ≡ tally (joined_payment keeps d) d.payments)
        × (overview.packages_total ≡ tally (joined_package keeps d) d.packages))
unfolding get_kpi_overview
get_kpi_overview_totals keeps d = (
  three_groups (λ u. code_of_role u.role) (λ u. keeps u.email) (λ u. role_few u.role) d.users,
  four_groups (λ b. code_of_booking b.status) (joined_booking keeps d) (λ b. booking_few b.status)
      d.bookings,
  omega (
    arith,
    four_groups (λ l. code_of_lesson l.status) (joined_lesson keeps d) (λ l. lesson_few l.status)
        d.lessons,
  ),
  four_groups (λ p. code_of_payment p.status) (joined_payment keeps d) (λ p. payment_few p.status)
      d.payments,
  four_groups (λ p. code_of_package p.status) (joined_package keeps d) (λ p. package_few p.status)
      d.packages,
)
