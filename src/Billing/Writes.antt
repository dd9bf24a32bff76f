-- ===== src/Billing/Writes.antt =====
-- The rules for the writes of `BillingRepository` along a `do` block.
use guitar_online.Base.{◌≡◌, true, arith}
use guitar_online.Base.Table.{save}
use guitar_online.Store.Rows.{LessonPackage, package_key}
use guitar_online.Store.Session.{Db, Result, err, Exec, integrity, ◌>>=◌}
use guitar_online.Store.Ends.{Ends, Ends-if_bind, Ends-modify, Ends-raise_bind}
use guitar_online.Billing.Repository.{meets_constraints, save_package}

-- The state after the flush of a package.
abbrev pub with_package : LessonPackage → Db → Db
with_package p d = record d { packages = save package_key p d.packages }

module _ {B : Type 0} {P : Result B → Db → Type 0} {d : Db} where
  pub Ends-save_package :
      (p : LessonPackage) (k : Unit {0} → Exec B)
      → P (err integrity) d
      → (meets_constraints p ≡ true → Ends P (k tt) (with_package p d))
      → Ends P (save_package p >>= k) d
  unfolding save_package
  Ends-save_package p k bad good =
      Ends-if_bind (meets_constraints p) _ _ _ (λ fits. Ends-modify _ _ (good fits))
        (λ _. Ends-raise_bind _ _ bad)

  -- A package that meets the constraints is written.
  pub Ends-save_valid :
      (p : LessonPackage) (k : Unit {0} → Exec B)
      → meets_constraints p ≡ true
      → Ends P (k tt) (with_package p d)
      → Ends P (save_package p >>= k) d
  unfolding save_package
  Ends-save_valid p k fits good =
      Ends-if_bind (meets_constraints p) _ _ _ (λ _. Ends-modify _ _ good)
        (λ no. absurd (ground (arith, fits, no)))
