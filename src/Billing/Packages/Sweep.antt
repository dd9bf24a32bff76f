-- ===== src/Billing/Packages/Sweep.antt =====
-- `expire_packages_system` expires every package that is due and no other, and returns their number.
use guitar_online.Base.{
  ℕ, suc, ◌+◌, ◌≡◌, refl, ◌∙◌, ap, true, Option, List, [], ◌∷◌, map, String, arith, length, select,
  All, All-select,
}
use guitar_online.Base.Table.{IsKeyed}
use guitar_online.Base.Saves.{saves, change, saves-select}
use guitar_online.Store.Enums.{PackageStatusEnum}
use guitar_online.Store.PackageStatus.{is_expired}
use guitar_online.Store.Rows.{LessonPackage, package_key}
use guitar_online.Store.Session.{Db, Env, after, Result, ok, err}
use guitar_online.Store.Ends.{
  Ends, Ends-pure, Ends-if, Ends-gets, Ends-modify, Ends-modify_last, Ends-bind, Ends-mono,
  Ends-assoc, Ends-pure_bind,
}
use guitar_online.Billing.Repository.{meets_constraints}
use guitar_online.Billing.Writes.{Ends-save_valid}
use guitar_online.Billing.Packages.Expire.{
  expire_package, is_due, expire_each, expire_packages_system,
}

abbrev pub expired : LessonPackage → LessonPackage
expired p = record p { status = PackageStatusEnum.expired }

-- A row that the loop has loaded.
abbrev IsLoaded : ℕ → LessonPackage → Type 0
IsLoaded now p = (is_due now p ≡ true) × (meets_constraints p ≡ true)

abbrev Saved : List LessonPackage → Db → Result (Unit {0}) → Db → Type 0
Saved ps d (ok _) d' = d'.packages ≡ saves package_key (map expired ps) d.packages
Saved ps d (err e) d' = ⊥

expire_package-Saved :
    (env : Env) (now k : ℕ) (actor : Option ℕ) (trigger : String) (p : LessonPackage) (d : Db)
    → IsLoaded now p
    → Ends (Saved (p ∷ []) d) (expire_package env k actor trigger p) d
unfolding expire_package saves
expire_package-Saved env now k actor trigger p d h =
    Ends-if (is_expired p.status) _ _ (λ no. absurd (ground arith))
      λ _.
        Ends-assoc _ _ _ _
          (Ends-save_valid _ _ h.1 (Ends-pure_bind _ _ (Ends-modify _ _ (Ends-modify_last _ refl))))

Saved-cons :
    (p : LessonPackage) (ps : List LessonPackage) (d d' e : Db) (r : Result (Unit {0}))
    → Saved (p ∷ []) d (ok tt) d'
    → Saved ps d' r e
    → Saved (p ∷ ps) d r e
unfolding saves
Saved-cons p ps d d' e (ok _) h sw = sw ∙ ap (saves package_key (map expired ps)) h
Saved-cons p ps d d' e (err _) h sw = sw

expire_each-Saved :
    (env : Env) (now k t : ℕ) (actor : Option ℕ) (trigger : String) (ps : List LessonPackage)
    (d : Db)
    → All (IsLoaded now) ps
    → Ends (Saved ps d) (expire_each env k t actor trigger ps) d
unfolding expire_each saves
expire_each-Saved env now k t actor trigger [] d h = Ends-pure tt refl
expire_each-Saved env now k t actor trigger (p ∷ ps) d h =
    Ends-bind _ _ _ (expire_package-Saved (after (1 + k) k env) now t actor trigger p d h.0)
      (λ e d' no. no)
      λ a d' q.
        Ends-mono _ _ _ (λ r e. Saved-cons p ps d d' e r q)
          (expire_each-Saved env now (suc k) t actor trigger ps d' h.1)

-- A package that is due expires; any other stays as it is.
abbrev pub swept : ℕ → LessonPackage → LessonPackage
swept now = change package_key expired (λ p. refl) (is_due now)

abbrev pub IsSweep : ℕ → Db → Result ℕ → Db → Type 0
IsSweep now d r d' =
    (r ≡ ok (length (select (is_due now) d.packages))) × (d'.packages ≡ map (swept now) d.packages)

-- If the packages' keys are distinct and each package meets its constraints, the sweep returns the
-- number of the ACTIVE packages whose time has passed; it has expired those and left every other
-- package as it was.
pub expire_packages_system-IsSweep :
    (env : Env) (actor : Option ℕ) (trigger : String) (d : Db)
    → IsKeyed package_key d.packages
    → All (λ p. meets_constraints p ≡ true) d.packages
    → Ends (IsSweep (env.clock 0) d) (expire_packages_system env actor trigger) d
unfolding expire_packages_system
expire_packages_system-IsSweep env actor trigger d keyed valid =
    let now = env.clock 0 in
    let due = select (is_due now) d.packages in
    Ends-gets _ _ (
      Ends-bind _ _ _
        (expire_each-Saved env now 0 now actor trigger due d
          (All-select (λ p. meets_constraints p ≡ true) (is_due now) d.packages valid))
        (λ e d' no. absurd no)
        λ a d' q.
          Ends-pure _
            (refl, q ∙ saves-select package_key expired (λ p. refl) (is_due now) d.packages keyed))
