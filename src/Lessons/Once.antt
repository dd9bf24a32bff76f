-- ===== src/Lessons/Once.antt =====
-- A lesson is charged to its package once.
use guitar_online.Base.{
  ℕ, ◌-◌, ◌<◌, ◌≡◌, refl, subst, ◌⊎◌, inl, inr, true, false, not, ◌&&◌, ◌||◌, some, arith, leb,
  ◌==◌,
}
use guitar_online.Base.Table.{find, save, find_own, key-find, find-save_self}
use guitar_online.Store.Enums.{is_admin, is_teacher}
use guitar_online.Store.LessonStatus.{is_completed, is_scheduled}
use guitar_online.Store.Rows.{
  User, Booking, LessonPackage, Lesson, booking_key, package_key, lesson_key,
}
use guitar_online.Store.Session.{Db, Env, Result, ok, err}
use guitar_online.Store.Ends.{
  Ends, Checked, Ends-pure, Ends-if, Ends-if_bind, Ends-if_found, Ends-gets, Ends-or_raise,
  Ends-raise_if, Ends-modify, Ends-check, Ends-found,
}
use guitar_online.Billing.Repository.{consume_reserved_package_lesson}
use guitar_online.Billing.Writes.{Ends-save_package}
use guitar_online.Lessons.Service.{is_some, charged_package, complete_lesson}

-- One lesson of a package is consumed with its reservation.
abbrev pub one_consumed : LessonPackage → LessonPackage
one_consumed p = record p {
  lessons_reserved = p.lessons_reserved - 1;
  lessons_left = p.lessons_left - 1;
}

-- The package of a lesson's booking, with something to consume.
pub record IsCharged (d : Db) (booking_id : ℕ) (p : LessonPackage) : Type 0 where
  pub booking : Booking
  pub booked : find booking_key booking_id d.bookings ≡ some booking
  pub paid_from : booking.package_id ≡ some p.id
  pub found : find package_key p.id d.packages ≡ some p
  pub reserved : 0 < p.lessons_reserved
  pub left : 0 < p.lessons_left

charged_package-Checked :
    (booking_id : ℕ) (d : Db)
    → Ends (Checked d (IsCharged d booking_id)) (charged_package booking_id) d
unfolding charged_package
charged_package-Checked booking_id d = Ends-gets _ _ (
    Ends-or_raise _ _ _ (λ _. refl)
      λ b fb.
        Ends-or_raise _ _ _ (λ _. refl)
          λ k own. Ends-gets _ _ (
            Ends-or_raise _ _ _ (λ _. refl)
              λ p fp.
                Ends-raise_if _ _ _ (λ _. refl)
                  λ some_reserved.
                    Ends-raise_if _ _ _ (λ _. refl)
                      λ some_left. Ends-pure _ (
                        refl,
                        record {
                          booking = b;
                          booked = fb;
                          paid_from = rw (key-find package_key k p d.packages fp) own;
                          found = find_own package_key k p d.packages fp;
                          reserved = ground arith;
                          left = ground arith;
                        },
                      )))

-- What `complete_lesson` does to the packages: nothing to a lesson that was completed before, and
-- else the consumption of one reserved lesson.
abbrev pub Charges : Lesson → Db → Db → Type 0
Charges before d d' =
    ((is_completed before.status ≡ true) × (d'.packages ≡ d.packages))
    ⊎ ((is_scheduled before.status ≡ true)
        × (p : LessonPackage) × IsCharged d before.booking_id p
        × (d'.packages ≡ save package_key (one_consumed p) d.packages))

-- The lesson stands completed, and the actor may complete it.
abbrev pub IsDone : ℕ → User → Lesson → Db → Type 0
IsDone id actor l d =
    (find lesson_key id d.lessons ≡ some l)
    × (is_completed l.status ≡ true)
    × (is_some l.consumed_at ≡ true)
    × ((is_admin actor.role || is_teacher actor.role) ≡ true)
    × ((is_teacher actor.role && not (l.teacher_id == actor.id)) ≡ false)

abbrev pub Completed : ℕ → User → Db → Result Lesson → Db → Type 0
Completed id actor d (err e) d' = d' ≡ d
Completed id actor d (ok l) d' =
    IsDone id actor l d'
    × (before : Lesson) × (find lesson_key id d.lessons ≡ some before)
    × Charges before d d'

module _ (env : Env) (id : ℕ) (actor : User) (l : Lesson) (d : Db)
    (fl : find lesson_key id d.lessons ≡ some l)
    (may : (is_admin actor.role || is_teacher actor.role) ≡ true)
    (own : (is_teacher actor.role && not (l.teacher_id == actor.id)) ≡ false) where
  -- The lesson's row is the one that is written.
  saved : (l' : Lesson) → l'.id ≡ l.id → find lesson_key id (save lesson_key l' d.lessons) ≡ some l'
  saved l' same =
      rw (← key-find lesson_key id l d.lessons fl, ← same)
        (find-save_self lesson_key l' l d.lessons (rw same (find_own lesson_key id l d.lessons fl)))

-- `complete_lesson` either raises and writes nothing, or returns the lesson as it stands, completed
-- and with its time of consumption. A lesson that was completed before costs nothing; a scheduled
-- one costs its booking's package one lesson and the reservation of it, and that package had both.
pub complete_lesson-Completed :
    (env : Env) (id : ℕ) (actor : User) (d : Db)
    → Ends (Completed id actor d) (complete_lesson env id actor) d
unfolding complete_lesson consume_reserved_package_lesson
complete_lesson-Completed env id actor d = Ends-gets _ _ (
    Ends-or_raise _ _ _ (λ _. refl)
      λ l fl.
        Ends-raise_if _ _ _ (λ _. refl)
          λ may.
            Ends-raise_if _ _ _ (λ _. refl)
              λ own.
                Ends-if (is_completed l.status) _ _
                  (λ done.
                    Ends-if_found l.consumed_at _ _
                      (λ _. Ends-modify _ _ (
                        Ends-pure _ (
                          (
                            saved env id actor l d fl (ground arith) own _ refl,
                            done,
                            refl,
                            ground arith,
                            own,
                          ),
                          l,
                          fl,
                          inl (done, refl),
                        )))
                      (λ t e.
                        Ends-pure _
                          ((fl, done, ground arith, ground arith, own), l, fl, inl (done, refl))))
                  (λ fresh.
                    Ends-raise_if _ _ _ (λ _. refl)
                      λ scheduled.
                        Ends-check _ _ _ (charged_package-Checked l.booking_id d) (λ _. refl)
                          λ p q.
                            Ends-if_bind (leb p.lessons_reserved 0) _ _ _
                              (λ zero. absurd (ground (arith, q.reserved)))
                              λ _.
                                Ends-if_bind (leb p.lessons_left 0) _ _ _
                                  (λ zero. absurd (ground (arith, q.left)))
                                  λ _. Ends-save_package _ _ refl λ _. Ends-modify _ _ (
                                    Ends-pure _ (
                                      (
                                        saved env id actor l d fl (ground arith) own _ refl,
                                        refl,
                                        refl,
                                        ground arith,
                                        own,
                                      ),
                                      l,
                                      fl,
                                      inr (ground arith, p, q, refl),
                                    ))))

-- A lesson that stands completed stays as it is.
complete_done :
    (env : Env) (id : ℕ) (actor : User) (l : Lesson) (d : Db)
    → IsDone id actor l d
    → Ends (λ r e. (r ≡ ok l) × (e ≡ d)) (complete_lesson env id actor) d
unfolding complete_lesson
complete_done env id actor l d h = Ends-found _ _ _ l h.0 (
    Ends-raise_if _ _ _ (λ no_role. absurd (ground (arith, h, no_role)))
      λ _.
        Ends-raise_if _ _ _ (λ other. absurd (ground (arith, h, other)))
          λ _.
            Ends-if (is_completed l.status) _ _
              (λ _.
                Ends-if_found l.consumed_at _ _ (λ e. absurd (ground (arith, h, e)))
                  (λ t _. Ends-pure _ (refl, refl)))
              (λ no_way. absurd (ground (arith, h, no_way))))

-- A second completion of a lesson by the same actor returns the same lesson and changes nothing, at
-- whatever time it comes: the package is charged once.
pub complete_lesson_twice :
    (env later : Env) (id : ℕ) (actor : User) (l : Lesson) (d : Db)
    → (complete_lesson env id actor d).0 ≡ ok l
    → Ends
        (λ r e. (r ≡ ok l) × (e ≡ (complete_lesson env id actor d).1))
        (complete_lesson later id actor)
        (complete_lesson env id actor d).1
complete_lesson_twice env later id actor l d ran =
    complete_done later id actor l _
      (subst (λ r. Completed id actor d r (complete_lesson env id actor d).1) ran
        (complete_lesson-Completed env id actor d).at).0
