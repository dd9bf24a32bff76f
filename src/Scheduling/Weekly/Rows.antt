-- ===== src/Scheduling/Weekly/Rows.antt =====
-- The rows that a new schedule leaves in the table of windows.
use mathlib.Core.List.{append-nil, Perm}
use mathlib.Core.List.Perm
use guitar_online.Base.{
  ℕ, ◌≡◌, refl, sym, ap, ◌∙◌, subst, Bool, not, List, [], ◌∷◌, ◌++◌, map, select, arith,
}
use guitar_online.Base.Sort.{sort, map-sort-perm}
use guitar_online.Store.Rows.{Window, TeacherWeeklyScheduleWindow}
use guitar_online.Store.Session.{Db, Env, after, ok, ◌>>=◌}
use guitar_online.Scheduling.Weekly.Repository.{
  of_teacher, window_of, row_le, new_windows, list_teacher_weekly_schedule_windows,
}

select-append :
    {A : Type 0} (p : A → Bool) (xs ys : List A) → select p (xs ++ ys) ≡ select p xs ++ select p ys
select-append p [] ys = refl
select-append p (x ∷ xs) ys = ground (arith, select-append p xs ys)

select-not : {A : Type 0} (p : A → Bool) (xs : List A) → select p (select (λ x. not (p x)) xs) ≡ []
select-not p [] = refl
select-not p (x ∷ xs) = ground (arith, select-not p xs)

new_windows_own :
    (env : Env) (teacher_id : ℕ) (windows : List Window)
    (created : List TeacherWeeklyScheduleWindow)
    → select (of_teacher teacher_id) created ≡ created
    → (let rows = new_windows env teacher_id windows created in
        select (of_teacher teacher_id) rows ≡ rows)
unfolding new_windows
new_windows_own env teacher_id [] created h = h
new_windows_own env teacher_id (w ∷ windows) created h =
    new_windows_own (after 0 1 env) teacher_id windows _ (ground (arith, h))

perm_middle : {A : Type 0} (x : A) (xs ys : List A) → Perm (xs ++ x ∷ ys) (x ∷ xs ++ ys)
perm_middle x [] ys = Perm.refl _
perm_middle x (z ∷ xs) ys =
    Perm.trans (Perm.cons z (perm_middle x xs ys)) (Perm.swap x z (xs ++ ys))

-- The rows that are added are those of the windows.
new_windows-perm :
    (env : Env) (teacher_id : ℕ) (windows : List Window)
    (created : List TeacherWeeklyScheduleWindow)
    → Perm
        (map window_of (new_windows env teacher_id windows created))
        (windows ++ map window_of created)
unfolding new_windows
new_windows-perm env teacher_id [] created = Perm.refl _
new_windows-perm env teacher_id (w ∷ windows) created =
    Perm.trans (new_windows-perm (after 0 1 env) teacher_id windows _)
      (perm_middle (w) windows (map window_of created))

pub rows-perm :
    (env : Env) (teacher_id : ℕ) (windows : List Window)
    → Perm (map window_of (sort row_le (new_windows env teacher_id windows []))) windows
rows-perm env teacher_id windows =
    Perm.trans (map-sort-perm row_le window_of (new_windows env teacher_id windows [])) (
      subst (Perm (map window_of (new_windows env teacher_id windows []))) (append-nil windows)
        (new_windows-perm env teacher_id windows []))

-- The windows of the other teachers.
abbrev pub other_windows : ℕ → List TeacherWeeklyScheduleWindow → List TeacherWeeklyScheduleWindow
other_windows teacher_id = select (λ w. not (of_teacher teacher_id w))

-- The state after the windows' replacement.
abbrev pub with_windows : ℕ → List TeacherWeeklyScheduleWindow → Db → Db
with_windows teacher_id created d = record d {
  windows = created ++ other_windows teacher_id d.windows;
}

pub list_back :
    (env : Env) (teacher_id : ℕ) (windows : List Window) (d d' : Db)
    → (let created = new_windows env teacher_id windows [] in
        d'.windows ≡ (with_windows teacher_id created d).windows
        → list_teacher_weekly_schedule_windows teacher_id d' ≡ (ok (sort row_le created), d'))
unfolding list_teacher_weekly_schedule_windows ◌>>=◌
list_back env teacher_id windows d d' h =
    let created = new_windows env teacher_id windows [] in
    let own : select (of_teacher teacher_id) d'.windows ≡ created =
      rw (h, select-append, new_windows_own env teacher_id windows [] refl, select-not)
        (append-nil created) in
    rw own refl

select-same : {A : Type 0} (p : A → Bool) (xs : List A) → select p (select p xs) ≡ select p xs
select-same p [] = refl
select-same p (x ∷ xs) = ground (arith, select-same p xs)

select_only : {A : Type 0} (p : A → Bool) (xs : List A) → select (λ x. not (p x)) (select p xs) ≡ []
select_only p [] = refl
select_only p (x ∷ xs) = ground (arith, select_only p xs)

pub others_kept :
    (env : Env) (teacher_id : ℕ) (windows : List Window)
    (old new : List TeacherWeeklyScheduleWindow)
    → new ≡ new_windows env teacher_id windows [] ++ other_windows teacher_id old
    → other_windows teacher_id new ≡ other_windows teacher_id old
others_kept env teacher_id windows old new h =
    let created = new_windows env teacher_id windows [] in
    let own = new_windows_own env teacher_id windows [] refl in
    let none_other : other_windows teacher_id created ≡ [] =
      ap (other_windows teacher_id) (sym own) ∙ select_only (of_teacher teacher_id) created in
    rw (h, select-append, none_other) (select-same _ old)
