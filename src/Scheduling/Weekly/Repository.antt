-- ===== src/Scheduling/Weekly/Repository.antt =====
-- app/modules/scheduling/repository.py: the windows of a teacher, and the deletion of the slots that
-- a new schedule replaces.
use guitar_online.Base.{
  ℕ, Bool, false, not, ◌&&◌, ◌||◌, Option, none, some, List, [], ◌∷◌, ◌++◌, String, ltb, leb, ◌==◌,
  length, select, tally, if◌then◌else◌,
}
use guitar_online.Base.Table.{find}
use guitar_online.Base.Sort.{sort}
use guitar_online.Store.Enums.{is_open, is_teacher}
use guitar_online.Store.Rows.{
  AvailabilitySlot, Booking, User, Window, TeacherWeeklyScheduleWindow, user_key,
}
use guitar_online.Store.Session.{
  Env, after, Exec, integrity, pure, gets, modify, raise_if, ◌>>=◌, ◌>>◌,
}
use guitar_online.Scheduling.Weekly.{window_le}

abbrev pub teacher_timezone : Option User → Option String
teacher_timezone none = none
teacher_timezone (some u) = if is_teacher u.role then some u.timezone else none

abbrev pub get_teacher_timezone : ℕ → Exec (Option String)
get_teacher_timezone teacher_id = gets λ d. teacher_timezone (find user_key teacher_id d.users)

abbrev pub window_of : TeacherWeeklyScheduleWindow → Window
window_of w = record {
  weekday = w.weekday;
  start_local_time = w.start_local_time;
  end_local_time = w.end_local_time;
}

-- The order of (weekday, start_local_time, end_local_time, id).
abbrev pub row_le : TeacherWeeklyScheduleWindow → TeacherWeeklyScheduleWindow → Bool
row_le v w =
    if window_le (window_of v) (window_of w)
    then not (window_le (window_of w) (window_of v)) || leb v.id w.id
    else false

abbrev pub of_teacher : ℕ → TeacherWeeklyScheduleWindow → Bool
of_teacher teacher_id w = w.teacher_id == teacher_id

unfoldable pub list_teacher_weekly_schedule_windows : ℕ → Exec (List TeacherWeeklyScheduleWindow)
list_teacher_weekly_schedule_windows teacher_id =
    gets λ d. sort row_le (select (of_teacher teacher_id) d.windows)

-- The rows that the loop over the windows adds, the last first, with keys of their own.
unfoldable pub new_windows :
    Env → ℕ → List Window → List TeacherWeeklyScheduleWindow → List TeacherWeeklyScheduleWindow
new_windows env teacher_id [] created = created
new_windows env teacher_id (w ∷ windows) created = new_windows (after 0 1 env) teacher_id windows (
    record {
      id = env.uuid4 0;
      teacher_id = teacher_id;
      weekday = w.weekday;
      start_local_time = w.start_local_time;
      end_local_time = w.end_local_time;
    }
    ∷ created)

unfoldable pub replace_teacher_weekly_schedule_windows :
    Env → ℕ → List Window → Exec (List TeacherWeeklyScheduleWindow)
replace_teacher_weekly_schedule_windows env teacher_id windows = do
  let created = new_windows env teacher_id windows []
  modify
      λ d. record d { windows = created ++ select (λ w. not (of_teacher teacher_id w)) d.windows }
  pure (sort row_le created)

-- The WHERE of `delete_future_open_slots`.
abbrev pub is_future_open : ℕ → ℕ → AvailabilitySlot → Bool
is_future_open teacher_id from_utc s =
    (s.teacher_id == teacher_id) && (is_open s.status && leb from_utc s.start_at)

abbrev pub refers_to : ℕ → Booking → Bool
refers_to slot_id b = b.slot_id == slot_id

-- The bookings' foreign key, ON DELETE RESTRICT, keeps a slot that has bookings of any status.
abbrev pub is_referred : List Booking → AvailabilitySlot → Bool
is_referred bookings s = ltb 0 (tally (refers_to s.id) bookings)

unfoldable pub delete_future_open_slots : ℕ → ℕ → Exec ℕ
delete_future_open_slots teacher_id from_utc = do
  deleted ← gets λ d. select (is_future_open teacher_id from_utc) d.slots
  referred ← gets λ d. select (is_referred d.bookings) deleted
  raise_if (ltb 0 (length referred)) integrity
  modify λ d. record d { slots = select (λ s. not (is_future_open teacher_id from_utc s)) d.slots }
  pure (length deleted)
