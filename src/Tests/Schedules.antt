-- ===== src/Tests/Schedules.antt =====
-- Bulk creation and weekly schedules at concrete values.
use mathlib.Core.List.{Perm}
use guitar_online.Base.{◌+◌, ◌*◌, ◌≡◌, none, [], ◌∷◌, List, map, tally, arith}
use guitar_online.Store.Enums.{RoleEnum, BookingStatusEnum}
use guitar_online.Store.Rows.{User, Window, hour, minute}
use guitar_online.Store.Settings.{default_settings}
use guitar_online.Store.Session.{Db, Error, err, request}
use guitar_online.Store.Text.{Str}
use guitar_online.Store.Ends.{Ends, Checked}
use guitar_online.Scheduling.Bulk.{BulkCreate, bulk_create_slots, day_candidates}
use guitar_online.Scheduling.Bulk.Tiles.{IsTiled, day_candidates-IsTiled}
use guitar_online.Scheduling.Bulk.Offers.{BulkCreated, bulk_create_slots-BulkCreated}
use guitar_online.Scheduling.Weekly.{normalized, normalize_weekly_schedule_windows}
use guitar_online.Scheduling.Weekly.Apart.{IsSchedule, normalize_weekly_schedule_windows-IsSchedule}
use guitar_online.Scheduling.Weekly.Zone.{ZoneInfo, fixed_zone}
use guitar_online.Scheduling.Weekly.Materialize.{Plan, materialize_open_slots_from_weekly_schedule}
use guitar_online.Scheduling.Weekly.Generated.{IsMaterialized, materialize-IsMaterialized}
use guitar_online.Scheduling.Weekly.Replace.{replace_teacher_weekly_schedule}
use guitar_online.Scheduling.Weekly.Replaced.{
  IsReplaced, replace_teacher_weekly_schedule-IsReplaced,
}
use guitar_online.Scheduling.Weekly.Refused.{replace_teacher_weekly_schedule_refused}
use guitar_online.Tests.Rows.{env, noon, student, admin, booked, confirmed}

-- Two days, from eight to ten o'clock, in slots of forty-five minutes.
abbrev mornings : BulkCreate
mornings = record {
  teacher_id = 3;
  date_from_utc = 50;
  date_to_utc = 51;
  weekdays = 0 ∷ 1 ∷ 2 ∷ [];
  start_time_utc = 8 * hour;
  end_time_utc = 10 * hour;
  slot_duration_minutes = 45;
  exclude_dates = [];
  exclude_time_ranges = [];
}

day_candidates-IsTiled_example :
    IsTiled
      (45 * minute)
      (10 * hour)
      (8 * hour)
      (day_candidates (2 * hour + 1) (45 * minute) (10 * hour) (8 * hour))
day_candidates-IsTiled_example =
    day_candidates-IsTiled (2 * hour + 1) (45 * minute) (10 * hour) (8 * hour) (omega arith)
      (omega arith) (omega arith)

bulk_create_slots-BulkCreated_example :
    Ends
      (BulkCreated default_settings mornings admin env.clock confirmed)
      (bulk_create_slots default_settings env mornings admin)
      confirmed
bulk_create_slots-BulkCreated_example =
    bulk_create_slots-BulkCreated default_settings mornings admin env confirmed (tt, tt)

-- Two windows of a Tuesday and one of a Monday.
abbrev week : List Window
week =
    record { weekday = 1; start_local_time = 14 * hour; end_local_time = 16 * hour }
    ∷ record { weekday = 0; start_local_time = 9 * hour; end_local_time = 12 * hour }
    ∷ record { weekday = 1; start_local_time = 10 * hour; end_local_time = 12 * hour }
    ∷ []

normalize_weekly_schedule_windows-IsSchedule_example :
    Ends
      (Checked confirmed (λ ws. Perm ws (map normalized week) × IsSchedule ws))
      (normalize_weekly_schedule_windows week)
      confirmed
normalize_weekly_schedule_windows-IsSchedule_example =
    normalize_weekly_schedule_windows-IsSchedule week confirmed

abbrev plan : Plan
plan = record { teacher_id = 3; created_by_admin_id = 2; zone = fixed_zone 3; now_utc = noon }

materialize-IsMaterialized_example :
    Ends
      (IsMaterialized default_settings plan week confirmed)
      (materialize_open_slots_from_weekly_schedule default_settings env plan week)
      confirmed
materialize-IsMaterialized_example =
    materialize-IsMaterialized default_settings plan week env confirmed (tt, tt)

abbrev text : Str
text = record { strip = λ s. s; upper = λ s. s; lower = λ s. s }

abbrev zones : ZoneInfo
zones name = none

abbrev teacher : User
teacher = record student { id = 3; role = RoleEnum.teacher }

-- A canceled booking has made the slot OPEN again.
abbrev reopened : Db
reopened = record confirmed {
  users = teacher ∷ confirmed.users;
  bookings = record booked { status = BookingStatusEnum.canceled } ∷ [];
}

abbrev vacant : Db
vacant = record reopened { bookings = [] }

replace_teacher_weekly_schedule-IsReplaced_example :
    Ends
      (IsReplaced default_settings text zones 3 week noon vacant)
      (replace_teacher_weekly_schedule default_settings text zones env 3 week admin)
      vacant
replace_teacher_weekly_schedule-IsReplaced_example =
    replace_teacher_weekly_schedule-IsReplaced default_settings text zones env 3 week admin vacant
      (tt, tt)

replace_teacher_weekly_schedule_refused_example :
    (e : Error) × (request
        (replace_teacher_weekly_schedule default_settings text zones env 3 week admin)
        reopened
      ≡ (err e, reopened))
unfolding tally
replace_teacher_weekly_schedule_refused_example =
    replace_teacher_weekly_schedule_refused default_settings text zones env 3 week admin reopened
      (tt, tt) (λ h. cc)
