-- ===== src/Scheduling/Weekly/Replace.antt =====
-- The teacher's time zone and the replacement of a schedule (app/modules/scheduling/service.py).
use guitar_online.Base.{ℕ, ◌+◌, ◌-◌, ◌%◌, not, some, List}
use guitar_online.Store.Enums.{is_admin}
use guitar_online.Store.Rows.{User, Window, TeacherWeeklyScheduleWindow, weekday}
use guitar_online.Store.Events.{admin_teacher_schedule_replace}
use guitar_online.Store.Settings.{Settings}
use guitar_online.Store.Session.{
  Env, after, Exec, business, not_found, unauthorized, pure, or_raise, raise, raise_if,
  except_business, create_audit_log, ◌>>=◌, ◌>>◌,
}
use guitar_online.Store.Text.{Str}
use guitar_online.Base.{length}
use guitar_online.Scheduling.Weekly.{normalize_weekly_schedule_windows}
use guitar_online.Scheduling.Weekly.Zone.{Zone, ZoneInfo, load_timezone}
use guitar_online.Scheduling.Weekly.Repository.{
  get_teacher_timezone, list_teacher_weekly_schedule_windows,
  replace_teacher_weekly_schedule_windows, delete_future_open_slots,
}
use guitar_online.Scheduling.Weekly.Materialize.{materialize_open_slots_from_weekly_schedule}

-- The zone that the name returned by the source stands for.
unfoldable pub resolve_teacher_timezone : Str → ZoneInfo → ℕ → Exec Zone
resolve_teacher_timezone text zone_info teacher_id = do
  timezone ← get_teacher_timezone teacher_id
  timezone_name ← or_raise timezone (not_found "Teacher not found")
  except_business (load_timezone text zone_info timezone_name)
      λ message. raise (business "Teacher timezone is invalid")

-- Windows are written with the draws from 0 on, slots with those behind them.
unfoldable pub replace_teacher_weekly_schedule :
    Settings
    → Str
    → ZoneInfo
    → Env
    → ℕ
    → List Window
    → User
    → Exec (List TeacherWeeklyScheduleWindow)
replace_teacher_weekly_schedule cfg text zone_info env teacher_id windows actor = do
  raise_if (not (is_admin actor.role)) (unauthorized "Only admin can update teacher schedules")
  zone ← resolve_teacher_timezone text zone_info teacher_id
  normalized_windows ← normalize_weekly_schedule_windows windows
  let now_utc = env.clock 0
  previous_windows ← list_teacher_weekly_schedule_windows teacher_id
  updated_windows ← replace_teacher_weekly_schedule_windows env teacher_id normalized_windows
  removed_open_slots_count ← delete_future_open_slots teacher_id now_utc
  generated_slots_count ←
      materialize_open_slots_from_weekly_schedule cfg (after 0 (length normalized_windows) env)
        (record {
          teacher_id = teacher_id;
          created_by_admin_id = actor.id;
          zone = zone;
          now_utc = now_utc;
        })
        normalized_windows
  create_audit_log (some actor.id) (
      admin_teacher_schedule_replace teacher_id previous_windows normalized_windows
        removed_open_slots_count generated_slots_count)
  pure updated_windows

-- `_next_local_date_for_weekday`, from today's date in the teacher's zone.
unfoldable pub next_local_date_for_weekday : ℕ → ℕ → ℕ
next_local_date_for_weekday n local_today = local_today + (n + 7 - weekday local_today) % 7
