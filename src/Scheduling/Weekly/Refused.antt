-- ===== src/Scheduling/Weekly/Refused.antt =====
-- A schedule that cannot be replaced.
use guitar_online.Base.{ℕ, ◌≡◌, refl, ◌≢◌, List, []}
use guitar_online.Store.Rows.{User, Window, TeacherWeeklyScheduleWindow}
use guitar_online.Store.Settings.{Settings}
use guitar_online.Store.Text.{Str}
use guitar_online.Store.Session.{Db, Env, Error, Result, ok, err, close, request}
use guitar_online.Scheduling.Disjoint.{IsDisjoint}
use guitar_online.Scheduling.Weekly.Zone.{ZoneInfo}
use guitar_online.Scheduling.Weekly.Replace.{replace_teacher_weekly_schedule}
use guitar_online.Scheduling.Weekly.Replaced.{
  IsReplaced, referred_slots, replace_teacher_weekly_schedule-IsReplaced,
}

rolled_back :
    (cfg : Settings) (text : Str) (zone_info : ZoneInfo) (teacher_id : ℕ) (windows : List Window)
    (now : ℕ) (d d' : Db) (r : Result (List TeacherWeeklyScheduleWindow))
    → referred_slots teacher_id now d ≢ []
    → IsReplaced cfg text zone_info teacher_id windows now d r d'
    → (e : Error) × (close r d d' ≡ (err e, d))
rolled_back cfg text zone_info teacher_id windows now d d' (ok rows) referred h =
    absurd (referred h.0)
rolled_back cfg text zone_info teacher_id windows now d d' (err e) referred h = (e, refl)

-- While a booking, of whatever status, refers to one of the teacher's OPEN slots from now on, and no
-- two slots of a teacher overlap, a request to replace the teacher's schedule raises and changes
-- nothing.
pub replace_teacher_weekly_schedule_refused :
    (cfg : Settings) (text : Str) (zone_info : ZoneInfo) (env : Env) (teacher_id : ℕ)
    (windows : List Window) (actor : User) (d : Db)
    → IsDisjoint d.slots
    → referred_slots teacher_id (env.clock 0) d ≢ []
    → (e : Error) × (request
          (replace_teacher_weekly_schedule cfg text zone_info env teacher_id windows actor)
          d
        ≡ (err e, d))
unfolding request
replace_teacher_weekly_schedule_refused cfg text zone_info env teacher_id windows actor d h
      referred =
    let replace = replace_teacher_weekly_schedule cfg text zone_info env teacher_id windows actor in
    let ends =
      replace_teacher_weekly_schedule-IsReplaced cfg text zone_info env teacher_id windows actor d
        h in
    rolled_back cfg text zone_info teacher_id windows (env.clock 0) d (replace d).1 (replace d).0
      referred ends.at
