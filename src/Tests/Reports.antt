-- ===== src/Tests/Reports.antt =====
-- Reports on lessons and reminders of them at concrete values.
use guitar_online.Base.{ℕ, ◌+◌, ◌*◌, ◌≡◌, refl, some, none, true, false, [], ◌∷◌}
use guitar_online.Store.Enums.{RoleEnum}
use guitar_online.Store.Rows.{User, hour}
use guitar_online.Store.Text.{Str}
use guitar_online.Store.Ends.{Ends}
use guitar_online.Lessons.Moderation.{Search}
use guitar_online.Lessons.Report.{MeetingUrls, TeacherLessonReportRequest, report_lesson}
use guitar_online.Lessons.Moderated.{IsReported, report_lesson-IsReported}
use guitar_online.Notifications.Reminders.{run_once, list_scheduled_lessons_starting_between}
use guitar_online.Notifications.Reminded.{IsCycle, run_once-IsCycle, run_once_twice}
use guitar_online.Tests.Rows.{noon, student, lesson, confirmed}

abbrev text : Str
text = record { strip = λ s. s; upper = λ s. s; lower = λ s. s }

abbrev urls : MeetingUrls
urls = record {
  lesson_meeting_url_template = some "https://meet.example.com/{lesson_id}";
  format = λ template lesson. template;
}

-- Finds nothing.
abbrev search : Search
search pattern value = false

abbrev teacher : User
teacher = record student { id = 3; role = RoleEnum.teacher }

abbrev report : TeacherLessonReportRequest
report = record {
  notes = some "Chords in the key of C";
  homework = none;
  links = "https://example.com/chords" ∷ [];
  meeting_url = none;
  recording_url = none;
  use_meeting_url_template = true;
}

report_lesson-IsReported_example :
    Ends
      (IsReported text urls search 50 report teacher confirmed)
      (report_lesson text urls search 50 report teacher)
      confirmed
report_lesson-IsReported_example =
    report_lesson-IsReported text urls search 50 report teacher confirmed

abbrev clock : ℕ → ℕ
clock n = noon + 30 * hour

run_once-IsCycle_example :
    IsCycle
      (list_scheduled_lessons_starting_between
        (noon + 30 * hour)
        (noon + 30 * hour + 24 * hour)
        500
        (lesson ∷ []))
      []
      (run_once clock 500 24 (lesson ∷ []) [])
run_once-IsCycle_example = run_once-IsCycle clock 500 24 (lesson ∷ []) []

run_once_twice_example :
    (run_once clock 500 24
      (lesson ∷ [])
      (run_once clock 500 24 (lesson ∷ []) []).notifications).notifications
    ≡ (run_once clock 500 24 (lesson ∷ []) []).notifications
run_once_twice_example = run_once_twice clock clock 500 24 (lesson ∷ []) [] refl
