-- ===== src/Lessons/Repository.antt =====
-- app/modules/lessons/repository.py
use guitar_online.Base.{ℕ, Option, none, ◌∷◌, String}
use guitar_online.Base.Table.{find, save}
use guitar_online.Store.Enums.{LessonStatusEnum}
use guitar_online.Store.Rows.{Lesson, lesson_key}
use guitar_online.Store.Session.{Exec, pure, gets, modify, ◌>>◌}

abbrev pub booking_of : Lesson → ℕ
booking_of l = l.booking_id

abbrev pub get_lesson_by_id : ℕ → Exec (Option Lesson)
get_lesson_by_id id = gets λ d. find lesson_key id d.lessons

-- `booking_id` is a unique column.
abbrev pub get_lesson_by_booking_id : ℕ → Exec (Option Lesson)
get_lesson_by_booking_id booking_id = gets λ d. find booking_of booking_id d.lessons

-- The arguments of the source, behind the new row's key.
abbrev pub create_lesson : ℕ → ℕ → ℕ → ℕ → ℕ → ℕ → Option String → Option String → Exec Lesson
create_lesson id booking_id student_id teacher_id scheduled_start_at scheduled_end_at topic notes =
    do
      let lesson : Lesson = record {
        id = id;
        booking_id = booking_id;
        student_id = student_id;
        teacher_id = teacher_id;
        scheduled_start_at = scheduled_start_at;
        scheduled_end_at = scheduled_end_at;
        status = LessonStatusEnum.scheduled;
        consumed_at = none;
        topic = topic;
        notes = notes;
        homework = none;
        links = none;
        meeting_url = none;
        recording_url = none;
      }
      modify (λ d. record d { lessons = lesson ∷ d.lessons })
      pure lesson

-- The flush of a changed lesson; a change of `None` is skipped by the caller's record update.
abbrev pub update_lesson : Lesson → Exec Lesson
update_lesson l = do modify (λ d. record d { lessons = save lesson_key l d.lessons }); pure l
