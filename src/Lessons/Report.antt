-- ===== src/Lessons/Report.antt =====
-- `LessonsService.update_lesson` and `report_lesson` (app/modules/lessons/service.py).
use text.Mathlib.Text.{◌==◌ as same_text}
use guitar_online.Base.{
  ℕ, Bool, true, false, not, ◌&&◌, ◌||◌, Option, none, some, List, [], ◌∷◌, String, ◌==◌, ltb,
  length, if◌then◌else◌,
}
use guitar_online.Store.Enums.{LessonStatusEnum, is_admin, is_teacher}
use guitar_online.Store.Rows.{User, Lesson}
use guitar_online.Store.Events.{lesson_report_update}
use guitar_online.Store.Session.{
  Exec, business, not_found, unauthorized, pure, or_raise, raise_if, create_audit_log, ◌>>=◌, ◌>>◌,
}
use guitar_online.Store.Text.{Str, is_nonempty}
use guitar_online.Lessons.Repository.{get_lesson_by_id}
use guitar_online.Lessons.Repository
use guitar_online.Lessons.Moderation.{Search, validate_report_content}

-- The entries of `changes`; `none` where the dict has no entry.
pub record Changes : Type 0 where
  pub status : Option LessonStatusEnum
  pub topic : Option String
  pub notes : Option String
  pub homework : Option String
  pub links : Option (List String)
  pub meeting_url : Option String
  pub recording_url : Option String

-- LessonUpdate; addresses stand as their texts.
pub record LessonUpdate : Type 0 where
  pub changes : Changes
  pub use_meeting_url_template : Bool

-- TeacherLessonReportRequest: `links` is a list, which is empty by default.
pub record TeacherLessonReportRequest : Type 0 where
  pub notes : Option String
  pub homework : Option String
  pub links : List String
  pub meeting_url : Option String
  pub recording_url : Option String
  pub use_meeting_url_template : Bool

abbrev pub or_keep : {A : Type 0} → Option A → A → A
or_keep none old = old
or_keep (some new) old = new

-- An optional column.
abbrev pub or_same : {A : Type 0} → Option A → Option A → Option A
or_same none old = old
or_same (some new) old = some new

-- The loop of `LessonsRepository.update_lesson`.
abbrev pub apply_changes : Changes → Lesson → Lesson
apply_changes c l = record l {
  status = or_keep c.status l.status;
  topic = or_same c.topic l.topic;
  notes = or_same c.notes l.notes;
  homework = or_same c.homework l.homework;
  links = or_same c.links l.links;
  meeting_url = or_same c.meeting_url l.meeting_url;
  recording_url = or_same c.recording_url l.recording_url;
}

abbrev pub update_with : Lesson → Changes → Exec Lesson
update_with lesson changes = Repository.update_lesson (apply_changes changes lesson)

-- The template of the settings, and `str.format` with a lesson's keys.
pub record MeetingUrls : Type 0 where
  pub lesson_meeting_url_template : Option String
  pub format : String → Lesson → String

abbrev pub is_blank : Str → String → Bool
is_blank text s = not (is_nonempty (text.strip s))

abbrev pub generate_meeting_url_from_template : Str → MeetingUrls → Lesson → Exec String
generate_meeting_url_from_template text urls lesson = do
  template ←
      or_raise urls.lesson_meeting_url_template (business "Meeting URL template is not configured")
  raise_if (is_blank text template) (business "Meeting URL template is not configured")
  pure (urls.format template lesson)

abbrev pub is_given : {A : Type 0} → Option A → Bool
is_given none = false
is_given (some a) = true

abbrev pub resolve_meeting_url_change :
    Str → MeetingUrls → Lesson → Option String → Bool → Exec String
resolve_meeting_url_change text urls lesson meeting_url use_template = do
  raise_if (is_given meeting_url && use_template)
      (business "Provide either meeting_url or use_meeting_url_template, not both")
  if use_template
      then generate_meeting_url_from_template text urls lesson
      else or_raise meeting_url (business "meeting_url is required when template mode is disabled")

-- `if "meeting_url" in changes or use_template: changes["meeting_url"] = …`
unfoldable pub with_meeting_url : Str → MeetingUrls → Lesson → Bool → Changes → Exec Changes
with_meeting_url text urls lesson use_template changes =
    if is_given changes.meeting_url || use_template
    then (do
      url ← resolve_meeting_url_change text urls lesson changes.meeting_url use_template
      pure (record changes { meeting_url = some url }))
    else pure changes

unfoldable pub same_texts : List String → List String → Bool
same_texts [] [] = true
same_texts [] (t ∷ ts) = false
same_texts (s ∷ ss) [] = false
same_texts (s ∷ ss) (t ∷ ts) = same_text s t && same_texts ss ts

-- `field in changes and getattr(lesson, field) != changes[field]`
abbrev pub differs : {A : Type 0} → (A → A → Bool) → Option A → Option A → Bool
differs same none old = false
differs same (some new) none = true
differs same (some new) (some old) = not (same new old)

abbrev pub changed_field : Bool → String → List String → List String
changed_field changed field rest = if changed then field ∷ rest else rest

abbrev pub collect_changed_fields : Lesson → Changes → List String
collect_changed_fields l c = changed_field (differs same_text c.notes l.notes) "notes" (
    changed_field (differs same_text c.homework l.homework) "homework" (
      changed_field (differs same_texts c.links l.links) "links" (
        changed_field (differs same_text c.meeting_url l.meeting_url) "meeting_url"
          (changed_field (differs same_text c.recording_url l.recording_url) "recording_url" []))))

module _ (text : Str) (urls : MeetingUrls) where
  unfoldable pub update_lesson : ℕ → LessonUpdate → User → Exec Lesson
  update_lesson lesson_id payload actor = do
    found ← get_lesson_by_id lesson_id
    lesson ← or_raise found (not_found "Lesson not found")
    raise_if (not (is_admin actor.role || is_teacher actor.role))
        (unauthorized "Only admin or teacher can update lessons")
    raise_if (is_teacher actor.role && not (lesson.teacher_id == actor.id))
        (unauthorized "Teacher can update only own lessons")
    changes ← with_meeting_url text urls lesson payload.use_meeting_url_template payload.changes
    update_with lesson changes

  -- The dict of a report; `links` is in it even if the request leaves it out.
  abbrev pub report_changes : TeacherLessonReportRequest → Changes
  report_changes payload = record {
    status = none;
    topic = none;
    notes = payload.notes;
    homework = payload.homework;
    links = some payload.links;
    meeting_url = payload.meeting_url;
    recording_url = payload.recording_url;
  }

  unfoldable pub report_lesson : Search → ℕ → TeacherLessonReportRequest → User → Exec Lesson
  report_lesson search lesson_id payload actor = do
    raise_if (not (is_teacher actor.role)) (unauthorized "Only teacher can report lesson")
    found ← get_lesson_by_id lesson_id
    lesson ← or_raise found (not_found "Lesson not found")
    raise_if (not (lesson.teacher_id == actor.id))
        (unauthorized "Teacher can report only own lessons")
    validate_report_content text search payload.notes payload.homework payload.links
    changes ←
        with_meeting_url text urls lesson payload.use_meeting_url_template (report_changes payload)
    let changed_fields = collect_changed_fields lesson changes
    updated ← update_with lesson changes
    if ltb 0 (length changed_fields)
        then create_audit_log (some actor.id)
            (lesson_report_update updated.id (length changed_fields))
        else pure tt
    pure updated
