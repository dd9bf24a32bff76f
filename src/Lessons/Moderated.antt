-- ===== src/Lessons/Moderated.antt =====
-- What a teacher's report leaves behind.
use guitar_online.Base.{
  ℕ, ◌≡◌, refl, ap, Bool, true, false, not, ◌||◌, Option, none, some, String, arith, ◌==◌, ltb,
  length,
}
use guitar_online.Base.Table.{find, save}
use guitar_online.Store.Rows.{User, Lesson, lesson_key}
use guitar_online.Store.Session.{Db, Error, Result, ok, err, or_raise, raise_if, ◌>>=◌}
use guitar_online.Store.Text.{Str}
use guitar_online.Store.Ends.{
  Ends, Ends-pure, Ends-if, Ends-gets, Ends-or_raise, Ends-raise_if, Ends-modify, Ends-check,
  Checked, Ends-assoc, Ends-pure_bind, Ends-if_bind,
}
use guitar_online.Lessons.Moderation.{
  Search, is_restricted, any_contact_link, validate_report_content,
}
use guitar_online.Lessons.Report.{
  collect_changed_fields, Changes, MeetingUrls, TeacherLessonReportRequest, or_same, apply_changes,
  is_given, resolve_meeting_url_change, with_meeting_url, report_changes, report_lesson,
}

-- Nothing but the address of the meeting changes.
abbrev IsUrlChange : Changes → Changes → Type 0
IsUrlChange c c' = c' ≡ record c { meeting_url = c'.meeting_url }

abbrev IsQuiet : {A : Type 0} → Db → Result A → Db → Type 0
IsQuiet d = Checked d (λ a. Unit {0})

or_raise-IsQuiet :
    {A : Type 0} (o : Option A) (e : Error) (d : Db) → Ends (IsQuiet d) (or_raise o e) d
unfolding ◌>>=◌
or_raise-IsQuiet none e d = record { at = refl }
or_raise-IsQuiet (some a) e d = record { at = (refl, tt) }

resolve-IsQuiet :
    (text : Str) (urls : MeetingUrls) (l : Lesson) (url : Option String) (use_template : Bool)
    (d : Db)
    → Ends (IsQuiet d) (resolve_meeting_url_change text urls l url use_template) d
resolve-IsQuiet text urls l url use_template d =
    Ends-raise_if _ _ _ (λ _. refl)
      λ _.
        Ends-if use_template _ _
          (λ _.
            Ends-or_raise _ _ _ (λ _. refl)
              λ template _.
                Ends-raise_if _ _ _ (λ _. refl) λ _. Ends-pure (urls.format template l) (refl, tt))
          λ _. or_raise-IsQuiet url _ d

with_meeting_url-IsUrlChange :
    (text : Str) (urls : MeetingUrls) (l : Lesson) (use_template : Bool) (c : Changes) (d : Db)
    → Ends (Checked d (IsUrlChange c)) (with_meeting_url text urls l use_template c) d
unfolding with_meeting_url
with_meeting_url-IsUrlChange text urls l use_template c d =
    Ends-if (is_given c.meeting_url || use_template) _ _
      (λ _.
        Ends-check _ _ _ (resolve-IsQuiet text urls l c.meeting_url use_template d) (λ _. refl)
          λ url _. Ends-pure (record c { meeting_url = some url }) (refl, refl))
      λ _. Ends-pure c (refl, refl)

abbrev IsClean : Str → Search → TeacherLessonReportRequest → Type 0
IsClean text search payload =
    (is_restricted text search payload.notes ≡ false)
    × (is_restricted text search payload.homework ≡ false)
    × (any_contact_link text search payload.links ≡ false)

raise_if-Checked :
    {Q : Type 0} (c : Bool) (e : Error) (d : Db)
    → (c ≡ false → Q)
    → Ends (Checked d (λ _. Q)) (raise_if c e) d
unfolding ◌>>=◌
raise_if-Checked true e d h = record { at = refl }
raise_if-Checked false e d h = record { at = (refl, h refl) }

validate-IsClean :
    (text : Str) (search : Search) (payload : TeacherLessonReportRequest) (d : Db)
    → Ends
        (Checked d (λ _. IsClean text search payload))
        (validate_report_content text search payload.notes payload.homework payload.links)
        d
unfolding validate_report_content
validate-IsClean text search payload d =
    Ends-raise_if _ _ _ (λ _. refl)
      λ notes.
        Ends-raise_if _ _ _ (λ _. refl)
          λ homework. raise_if-Checked _ _ d (λ links. (notes, homework, links))

module _ (text : Str) (urls : MeetingUrls) (search : Search) (lesson_id : ℕ)
    (payload : TeacherLessonReportRequest) (actor : User) where
  -- The lesson after the report, and what it was before.
  abbrev pub IsReport : Lesson → Lesson → Type 0
  IsReport old new =
      (new.teacher_id ≡ actor.id)
      × (new.status ≡ old.status)
      × (new.consumed_at ≡ old.consumed_at)
      × (new.notes ≡ or_same payload.notes old.notes)
      × (new.homework ≡ or_same payload.homework old.homework)
      × (new.links ≡ some payload.links)

  abbrev pub IsReported : Db → Result Lesson → Db → Type 0
  IsReported d (ok new) d' =
      (old : Lesson) × (find lesson_key lesson_id d.lessons ≡ some old)
      × IsReport old new
      × IsClean text search payload
      × (d'.lessons ≡ save lesson_key new d.lessons)
      × (d'.packages ≡ d.packages)
  IsReported d (err e) d' = d' ≡ d

  apply_changes-IsReport :
      (old : Lesson) (c : Changes)
      → not (old.teacher_id == actor.id) ≡ false
      → IsUrlChange (report_changes text urls payload) c
      → IsReport old (apply_changes c old)
  apply_changes-IsReport old c own same = (
    ground (arith, own),
    ap (λ c. (apply_changes c old).status) same,
    refl,
    ap (λ c. (apply_changes c old).notes) same,
    ap (λ c. (apply_changes c old).homework) same,
    ap (λ c. (apply_changes c old).links) same,
  )

  -- A report raises and changes nothing, or it saves the lesson that it returns, which is one of the
  -- acting teacher's: neither its status nor what it has cost changes, it has the notes and the homework
  -- of the report where the report gives them and the links of the report in any case, and none of these
  -- texts has a contact.
  pub report_lesson-IsReported :
      (d : Db) → Ends (IsReported d) (report_lesson text urls search lesson_id payload actor) d
  unfolding report_lesson
  report_lesson-IsReported d =
      Ends-raise_if _ _ _ (λ _. refl)
        λ _. Ends-gets _ _ (
          Ends-or_raise _ _ _ (λ _. refl)
            λ old found.
              Ends-raise_if _ _ _ (λ _. refl)
                λ own.
                  Ends-check _ _ _ (validate-IsClean text search payload d) (λ _. refl)
                    λ _ clean.
                      Ends-check _ _ _
                        (with_meeting_url-IsUrlChange text urls old payload.use_meeting_url_template
                          (report_changes text urls payload) d)
                        (λ _. refl)
                        λ c same. Ends-assoc _ _ _ _ (
                          Ends-modify _ _ (
                            Ends-pure_bind _ _ (
                              Ends-if_bind (ltb 0 (length (collect_changed_fields old c))) _ _ _
                                (λ _. Ends-modify _ _ (
                                  Ends-pure _ (
                                    old,
                                    found,
                                    apply_changes-IsReport old c own same,
                                    clean,
                                    refl,
                                    refl,
                                  )))
                                λ _. Ends-pure_bind _ _ (
                                  Ends-pure _ (
                                    old,
                                    found,
                                    apply_changes-IsReport old c own same,
                                    clean,
                                    refl,
                                    refl,
                                  ))))))
